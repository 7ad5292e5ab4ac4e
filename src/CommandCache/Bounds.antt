-- ===== src/CommandCache/Bounds.antt =====
-- What the command cache keeps, after any operation (internal/application/idempotency.go).
use tunnel_board.Prelude.{
  ℕ, zero, suc, ◌+◌, ◌-◌, ◌≤◌, ◌<◌, String, ◌≡◌, refl, ◌∙◌, Bool, true, false, ◌&&◌, ◌||◌, not, ltb,
  ◌==◌, nat_eq, text_eq, inl, inr, filter, length-filter-le, length-append, List, [], ◌∷◌, ◌++◌,
  map, Option, none, some, length, drop, if◌then◌else◌, contains, has_duplicate, Bool-cases, arith,
  eq_iff, beq_refl,
}
use tunnel_board.CommandCache.{
  CachedCommand, RecentCommandCache, find_command, remove_command, prune_expired, Lookup, hit,
  conflict, lookup, entry_for, evict, store, lookup_found,
}

abbrev pub ids_of : List CachedCommand → List String
ids_of es = map (λ e. e.command_id) es

-- at most `capacity` commands, no id twice
pub record IsBounded (c : RecentCommandCache) : Type 0 where
  pub has_room : 0 < c.capacity
  pub bounded : length c.order ≤ c.capacity
  pub distinct : has_duplicate (ids_of c.order) ≡ false

pub length-drop : {A : Type 0} (n : ℕ) (xs : List A) → length (drop n xs) ≡ length xs - n
length-drop zero xs = omega arith
length-drop (suc n) [] = omega arith
length-drop (suc n) (x ∷ xs) = omega (arith, length-drop n xs)

length-evict : (capacity : ℕ) (es : List CachedCommand) → length (evict capacity es) ≤ capacity
unfolding evict
length-evict capacity es = omega (arith, length-drop (length es - capacity) es)

drop-distinct :
    (n : ℕ) (es : List CachedCommand)
    → has_duplicate (ids_of es) ≡ false
    → has_duplicate (ids_of (drop n es)) ≡ false
drop-distinct zero es h = h
drop-distinct (suc n) [] h = refl
drop-distinct (suc n) (e ∷ es) h = drop-distinct n es (ground (arith, h))

evict-distinct :
    (capacity : ℕ) (es : List CachedCommand)
    → has_duplicate (ids_of es) ≡ false
    → has_duplicate (ids_of (evict capacity es)) ≡ false
unfolding evict
evict-distinct capacity es h = drop-distinct (length es - capacity) es h

pub contains-filter :
    (p : CachedCommand → Bool) (es : List CachedCommand) (id : String)
    → contains id (ids_of es) ≡ false
    → contains id (ids_of (filter p es)) ≡ false
contains-filter p [] id h = refl
contains-filter p (e ∷ es) id h = ground (arith, contains-filter p es id)

filter-distinct :
    (p : CachedCommand → Bool) (es : List CachedCommand)
    → has_duplicate (ids_of es) ≡ false
    → has_duplicate (ids_of (filter p es)) ≡ false
filter-distinct p [] h = refl
filter-distinct p (e ∷ es) h =
    ground (arith, contains-filter p es e.command_id, filter-distinct p es)

-- Without duplicates, a removed id is gone, and the others are as they were.
contains-remove_command :
    (id : String) (es : List CachedCommand) (other : String)
    → has_duplicate (ids_of es) ≡ false
    → contains other (ids_of (remove_command id es))
      ≡ (contains other (ids_of es) && not (id == other))
unfolding remove_command
contains-remove_command id [] other h = refl
contains-remove_command id (e ∷ es) other h = ground (
  arith,
  eq_iff e.command_id id,
  eq_iff e.command_id other,
  eq_iff id other,
  contains-remove_command id es other,
)

remove_command-distinct :
    (id : String) (es : List CachedCommand)
    → has_duplicate (ids_of es) ≡ false
    → has_duplicate (ids_of (remove_command id es)) ≡ false
unfolding remove_command
remove_command-distinct id [] h = refl
remove_command-distinct id (e ∷ es) h =
    ground (arith, remove_command-distinct id es, contains-remove_command id es e.command_id)

snoc-distinct :
    (es : List CachedCommand) (e : CachedCommand)
    → has_duplicate (ids_of es) ≡ false
    → contains e.command_id (ids_of es) ≡ false
    → has_duplicate (ids_of (es ++ e ∷ [])) ≡ false
snoc-distinct [] e h k = refl
snoc-distinct (x ∷ es) e h k = ground (
  arith,
  eq_iff x.command_id e.command_id,
  eq_iff e.command_id x.command_id,
  snoc-distinct es e,
  contains_snoc es e x.command_id,
)
  where
    contains_snoc :
        (es : List CachedCommand) (e : CachedCommand) (id : String)
        → contains id (ids_of (es ++ e ∷ [])) ≡ (contains id (ids_of es) || e.command_id == id)
    contains_snoc [] e id = ground arith
    contains_snoc (x ∷ es) e id = ground (arith, contains_snoc es e id)

length-remove_command :
    (id : String) (es : List CachedCommand) (e : CachedCommand)
    → find_command id es ≡ some e
    → (length (remove_command id es) + 1 ≡ length es) × (e.command_id ≡ id)
unfolding find_command remove_command
length-remove_command id [] e h = cc
length-remove_command id (x ∷ es) e h = elim (Bool-cases (x.command_id == id)) [
  | inl k ↦ (ground (arith, k), ground (arith, eq_iff x.command_id id, k, h))
  | inr k ↦
      let (size, same) = length-remove_command id es e (ground (arith, k, h)) in
      (ground (arith, k, size), same)
]

module _ (c : RecentCommandCache) (b : IsBounded c) where
  pruned-distinct : (now : ℕ) → has_duplicate (ids_of (prune_expired now c.order)) ≡ false
  unfolding prune_expired
  pruned-distinct now = filter-distinct _ c.order b.distinct

  pruned-bounded : (now : ℕ) → length (prune_expired now c.order) ≤ c.capacity
  unfolding prune_expired
  pruned-bounded now =
      omega (arith, length-filter-le (λ e. ltb now e.expires_at) c.order, b.bounded)

  pruned-IsBounded : (now : ℕ) → IsBounded (record c { order = prune_expired now c.order })
  pruned-IsBounded now = record {
    has_room = b.has_room;
    bounded = pruned-bounded now;
    distinct = pruned-distinct now;
  }

  pub removed_fresh :
      (id : String) (now : ℕ)
      → contains id (ids_of (remove_command id (prune_expired now c.order))) ≡ false
  removed_fresh id now =
      contains-remove_command id (prune_expired now c.order) id (pruned-distinct now)
      ∙ ground (arith, beq_refl id)

  found-IsBounded :
      (id operation digest : String) (now : ℕ) (o : Option CachedCommand)
      → find_command id (prune_expired now c.order) ≡ o
      → IsBounded (lookup_found operation digest c (prune_expired now c.order) o).0
  found-IsBounded id operation digest now none h = pruned-IsBounded now
  found-IsBounded id operation digest now (some e) h =
      go (not (e.operation == operation) || not (e.payload_digest == digest))
    where
      live : List CachedCommand
      live = prune_expired now c.order

      used : RecentCommandCache
      used = record c { order = remove_command e.command_id live ++ e ∷ [] }

      used-IsBounded : IsBounded used
      used-IsBounded =
          let (size, same) = length-remove_command id live e h in
          record {
            has_room = b.has_room;
            bounded = omega (
              arith,
              length-append (remove_command e.command_id live) (e ∷ []),
              rw (← same) at size,
              pruned-bounded now,
            );
            distinct =
                snoc-distinct (remove_command e.command_id live) e
                  (remove_command-distinct e.command_id live (pruned-distinct now))
                  (removed_fresh e.command_id now);
          }

      answer : Bool → RecentCommandCache × Lookup
      answer w = if w then (record c { order = live }, conflict e) else (used, hit e.result_json)

      go : (w : Bool) → IsBounded (answer w).0
      go true = pruned-IsBounded now
      go false = used-IsBounded

  -- A lookup in a bounded cache leaves at most `capacity` commands, and no id twice.
  pub lookup-IsBounded :
      (id operation digest : String) (now : ℕ) → IsBounded (lookup id operation digest now c).0
  unfolding lookup
  lookup-IsBounded id operation digest now = elim (Bool-cases (id == "")) [
    | inl e ↦ rw e b
    | inr e ↦ rw e (found-IsBounded id operation digest now _ refl)
  ]

  -- A store into a bounded cache leaves at most `capacity` commands, and no id twice.
  pub store-IsBounded :
      (id operation digest result : String) (now : ℕ)
      → IsBounded (store id operation digest result now c)
  unfolding store
  store-IsBounded id operation digest result now = elim (Bool-cases (id == "")) [
    | inl e ↦ rw e b
    | inr e ↦ rw e (record {
      has_room = b.has_room;
      bounded = length-evict c.capacity _;
      distinct = evict-distinct c.capacity _ (
          snoc-distinct (remove_command id (prune_expired now c.order))
            (entry_for id operation digest result (now + c.ttl))
            (remove_command-distinct id _ (pruned-distinct now)) (removed_fresh id now));
    })
  ]
