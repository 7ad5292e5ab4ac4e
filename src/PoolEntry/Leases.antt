-- ===== src/PoolEntry/Leases.antt =====
-- The reference count of a shared connection is the number of its leases
-- (internal/forward/conn_pool.go).
use tunnel_board.Prelude.{
  ℤ, pos, add_one, sub_one, is_zero, ℕ, suc, ◌≡◌, inl, inr, refl, ap, sym, ◌∙◌, Bool, true, false,
  ◌&&◌, ◌==◌, nat_eq, List, [], ◌∷◌, Option, none, some, if◌then◌else◌, Bool-cases, arith,
}
use tunnel_board.PoolEntry.{Shared, is_client, acquire, release, mark_dead, close_entry}

-- how many leases a client has
abbrev pub count : ℕ → List ℕ → ℕ
count c [] = 0
count c (l ∷ ls) = let rest = count c ls in if l == c then suc rest else rest

-- the leases after one is given back
abbrev pub give_back : ℕ → List ℕ → List ℕ
give_back c [] = []
give_back c (l ∷ ls) = let rest = give_back c ls in if l == c then ls else l ∷ rest

-- the leases after an answer of `acquire`
abbrev pub lease : Option ℕ → List ℕ → List ℕ
lease none ls = ls
lease (some c) ls = c ∷ ls

abbrev pub Counts : Option ℕ → ℤ → List ℕ → Type 0
Counts none refs ls = Unit
Counts (some c) refs ls = refs ≡ pos (count c ls)

-- The count is the number of the leases of the client that the entry has.
abbrev pub Counted : Shared → List ℕ → Type 0
Counted s ls = Counts s.entry.client s.entry.refs ls

-- a new connection has no lease yet
abbrev pub IsNew : Option ℕ → List ℕ → Type 0
IsNew none ls = Unit
IsNew (some c) ls = count c ls ≡ 0

give_back-same : (c : ℕ) (ls : List ℕ) (n : ℕ) → count c ls ≡ suc n → count c (give_back c ls) ≡ n
give_back-same c [] n h = absurd (omega (arith, h))
give_back-same c (l ∷ ls) n h = elim (Bool-cases (l == c)) [
  | inl e ↦ ground (arith, e, h)
  | inr e ↦
      let held : count c ls ≡ suc n = ground (arith, e, h) in
      ground (arith, e, give_back-same c ls n held)
]

give_back-other : (c d : ℕ) (ls : List ℕ) → (c == d) ≡ false → count c (give_back d ls) ≡ count c ls
give_back-other c d [] h = refl
give_back-other c d (l ∷ ls) h = ground (arith, h, give_back-other c d ls)

count_self : (c : ℕ) (ls : List ℕ) → pos (count c (c ∷ ls)) ≡ add_one (pos (count c ls))
count_self c ls = ground arith

module _ (refs : ℤ) (generation next : ℕ) (closed : List ℕ) where
  -- an entry with these values
  abbrev shared : Option ℕ → Bool → Shared
  shared client dead = record {
    entry = record { client = client; dead = dead; refs = refs; generation = generation };
    next_generation = next;
    closed = closed;
  }

  acquire-Counts :
      (dialled client : Option ℕ) (dead : Bool) (ls : List ℕ)
      → IsNew dialled ls
      → Counts client refs ls
      → Counted
          (acquire dialled (shared client dead)).0
          (lease (acquire dialled (shared client dead)).1 ls)
  unfolding acquire
  acquire-Counts none none dead ls new h = tt
  acquire-Counts (some d) none dead ls new h = ap add_one (ap pos (sym new)) ∙ sym (count_self d ls)
  acquire-Counts none (some c) true ls new h = h
  acquire-Counts (some d) (some c) true ls new h =
      ap add_one (ap pos (sym new)) ∙ sym (count_self d ls)
  acquire-Counts none (some c) false ls new h = ap add_one h ∙ sym (count_self c ls)
  acquire-Counts (some d) (some c) false ls new h = ap add_one h ∙ sym (count_self c ls)

  release-Counts :
      (l : ℕ) (client : Option ℕ) (dead : Bool) (ls : List ℕ) (n : ℕ)
      → count l ls ≡ suc n
      → Counts client refs ls
      → Counted (release l (shared client dead)) (give_back l ls)
  unfolding release
  release-Counts l none dead ls n held h = tt
  release-Counts l (some c) dead ls n held h = elim (Bool-cases (c == l)) [
    | inr other ↦ rw other (h ∙ ap pos (sym (give_back-other c l ls other)))
    | inl e ↦
        let same : c ≡ l = ground (arith, e) in
        let left : sub_one refs ≡ pos (count c (give_back l ls)) =
          ap sub_one h
          ∙ ap (λ k. sub_one (pos (count k ls))) same
          ∙ ap (λ k. sub_one (pos k)) held
          ∙ ap pos (sym (give_back-same l ls n held))
          ∙ ap (λ k. pos (count k (give_back l ls))) (sym same) in
        elim (Bool-cases (is_zero (sub_one refs))) [
          | inl z ↦ rw (e, z) left
          | inr z ↦ rw (e, z) left
        ]
  ]

  release-kept :
      (l : ℕ) (client : Option ℕ) (dead : Bool) (ls : List ℕ) (n : ℕ)
      → count l ls ≡ suc (suc n)
      → Counts client refs ls
      → ((release l (shared client dead)).closed ≡ closed)
        × ((release l (shared client dead)).entry.dead ≡ dead)
  unfolding release
  release-kept l none dead ls n held h = (refl, refl)
  release-kept l (some c) dead ls n held h = elim (Bool-cases (c == l)) [
    | inr other ↦ rw other (refl, refl)
    | inl e ↦
        let same : c ≡ l = ground (arith, e) in
        let left : sub_one refs ≡ pos (suc n) =
          ap sub_one h
          ∙ ap (λ k. sub_one (pos (count k ls))) same
          ∙ ap (λ k. sub_one (pos k)) held in
        let more : is_zero (sub_one refs) ≡ false = ap is_zero left in rw (e, more) (refl, refl)
  ]

-- what happens to an entry: a lease is asked for, given back, or the connection is found dead or closed
pub data Event : Type 0 where
  acquires : Option ℕ → Event
  releases : ℕ → Event
  dies : ℕ → ℕ → Event
  closes : Event

-- A new connection has no leases, and only a lease that is held is given back.
abbrev pub IsAllowed : Event → List ℕ → Type 0
IsAllowed (acquires dialled) ls = IsNew dialled ls
IsAllowed (releases l) ls = (n : ℕ) × (count l ls ≡ suc n)
IsAllowed (dies c generation) ls = Unit
IsAllowed closes ls = Unit

unfoldable pub after : Event → Shared × List ℕ → Shared × List ℕ
unfolding acquire release mark_dead close_entry
after (acquires dialled) (s, ls) = let (s', answer) = acquire dialled s in (s', lease answer ls)
after (releases l) (s, ls) = (release l s, give_back l ls)
after (dies c generation) (s, ls) = (mark_dead c generation s, ls)
after closes (s, ls) = (close_entry s, ls)

-- Where only held leases are given back and a new connection has no lease yet, each event on a
-- shared connection keeps the reference count equal to the number of leases of the current
-- client.
pub after-Counted :
    (e : Event) (s : Shared) (ls : List ℕ)
    → IsAllowed e ls
    → Counted s ls
    → Counted (after e (s, ls)).0 (after e (s, ls)).1
unfolding after mark_dead close_entry
after-Counted (acquires dialled) s ls new h =
    acquire-Counts s.entry.refs s.entry.generation s.next_generation s.closed dialled s.entry.client
      s.entry.dead ls new h
after-Counted (releases l) s ls (n, held) h =
    release-Counts s.entry.refs s.entry.generation s.next_generation s.closed l s.entry.client
      s.entry.dead ls n held h
after-Counted (dies c generation) s ls u h =
    elim (Bool-cases (is_client s.entry.client c && s.entry.generation == generation)) [
      | inl e ↦ rw e h
      | inr e ↦ rw e h
    ]
after-Counted closes s ls u h = h

-- Where the count is right, a lease that is given back while the same client has another one
-- closes nothing, and the connection stays as live as it was.
pub release-shared :
    (l : ℕ) (s : Shared) (ls : List ℕ) (n : ℕ)
    → count l ls ≡ suc (suc n)
    → Counted s ls
    → ((release l s).closed ≡ s.closed) × ((release l s).entry.dead ≡ s.entry.dead)
release-shared l s ls n held h =
    release-kept s.entry.refs s.entry.generation s.next_generation s.closed l s.entry.client
      s.entry.dead ls n held h
