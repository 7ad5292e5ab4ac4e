-- ===== src/CommandCache/Replay.antt =====
-- A command that is sent again gets the stored result (internal/application/idempotency.go).
use tunnel_board.Prelude.{
  ℕ, zero, suc, ◌+◌, ◌-◌, ◌≤◌, ◌<◌, String, ◌≡◌, ◌≢◌, refl, ap, ◌∙◌, Bool, true, false, ◌||◌, not,
  ltb, ◌==◌, nat_eq, text_eq, inl, inr, filter, length-append, List, [], ◌∷◌, ◌++◌, some, length,
  drop, if◌then◌else◌, contains, Bool-cases, arith, eq_iff, beq_refl,
}
use tunnel_board.CommandCache.{
  CachedCommand, RecentCommandCache, find_command, remove_command, prune_expired, hit, conflict,
  lookup, entry_for, evict, store,
}
use tunnel_board.CommandCache.Bounds.{ids_of, IsBounded, contains-filter, removed_fresh}

drop-snoc :
    (n : ℕ) (es : List CachedCommand) (e : CachedCommand)
    → n ≤ length es
    → drop n (es ++ e ∷ []) ≡ drop n es ++ e ∷ []
drop-snoc zero es e h = refl
drop-snoc (suc n) [] e h = absurd (omega (arith, h))
drop-snoc (suc n) (x ∷ es) e h = drop-snoc n es e (omega (arith, h))

drop-fresh :
    (n : ℕ) (es : List CachedCommand) (id : String)
    → contains id (ids_of es) ≡ false
    → contains id (ids_of (drop n es)) ≡ false
drop-fresh zero es id h = h
drop-fresh (suc n) [] id h = refl
drop-fresh (suc n) (e ∷ es) id h = drop-fresh n es id (ground (arith, h))

filter-snoc :
    (p : CachedCommand → Bool) (es : List CachedCommand) (e : CachedCommand)
    → p e ≡ true
    → filter p (es ++ e ∷ []) ≡ filter p es ++ e ∷ []
filter-snoc p [] e h = rw h refl
filter-snoc p (x ∷ es) e h = ground (arith, filter-snoc p es e)

find_command-snoc :
    (es : List CachedCommand) (e : CachedCommand)
    → contains e.command_id (ids_of es) ≡ false
    → find_command e.command_id (es ++ e ∷ []) ≡ some e
unfolding find_command
find_command-snoc [] e h = rw (beq_refl e.command_id) refl
find_command-snoc (x ∷ es) e h = ground (arith, find_command-snoc es e)

module _ (c : RecentCommandCache) (b : IsBounded c) (id operation digest result : String)
    (now later : ℕ) (given : id ≢ "") (in_time : later < now + c.ttl) where
  abbrev entry : CachedCommand
  entry = entry_for id operation digest result (now + c.ttl)

  abbrev others : List CachedCommand
  others = remove_command id (prune_expired now c.order)

  -- how many are evicted
  abbrev excess : ℕ
  excess = length (others ++ entry ∷ []) - c.capacity

  not_empty : (id == "") ≡ false
  not_empty = elim (Bool-cases (id == "")) [
    | inl e ↦ absurd (given ((eq_iff id "").0 e))
    | inr e ↦ e
  ]

  stored_order : (store id operation digest result now c).order ≡ drop excess others ++ entry ∷ []
  unfolding store evict
  stored_order =
      rw not_empty (
        drop-snoc excess others entry
          (omega (arith, length-append others (entry ∷ []), b.has_room)))

  find-stored :
      find_command id (prune_expired later (store id operation digest result now c).order)
      ≡ some entry
  unfolding prune_expired
  find-stored =
      let live : ltb later (now + c.ttl) ≡ true = ground (arith, in_time) in
      ap (λ es. find_command id (prune_expired later es)) stored_order
      ∙ ap (find_command id)
          (filter-snoc (λ e. ltb later e.expires_at) (drop excess others) entry live)
      ∙ find_command-snoc (filter (λ e. ltb later e.expires_at) (drop excess others)) entry (
          contains-filter _ (drop excess others) id
            (drop-fresh excess others id (removed_fresh c b id now)))

  -- In a bounded cache, a command that is stored under a non-empty id is answered with its result before its
  -- time is over, if operation and payload are the same, and is refused as a conflict otherwise.
  pub lookup-store :
      (operation₁ digest₁ : String)
      → (lookup id operation₁ digest₁ later (store id operation digest result now c)).1 ≡ (
          if not (operation == operation₁) || not (digest == digest₁)
          then conflict (entry_for id operation digest result (now + c.ttl))
          else hit result)
  unfolding lookup
  lookup-store operation₁ digest₁ =
      rw (lookup, not_empty, find-stored)
        (elim (Bool-cases (not (operation == operation₁) || not (digest == digest₁))) [
          | inl e ↦ rw e refl
          | inr e ↦ rw e refl
        ])
