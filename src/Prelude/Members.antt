-- ===== src/Prelude/Members.antt =====
-- Membership and duplicates: the tests that stand for the source's sets and maps keyed by ids.
use mathlib.Core.Path.{◌≡◌, refl}
use mathlib.Core.Logic.{◌↔◌, inl, inr}
use mathlib.Core.Logic.Or
use mathlib.Core.Bool.{Bool, true, false, ◌||◌, Bool-set}
use mathlib.Core.List.{
  List, [], ◌∷◌, ◌++◌, Mem, Nodup, Nodup-cons, Nodup-nil, mem-cons_self, mem-cons_of_mem,
  eq-or-mem_of_mem-cons, not-mem-nil,
}
use native.Mathlib.Omega.{arith}
use tunnel_board.Prelude.Tests.{Bool-cases, and_true}
use mathlib.Core.List.{append_assoc}
use tunnel_board.Prelude.Lists.{All, all}
use tunnel_board.Prelude.Equality.{Eq, ◌==◌}

module _ {ℓ} {A : Type ℓ} ⦃e : Eq A⦄ where
  pub beq_refl : (a : A) → (a == a) ≡ true
  beq_refl a = (e.same_iff a a).1 refl

  -- `set[a]` for a set filled from the list
  abbrev pub contains : A → List A → Bool
  contains a [] = false
  contains a (x ∷ xs) = x == a || contains a xs

  contains-of_mem : (a : A) (xs : List A) → Mem a xs → contains a xs ≡ true
  contains-of_mem a [] m = absurd (not-mem-nil m)
  contains-of_mem a (x ∷ xs) m =
      Or.elim (Bool-set _ _) (eq-or-mem_of_mem-cons m) (λ q. ground (arith, e.same_iff x a))
        (λ r. ground (arith, contains-of_mem a xs r))

  mem-of_contains : (a : A) (xs : List A) → contains a xs ≡ true → Mem a xs
  mem-of_contains a [] h = cc
  mem-of_contains a (x ∷ xs) h = elim (Bool-cases (x == a)) [
    | inl q ↦ rw ((e.same_iff x a).0 q) mem-cons_self
    | inr q ↦ mem-cons_of_mem x (mem-of_contains a xs (rw q at h))
  ]

  pub contains_iff : (a : A) (xs : List A) → (contains a xs ≡ true) ↔ Mem a xs
  contains_iff a xs = (mem-of_contains a xs, contains-of_mem a xs)

  pub not_contains : (a : A) (xs : List A) → ¬ Mem a xs → contains a xs ≡ false
  not_contains a xs h = elim (Bool-cases (contains a xs)) [
    | inl q ↦ absurd (h (mem-of_contains a xs q))
    | inr q ↦ q
  ]

  -- a loop that stops at the first entry seen before
  abbrev pub has_duplicate : List A → Bool
  has_duplicate [] = false
  has_duplicate (x ∷ xs) = contains x xs || has_duplicate xs

  Nodup-of_has_duplicate : (xs : List A) → has_duplicate xs ≡ false → Nodup xs
  Nodup-of_has_duplicate [] h = Nodup-nil
  Nodup-of_has_duplicate (x ∷ xs) h =
      Nodup-cons.1
        (λ m. ground (arith, contains-of_mem x xs m), Nodup-of_has_duplicate xs (ground arith))

  has_duplicate-of_Nodup : (xs : List A) → Nodup xs → has_duplicate xs ≡ false
  has_duplicate-of_Nodup [] h = refl
  has_duplicate-of_Nodup (x ∷ xs) h =
      let (fresh, rest) = Nodup-cons.0 h in
      ground (arith, not_contains x xs fresh, has_duplicate-of_Nodup xs rest)

  pub has_duplicate_iff : (xs : List A) → (has_duplicate xs ≡ false) ↔ Nodup xs
  has_duplicate_iff xs = (Nodup-of_has_duplicate xs, has_duplicate-of_Nodup xs)

  pub contains-append :
      (a : A) (xs ys : List A) → contains a (xs ++ ys) ≡ (contains a xs || contains a ys)
  contains-append a [] ys = refl
  contains-append a (x ∷ xs) ys = ground (arith, contains-append a xs ys)

  -- each entry of a list is in it
  pub All-contains : (ys xs : List A) → All (λ a. contains a (ys ++ xs) ≡ true) xs
  All-contains ys [] = tt
  All-contains ys (x ∷ xs) = (
    ground (arith, contains-append x ys (x ∷ xs), beq_refl x),
    rw (append_assoc ys (x ∷ []) xs) at (All-contains (ys ++ x ∷ []) xs),
  )

module _ {ℓ} {A : Type ℓ} (p : A → Bool) where
  pub all-mem : (a : A) (xs : List A) → all p xs ≡ true → Mem a xs → p a ≡ true
  all-mem a [] h m = absurd (not-mem-nil m)
  all-mem a (x ∷ xs) h m =
      Or.elim (Bool-set _ _) (eq-or-mem_of_mem-cons m) (λ q. rw q (and_true h).0)
        (λ r. all-mem a xs (and_true h).1 r)

  pub all-of_mem : (xs : List A) → ((a : A) → Mem a xs → p a ≡ true) → all p xs ≡ true
  all-of_mem [] h = refl
  all-of_mem (x ∷ xs) h = rw (h x mem-cons_self) (all-of_mem xs (λ a m. h a (mem-cons_of_mem x m)))
