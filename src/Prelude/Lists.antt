-- ===== src/Prelude/Lists.antt =====
-- Lists measured by native numbers, Boolean filters and searches, and `All`.
use Prim.Native.Nat.{ℕ, zero, suc, ◌+◌, ◌-◌, ◌≤◌}
use mathlib.Core.Path.{◌≡◌, refl, ap}
use mathlib.Core.Logic.{inl, inr}
use mathlib.Core.Bool.{Bool, true, false, ◌&&◌, ◌||◌}
use mathlib.Core.List.{List, [], ◌∷◌, ◌++◌, map}
use native.Mathlib.Omega.{arith}
use tunnel_board.Prelude.Tests.{if◌then◌else◌, Bool-cases}

module _ {ℓ} {A : Type ℓ} where
  abbrev pub length : List A → ℕ
  length [] = 0
  length (x ∷ xs) = suc (length xs)

  abbrev pub any : (A → Bool) → List A → Bool
  any p [] = false
  any p (x ∷ xs) = p x || any p xs

  abbrev pub all : (A → Bool) → List A → Bool
  all p [] = true
  all p (x ∷ xs) = p x && all p xs

  -- keeps what the test accepts
  abbrev pub filter : (A → Bool) → List A → List A
  filter p [] = []
  filter p (x ∷ xs) = let rest = filter p xs in if p x then x ∷ rest else rest

  -- `xs[:i]` and `xs[i:]`
  abbrev pub take : ℕ → List A → List A
  take zero xs = []
  take (suc i) [] = []
  take (suc i) (x ∷ xs) = x ∷ take i xs

  abbrev pub drop : ℕ → List A → List A
  drop zero xs = xs
  drop (suc i) [] = []
  drop (suc i) (x ∷ xs) = drop i xs

  -- a predicate at every entry
  abbrev pub All {κ} : (A → Type κ) → List A → Type κ
  All P [] = Unit
  All P (x ∷ xs) = P x × All P xs

module _ {ℓ} {A : Type ℓ} where
  pub length-append : (xs ys : List A) → length (xs ++ ys) ≡ length xs + length ys
  length-append [] ys = omega arith
  length-append (x ∷ xs) ys = omega (arith, length-append xs ys)

  pub length-filter-le : (p : A → Bool) (xs : List A) → length (filter p xs) ≤ length xs
  length-filter-le p [] = omega arith
  length-filter-le p (x ∷ xs) = ground (arith, length-filter-le p xs)

module _ {ℓ} {A : Type ℓ} where
  pub take-append : (xs ys : List A) → take (length xs) (xs ++ ys) ≡ xs
  take-append [] ys = refl
  take-append (x ∷ xs) ys = ap (◌∷◌ x) (take-append xs ys)

  pub drop-append : (xs ys : List A) → drop (length xs) (xs ++ ys) ≡ ys
  drop-append [] ys = refl
  drop-append (x ∷ xs) ys = drop-append xs ys

module _ {ℓ κ} {A : Type ℓ} where
  pub All-append : (P : A → Type κ) (xs ys : List A) → All P xs → All P ys → All P (xs ++ ys)
  All-append P [] ys hx hy = hy
  All-append P (x ∷ xs) ys hx hy = (hx.0, All-append P xs ys hx.1 hy)

  pub All-map : (P Q : A → Type κ) (xs : List A) → ((x : A) → P x → Q x) → All P xs → All Q xs
  All-map P Q [] f h = tt
  All-map P Q (x ∷ xs) f h = (f x h.0, All-map P Q xs f h.1)

  pub All-filter : (P : A → Type κ) (p : A → Bool) (xs : List A) → All P xs → All P (filter p xs)
  All-filter P p [] h = tt
  All-filter P p (x ∷ xs) h = elim (Bool-cases (p x)) [
    | inl e ↦ rw e (h.0, All-filter P p xs h.1)
    | inr e ↦ rw e (All-filter P p xs h.1)
  ]

  pub All-of_any :
      (P : A → Type κ) (p : A → Bool) (xs : List A)
      → ((x : A) → p x ≡ false → P x)
      → any p xs ≡ false
      → All P xs
  All-of_any P p [] f h = tt
  All-of_any P p (x ∷ xs) f h = (f x (ground arith), All-of_any P p xs f (ground arith))

  pub All-and : (P Q : A → Type κ) (xs : List A) → All P xs → All Q xs → All (λ x. P x × Q x) xs
  All-and P Q [] hp hq = tt
  All-and P Q (x ∷ xs) hp hq = ((hp.0, hq.0), All-and P Q xs hp.1 hq.1)

module _ {A : Type 0} where
  -- what a filter leaves has passed its test
  pub All-filter_kept :
      (P : A → Type 0) (p : A → Bool) (xs : List A)
      → All P xs
      → All (λ x. P x × (p x ≡ true)) (filter p xs)
  All-filter_kept P p [] h = tt
  All-filter_kept P p (x ∷ xs) h = elim (Bool-cases (p x)) [
    | inl e ↦ rw e ((h.0, e), All-filter_kept P p xs h.1)
    | inr e ↦ rw e (All-filter_kept P p xs h.1)
  ]

  pub All-of_map :
      {B : Type 0} (f : A → B) (P : B → Type 0) (xs : List A)
      → All (λ x. P (f x)) xs
      → All P (map f xs)
  All-of_map f P [] h = tt
  All-of_map f P (x ∷ xs) h = (h.0, All-of_map f P xs h.1)

pub length-drop : {A : Type 0} (n : ℕ) (xs : List A) → length (drop n xs) ≡ length xs - n
length-drop zero xs = omega arith
length-drop (suc n) [] = omega arith
length-drop (suc n) (x ∷ xs) = let r = length-drop n xs in omega (arith, r)

pub length-take-le : {A : Type 0} (n : ℕ) (xs : List A) → length (take n xs) ≤ length xs
length-take-le zero xs = omega arith
length-take-le (suc n) [] = omega arith
length-take-le (suc n) (x ∷ xs) = let r = length-take-le n xs in omega (arith, r)
