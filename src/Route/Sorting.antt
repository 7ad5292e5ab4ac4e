-- ===== src/Route/Sorting.antt =====
-- `sort.Slice` and `sort.Strings` of Go's library, as an interface: the order of equal keys is open.
use mathlib.Core.List.{Perm}
use mathlib.Core.List.Perm as P
use tunnel_board.Prelude.{
  String, code, ◌≡◌, refl, Bool, true, false, ◌&&◌, ◌||◌, ltb, ◌==◌, nat_eq, inl, inr, List, [],
  ◌∷◌, if◌then◌else◌, Bool-cases, arith,
}

-- `<` on texts: the order of their bytes, which for UTF-8 is that of the code points
unfoldable pub text_ltb : String → String → Bool
text_ltb String.[] String.[] = false
text_ltb String.[] (String.◌∷◌ d t) = true
text_ltb (String.◌∷◌ c s) String.[] = false
text_ltb (String.◌∷◌ c s) (String.◌∷◌ d t) =
    ltb (code c) (code d) || (code c == code d && text_ltb s t)

text_ltb-asym : (s t : String) → text_ltb s t ≡ true → text_ltb t s ≡ false
unfolding text_ltb
text_ltb-asym String.[] String.[] h = refl
text_ltb-asym String.[] (String.◌∷◌ d t) h = refl
text_ltb-asym (String.◌∷◌ c s) String.[] h = cc
text_ltb-asym (String.◌∷◌ c s) (String.◌∷◌ d t) h = ground (arith, text_ltb-asym s t)

module _ {A : Type 0} (key : A → String) where
  -- no entry is less than the one before it
  abbrev pub IsSorted : List A → Type 0
  IsSorted [] = Unit
  IsSorted (x ∷ []) = Unit
  IsSorted (x ∷ y ∷ ys) = (text_ltb (key y) (key x) ≡ false) × IsSorted (y ∷ ys)

pub record Sorting : Type 1 where
  pub sort : (A : Type 0) → (A → String) → List A → List A
  pub sort-IsSorted : (A : Type 0) (key : A → String) (xs : List A) → IsSorted key (sort A key xs)
  pub sort-Perm : (A : Type 0) (key : A → String) (xs : List A) → Perm (sort A key xs) xs

-- an implementation, for tests
module _ (A : Type 0) (key : A → String) where
  abbrev pub insert : A → List A → List A
  insert x [] = x ∷ []
  insert x (y ∷ ys) =
      let rest = insert x ys in if text_ltb (key y) (key x) then y ∷ rest else x ∷ y ∷ ys

  abbrev pub insertion_sort : List A → List A
  insertion_sort [] = []
  insertion_sort (x ∷ xs) = insert x (insertion_sort xs)

  insert_after :
      (x y : A) (zs : List A)
      → text_ltb (key x) (key y) ≡ false
      → IsSorted key (y ∷ zs)
      → IsSorted key (y ∷ insert x zs)
  insert_after x y [] e h = (e, tt)
  insert_after x y (z ∷ zs) e h = elim (Bool-cases (text_ltb (key z) (key x))) [
    | inl k ↦ rw k (h.0, insert_after x z zs (text_ltb-asym (key z) (key x) k) h.1)
    | inr k ↦ rw k (e, (k, h.1))
  ]

  insert-IsSorted : (x : A) (ys : List A) → IsSorted key ys → IsSorted key (insert x ys)
  insert-IsSorted x [] h = tt
  insert-IsSorted x (y ∷ ys) h = elim (Bool-cases (text_ltb (key y) (key x))) [
    | inl e ↦ rw e (insert_after x y ys (text_ltb-asym (key y) (key x) e) h)
    | inr e ↦ rw e (e, h)
  ]

  pub insertion_sort-IsSorted : (xs : List A) → IsSorted key (insertion_sort xs)
  insertion_sort-IsSorted [] = tt
  insertion_sort-IsSorted (x ∷ xs) =
      insert-IsSorted x (insertion_sort xs) (insertion_sort-IsSorted xs)

  insert-Perm : (x : A) (ys : List A) → Perm (insert x ys) (x ∷ ys)
  insert-Perm x [] = P.refl (x ∷ [])
  insert-Perm x (y ∷ ys) = elim (Bool-cases (text_ltb (key y) (key x))) [
    | inl e ↦ rw e (P.trans (P.cons y (insert-Perm x ys)) (P.swap x y ys))
    | inr e ↦ rw e (P.refl (x ∷ y ∷ ys))
  ]

  pub insertion_sort-Perm : (xs : List A) → Perm (insertion_sort xs) xs
  insertion_sort-Perm [] = P.refl []
  insertion_sort-Perm (x ∷ xs) =
      P.trans (insert-Perm x (insertion_sort xs)) (P.cons x (insertion_sort-Perm xs))

abbrev pub by_insertion : Sorting
by_insertion = record {
  sort = insertion_sort;
  sort-IsSorted = insertion_sort-IsSorted;
  sort-Perm = insertion_sort-Perm;
}
