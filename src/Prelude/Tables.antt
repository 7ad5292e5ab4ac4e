-- ===== src/Prelude/Tables.antt =====
-- A map of Go from numbers to values, as the list of its entries.
use Prim.Native.Nat.{ℕ}
use mathlib.Core.Path.{◌≡◌, refl}
use mathlib.Core.Option.{Option, none, some}
use mathlib.Core.Option as O
use mathlib.Core.List.{List, [], ◌∷◌}
use native.Mathlib.Omega.{arith}
use tunnel_board.Prelude.Tests.{if◌then◌else◌}
use tunnel_board.Prelude.Equality.{◌==◌, nat_eq}

abbrev pub Table {ℓ} : Type ℓ → Type ℓ
Table A = List (ℕ × A)

module _ {ℓ} {A : Type ℓ} where
  abbrev pub value_at : ℕ → Table A → Option A
  value_at k [] = none
  value_at k ((i, a) ∷ t) = let rest = value_at k t in if i == k then some a else rest

  -- `delete(t, k)`
  abbrev pub remove : ℕ → Table A → Table A
  remove k [] = []
  remove k ((i, a) ∷ t) = let rest = remove k t in if i == k then rest else (i, a) ∷ rest

  -- `t[k] = a`
  abbrev pub put : ℕ → A → Table A → Table A
  put k a t = (k, a) ∷ remove k t

  -- an entry that a later one has replaced
  abbrev pub put_under : ℕ → A → Table A → Table A
  put_under k a t = under (value_at k t)
    where
      under : Option A → Table A
      under none = (k, a) ∷ t
      under (some later) = t

  -- changes each value where it stands
  abbrev pub update_all : (ℕ → A → A) → Table A → Table A
  update_all f [] = []
  update_all f ((i, a) ∷ t) = (i, f i a) ∷ update_all f t

  pub value_at-remove :
      (k i : ℕ) (t : Table A) → value_at k (remove i t) ≡ (if i == k then none else value_at k t)
  value_at-remove k i [] = ground arith
  value_at-remove k i ((j, a) ∷ t) = let rest = value_at-remove k i t in ground (arith, rest)

  pub value_at-put :
      (k i : ℕ) (a : A) (t : Table A)
      → value_at k (put i a t) ≡ (if i == k then some a else value_at k t)
  value_at-put k i a t = let rest = value_at-remove k i t in ground (arith, rest)

  pub value_at-update_all :
      (f : ℕ → A → A) (k : ℕ) (t : Table A)
      → value_at k (update_all f t) ≡ O.map (f k) (value_at k t)
  value_at-update_all f k [] = refl
  value_at-update_all f k ((j, a) ∷ t) =
      let rest = value_at-update_all f k t in ground (arith, rest)
