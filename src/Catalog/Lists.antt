-- ===== src/Catalog/Lists.antt =====
-- The searches `indexFolder`, `indexSSHHost`, `indexWebRoute` and `indexForward`, and assignment to
-- an element of a slice.
use tunnel_board.Prelude.{
  ℕ, zero, suc, ◌≡◌, refl, ap, List, [], ◌∷◌, map, Option, none, some, ◌==◌, nat_eq, if◌then◌else◌,
  arith,
}
use tunnel_board.Model.{Folder, SshHost, Forward, WebRoute}

module _ {A : Type 0} (id_of : A → ℕ) where
  -- the position of the first element with the id; `none` is the source's -1
  unfoldable pub index_by : List A → ℕ → Option ℕ
  index_by [] id = none
  index_by (x ∷ xs) id =
      let rest = index_by xs id in
      if id_of x == id then some 0 else elim rest [ none ↦ none | some i ↦ some (suc i) ]

abbrev pub index_folder : List Folder → ℕ → Option ℕ
index_folder = index_by (λ f. f.id)

abbrev pub index_ssh_host : List SshHost → ℕ → Option ℕ
index_ssh_host = index_by (λ h. h.id)

abbrev pub index_web_route : List WebRoute → ℕ → Option ℕ
index_web_route = index_by (λ r. r.id)

abbrev pub index_forward : List Forward → ℕ → Option ℕ
index_forward = index_by (λ fw. fw.id)

module _ {A : Type 0} where
  -- `xs[i] = v`
  unfoldable pub set : List A → ℕ → A → List A
  set [] i v = []
  set (x ∷ xs) zero v = v ∷ xs
  set (x ∷ xs) (suc i) v = x ∷ set xs i v

  -- `append(xs[:i], xs[i+1:]...)`
  unfoldable pub erase_idx : List A → ℕ → List A
  erase_idx [] i = []
  erase_idx (x ∷ xs) zero = xs
  erase_idx (x ∷ xs) (suc i) = x ∷ erase_idx xs i

  unfoldable pub get_elem? : List A → ℕ → Option A
  get_elem? [] i = none
  get_elem? (x ∷ xs) zero = some x
  get_elem? (x ∷ xs) (suc i) = get_elem? xs i

module _ {A : Type 0} (id_of : A → ℕ) where
  -- An element found by its id has that id.
  pub get_elem?-index_by :
      (xs : List A) (id i : ℕ)
      → index_by id_of xs id ≡ some i
      → (x : A) × (get_elem? xs i ≡ some x) × (id_of x ≡ id)
  unfolding index_by get_elem?
  get_elem?-index_by [] id i h = cc
  get_elem?-index_by (x ∷ xs) id zero h = (x, refl, ground arith)
  get_elem?-index_by (x ∷ xs) id (suc i) h = get_elem?-index_by xs id i (ground arith)

  -- Replacing an element by one with its id keeps the list of ids.
  pub map-set :
      (xs : List A) (id i : ℕ) (v : A)
      → index_by id_of xs id ≡ some i
      → id_of v ≡ id
      → map id_of (set xs i v) ≡ map id_of xs
  unfolding index_by set
  map-set [] id i v h e = refl
  map-set (x ∷ xs) id zero v h e = ground arith
  map-set (x ∷ xs) id (suc i) v h e = ap (◌∷◌ (id_of x)) (map-set xs id i v (ground arith) e)
