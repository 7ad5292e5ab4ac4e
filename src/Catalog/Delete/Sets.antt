-- ===== src/Catalog/Delete/Sets.antt =====
-- The sets of ids that a deletion collects, and what is left of the lists that they filter.
use tunnel_board.Prelude.{
  ℕ, ◌≡◌, ◌≢◌, refl, Bool, true, false, not, ◌&&◌, ◌⊎◌, inl, inr, List, [], ◌∷◌, map, ◌==◌, nat_eq,
  contains, contains-append, has_duplicate, filter, All, All-map, Bool-cases, arith,
}
use tunnel_board.Result.{ok}
use tunnel_board.Model.{Folder, Forward}
use tunnel_board.Model.Validate.{top_folders, forward_by_id}
use tunnel_board.Catalog.Delete.{expand_folders, expand_forwards, remaining_refs}

-- the ids of the folders that lie in another
abbrev pub sub_folders : List Folder → List ℕ
sub_folders fs = map (λ f. f.id) (filter (λ f. not (f.parent_id == 0)) fs)

module _ (cascade : Bool) where
  -- What was in the set stays in it.
  pub expand_folders-grows :
      (fs : List Folder) (deleted R : List ℕ) (a : ℕ)
      → expand_folders cascade fs deleted ≡ ok R
      → contains a deleted ≡ true
      → contains a R ≡ true
  unfolding expand_folders
  expand_folders-grows [] deleted R a h m = ground arith
  expand_folders-grows (f ∷ fs) deleted R a h m =
      ground
        (arith, expand_folders-grows fs deleted R a, expand_folders-grows fs (f.id ∷ deleted) R a)

  abbrev must_join : List ℕ → Folder → Bool
  must_join deleted f =
      not (f.parent_id == 0) && contains f.parent_id deleted && not (contains f.id deleted)

  expand_folders-cons :
      (f : Folder) (fs : List Folder) (deleted R : List ℕ)
      → expand_folders cascade (f ∷ fs) deleted ≡ ok R
      → ((must_join deleted f ≡ true) × (expand_folders cascade fs (f.id ∷ deleted) ≡ ok R))
        ⊎ ((must_join deleted f ≡ false) × (expand_folders cascade fs deleted ≡ ok R))
  unfolding expand_folders
  expand_folders-cons f fs deleted R h = ground arith

  -- A subfolder of a folder in the set joins it.
  pub expand_folders-closed :
      (fs : List Folder) (deleted R : List ℕ)
      → expand_folders cascade fs deleted ≡ ok R
      → All (λ f. f.parent_id ≢ 0 → contains f.parent_id deleted ≡ true → contains f.id R ≡ true) fs
  expand_folders-closed [] deleted R h = tt
  expand_folders-closed (f ∷ fs) deleted R h = elim (expand_folders-cons f fs deleted R h) [
    | inl (t, rest) ↦ (
      λ _ _. expand_folders-grows fs (f.id ∷ deleted) R f.id rest (ground arith),
      All-map _ _ fs (λ g k ne m. k ne (ground arith))
          (expand_folders-closed fs (f.id ∷ deleted) R rest),
    )
    | inr (t, rest) ↦ (
      λ ne m. expand_folders-grows fs deleted R f.id rest (ground arith),
      expand_folders-closed fs deleted R rest,
    )
  ]

  -- Nothing but subfolders joins it, and only if the caller allowed it.
  pub expand_folders-only :
      (fs : List Folder) (deleted R : List ℕ) (a : ℕ)
      → expand_folders cascade fs deleted ≡ ok R
      → contains a R ≡ true
      → (contains a deleted ≡ true) ⊎ ((cascade ≡ true) × (contains a (sub_folders fs) ≡ true))
  unfolding expand_folders
  expand_folders-only [] deleted R a h m = ground arith
  expand_folders-only (f ∷ fs) deleted R a h m =
      ground
        (arith, expand_folders-only fs deleted R a, expand_folders-only fs (f.id ∷ deleted) R a)

  pub expand_forwards-grows :
      (folders : List ℕ) (fws : List Forward) (deleted R : List ℕ) (a : ℕ)
      → expand_forwards cascade folders fws deleted ≡ ok R
      → contains a deleted ≡ true
      → contains a R ≡ true
  unfolding expand_forwards
  expand_forwards-grows folders [] deleted R a h m = ground arith
  expand_forwards-grows folders (fw ∷ fws) deleted R a h m = ground (
    arith,
    expand_forwards-grows folders fws deleted R a,
    expand_forwards-grows folders fws (fw.id ∷ deleted) R a,
  )

  abbrev must_go : List ℕ → List ℕ → Forward → Bool
  must_go folders deleted fw = contains fw.folder_id folders && not (contains fw.id deleted)

  expand_forwards-cons :
      (folders : List ℕ) (fw : Forward) (fws : List Forward) (deleted R : List ℕ)
      → expand_forwards cascade folders (fw ∷ fws) deleted ≡ ok R
      → ((must_go folders deleted fw ≡ true)
          × (expand_forwards cascade folders fws (fw.id ∷ deleted) ≡ ok R))
        ⊎ ((must_go folders deleted fw ≡ false)
            × (expand_forwards cascade folders fws deleted ≡ ok R))
  unfolding expand_forwards
  expand_forwards-cons folders fw fws deleted R h = ground arith

  -- Every forward in a folder of the set is in the set of forwards.
  pub expand_forwards-closed :
      (folders : List ℕ) (fws : List Forward) (deleted R : List ℕ)
      → expand_forwards cascade folders fws deleted ≡ ok R
      → All (λ fw. contains fw.folder_id folders ≡ true → contains fw.id R ≡ true) fws
  expand_forwards-closed folders [] deleted R h = tt
  expand_forwards-closed folders (fw ∷ fws) deleted R h =
      elim (expand_forwards-cons folders fw fws deleted R h) [
        | inl (t, rest) ↦ (
          λ _. expand_forwards-grows folders fws (fw.id ∷ deleted) R fw.id rest (ground arith),
          expand_forwards-closed folders fws (fw.id ∷ deleted) R rest,
        )
        | inr (t, rest) ↦ (
          λ m. expand_forwards-grows folders fws deleted R fw.id rest (ground arith),
          expand_forwards-closed folders fws deleted R rest,
        )
      ]

  -- Nothing but forwards of those folders joins it, and only if the caller allowed it.
  pub expand_forwards-only :
      (folders : List ℕ) (fws : List Forward) (deleted R : List ℕ) (a : ℕ)
      → expand_forwards cascade folders fws deleted ≡ ok R
      → contains a R ≡ true
      → (contains a deleted ≡ true)
        ⊎ ((cascade ≡ true)
            × (contains a (map (λ fw. fw.id) (filter (λ fw. contains fw.folder_id folders) fws))
                ≡ true))
  unfolding expand_forwards
  expand_forwards-only folders [] deleted R a h m = ground arith
  expand_forwards-only folders (fw ∷ fws) deleted R a h m = ground (
    arith,
    expand_forwards-only folders fws deleted R a,
    expand_forwards-only folders fws (fw.id ∷ deleted) R a,
  )

-- Filters by a test of the key keep the keys' order and distinctness.
module _ {A : Type 0} (id_of : A → ℕ) (p : A → Bool) where
  contains-map-filter :
      (a : ℕ) (xs : List A)
      → contains a (map id_of (filter p xs)) ≡ true
      → contains a (map id_of xs) ≡ true
  contains-map-filter a [] h = h
  contains-map-filter a (x ∷ xs) h = ground (arith, contains-map-filter a xs)

  pub has_duplicate-map-filter :
      (xs : List A)
      → has_duplicate (map id_of xs) ≡ false
      → has_duplicate (map id_of (filter p xs)) ≡ false
  has_duplicate-map-filter [] h = h
  has_duplicate-map-filter (x ∷ xs) h =
      ground (arith, has_duplicate-map-filter xs, contains-map-filter (id_of x) xs)

module _ {A : Type 0} (id_of : A → ℕ) (deleted : List ℕ) where
  -- An id that is not deleted is still there.
  pub contains-map-keep :
      (a : ℕ) (xs : List A)
      → contains a deleted ≡ false
      → contains a (map id_of xs) ≡ true
      → contains a (map id_of (filter (λ x. not (contains (id_of x) deleted)) xs)) ≡ true
  contains-map-keep a [] n h = h
  contains-map-keep a (x ∷ xs) n h = ground (arith, contains-map-keep a xs n)

-- A top-level folder that is not deleted is still a top-level folder.
pub contains-top_folders-keep :
    (deleted : List ℕ) (a : ℕ) (fs : List Folder)
    → contains a deleted ≡ false
    → contains a (top_folders fs) ≡ true
    → contains a (top_folders (filter (λ f. not (contains f.id deleted)) fs)) ≡ true
contains-top_folders-keep deleted a [] n h = h
contains-top_folders-keep deleted a (f ∷ fs) n h =
    ground (arith, contains-top_folders-keep deleted a fs n)

-- With distinct ids no folder is both at the top and in another.
pub top_not_sub :
    (a : ℕ) (fs : List Folder)
    → has_duplicate (map (λ f. f.id) fs) ≡ false
    → contains a (top_folders fs) ≡ true
    → contains a (sub_folders fs) ≡ false
top_not_sub a [] d h = refl
top_not_sub a (f ∷ fs) d h = ground (
  arith,
  top_not_sub a fs,
  contains-map-filter (λ f. f.id) (λ f. f.parent_id == 0) a fs,
  contains-map-filter (λ f. f.id) (λ f. not (f.parent_id == 0)) a fs,
)

-- A forward that is not deleted is found as before.
pub forward_by_id-keep :
    (deleted : List ℕ) (id : ℕ) (fws : List Forward)
    → contains id deleted ≡ false
    → forward_by_id (filter (λ fw. not (contains fw.id deleted)) fws) id ≡ forward_by_id fws id
unfolding forward_by_id
forward_by_id-keep deleted id [] n = refl
forward_by_id-keep deleted id (fw ∷ fws) n = elim (Bool-cases (contains fw.id deleted)) [
  | inl q ↦ rw q (ground (arith, forward_by_id-keep deleted id fws n))
  | inr q ↦ rw q (ground (arith, forward_by_id-keep deleted id fws n))
]

abbrev pub HopsRemain : List ℕ → List ℕ → Forward → Type 0
HopsRemain deleted refs fw =
    contains fw.id deleted ≡ false
    → (h : ℕ) → contains h fw.chain_host_ids ≡ true
    → contains h refs ≡ true

-- Every hop of a forward that is left is a reference that remains.
pub remaining_refs-hops :
    (deleted : List ℕ) (fws : List Forward)
    → All (HopsRemain deleted (remaining_refs deleted fws)) fws
unfolding remaining_refs
remaining_refs-hops deleted [] = tt
remaining_refs-hops deleted (fw ∷ fws) = (
  λ kept h m. ground (arith, contains-append h fw.chain_host_ids (remaining_refs deleted fws)),
  All-map _ _ fws
      (λ g k kept h m.
        ground
          (arith, k kept h m, contains-append h fw.chain_host_ids (remaining_refs deleted fws)))
      (remaining_refs-hops deleted fws),
)
