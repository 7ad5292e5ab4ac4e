-- ===== src/Catalog/Forwards/Moves.antt =====
-- What a batch of moves does to the list of forwards: `MoveForwardsWithData` of
-- internal/biz/catalog.go, as one map over the forwards.
use mathlib.Core.List.{append-nil, append_assoc}
use tunnel_board.Prelude.{
  ℕ, zero, suc, ◌≡◌, refl, ap, sym, ◌∙◌, Bool, true, false, not, inl, inr, List, [], ◌∷◌, ◌++◌, map,
  none, some, ◌==◌, nat_eq, contains, filter, has_duplicate, All, if◌then◌else◌, Bool-cases, arith,
}
use tunnel_board.Result.{ok}
use tunnel_board.Model.{Forward}
use tunnel_board.Catalog.Lists.{index_by, index_forward, get_elem?, set}
use tunnel_board.Catalog.Forwards.{Survey, note, survey, relocate, relocate_all}

-- a forward after a move of these ids
abbrev pub moved : List ℕ → ℕ → Forward → Forward
moved ids target fw = if contains fw.id ids then record fw { folder_id = target } else fw

abbrev pub ids_of : List Forward → List ℕ
ids_of fws = map (λ fw. fw.id) fws

pub ids_of-moved :
    (ids : List ℕ) (target : ℕ) (fws : List Forward)
    → ids_of (map (moved ids target) fws) ≡ ids_of fws
ids_of-moved ids target [] = refl
ids_of-moved ids target (fw ∷ fws) = ground (arith, ids_of-moved ids target fws)

-- Positions depend on the ids alone.
index_forward-ids :
    (fws gws : List Forward) (id : ℕ)
    → ids_of fws ≡ ids_of gws
    → index_forward fws id ≡ index_forward gws id
unfolding index_by
index_forward-ids [] [] id h = refl
index_forward-ids [] (g ∷ gws) id h = cc
index_forward-ids (f ∷ fws) [] id h = cc
index_forward-ids (f ∷ fws) (g ∷ gws) id h = ground (arith, index_forward-ids fws gws id)

not_there :
    (id target : ℕ) (fws : List Forward)
    → contains id (ids_of fws) ≡ false
    → map (moved (id ∷ []) target) fws ≡ fws
not_there id target [] h = refl
not_there id target (fw ∷ fws) h = ground (arith, not_there id target fws)

-- Writing the folder at a forward's position is a move of its id, where ids are distinct.
relocate-moved :
    (target : ℕ) (fws : List Forward) (id i : ℕ)
    → index_forward fws id ≡ some i
    → has_duplicate (ids_of fws) ≡ false
    → relocate target fws i ≡ map (moved (id ∷ []) target) fws
unfolding relocate index_by get_elem? set
relocate-moved target [] id i h d = cc
relocate-moved target (fw ∷ fws) id zero h d = ground (arith, not_there id target fws)
relocate-moved target (fw ∷ fws) id (suc i) h d = ground (arith, relocate-moved target fws id i)

-- The positions are those of the ids, one by one.
abbrev pub Located : List Forward → List ℕ → List ℕ → Type 0
Located fws [] [] = Unit
Located fws (id ∷ ids) (i ∷ is) = (index_forward fws id ≡ some i) × Located fws ids is
Located fws _ _ = ⊥

Located-ids :
    (fws gws : List Forward) (ids is : List ℕ)
    → ids_of fws ≡ ids_of gws
    → Located fws ids is
    → Located gws ids is
Located-ids fws gws [] [] h l = l
Located-ids fws gws [] (i ∷ is) h l = l
Located-ids fws gws (id ∷ ids) [] h l = l
Located-ids fws gws (id ∷ ids) (i ∷ is) h l =
    (sym (index_forward-ids fws gws id h) ∙ l.0, Located-ids fws gws ids is h l.1)

Located-snoc :
    (fws : List Forward) (ids is : List ℕ) (id i : ℕ)
    → Located fws ids is
    → index_forward fws id ≡ some i
    → Located fws (ids ++ id ∷ []) (is ++ i ∷ [])
Located-snoc fws [] [] id i l h = (h, tt)
Located-snoc fws [] (j ∷ is) id i l h = absurd l
Located-snoc fws (a ∷ ids) [] id i l h = absurd l
Located-snoc fws (a ∷ ids) (j ∷ is) id i l h = (l.0, Located-snoc fws ids is id i l.1 h)

moved-moved :
    (id target : ℕ) (ids : List ℕ) (fws : List Forward)
    → map (moved ids target) (map (moved (id ∷ []) target) fws) ≡ map (moved (id ∷ ids) target) fws
moved-moved id target ids [] = refl
moved-moved id target ids (fw ∷ fws) = ground (arith, moved-moved id target ids fws)

moved_none : (target : ℕ) (fws : List Forward) → map (moved [] target) fws ≡ fws
moved_none target [] = refl
moved_none target (fw ∷ fws) = ap (◌∷◌ fw) (moved_none target fws)

-- The second loop moves exactly the forwards whose positions it is given.
pub relocate_all-moved :
    (target : ℕ) (ids is : List ℕ) (fws : List Forward)
    → Located fws ids is
    → has_duplicate (ids_of fws) ≡ false
    → relocate_all target is fws ≡ map (moved ids target) fws
unfolding relocate_all
relocate_all-moved target [] [] fws l d = sym (moved_none target fws)
relocate_all-moved target [] (i ∷ is) fws l d = absurd l
relocate_all-moved target (id ∷ ids) [] fws l d = absurd l
relocate_all-moved target (id ∷ ids) (i ∷ is) fws l d =
    let gws = map (moved (id ∷ []) target) fws in
    let same : ids_of fws ≡ ids_of gws = sym (ids_of-moved (id ∷ []) target fws) in
    rw (relocate-moved target fws id i l.0 d) (
      relocate_all-moved target ids is gws (Located-ids fws gws ids is same l.1) (rw (← same) d)
      ∙ moved-moved id target ids fws)

-- whether the forward of an id lies in the folder already
unfoldable pub is_at : List Forward → ℕ → ℕ → Bool
is_at fws target id = elim (index_forward fws id) [
  | none ↦ false
  | some i ↦ elim (get_elem? fws i) [ none ↦ false | some fw ↦ fw.folder_id == target ]
]

found_at :
    (fws : List Forward) (id : ℕ)
    → contains id (ids_of fws) ≡ true
    → (i : ℕ) × (index_forward fws id ≡ some i) × ((fw : Forward) × (get_elem? fws i ≡ some fw))
unfolding index_by get_elem?
found_at [] id h = cc
found_at (fw ∷ fws) id h = elim (Bool-cases (fw.id == id)) [
  | inl here ↦ (0, rw here, (fw, refl))
  | inr other ↦
      let (i, e, (g, k)) = found_at fws id (ground arith) in (suc i, rw (other, e), (g, k))
]

-- The first loop finds every id, and sorts the ids by whether there is anything to do.
pub record Surveyed (fws : List Forward) (target : ℕ) (ids : List ℕ) (v w : Survey) : Type 0 where
  pub unchanged : w.report.unchanged_ids ≡ v.report.unchanged_ids ++ filter (is_at fws target) ids
  pub changed :
      w.report.changed_ids ≡ v.report.changed_ids ++ filter (λ id. not (is_at fws target id)) ids
  pub located :
      Located fws v.report.changed_ids v.indexes → Located fws w.report.changed_ids w.indexes

note-Surveyed :
    (fws : List Forward) (target : ℕ) (id i : ℕ) (fw : Forward) (ids : List ℕ) (v w : Survey)
    → index_forward fws id ≡ some i
    → get_elem? fws i ≡ some fw
    → Surveyed fws target ids (note target id i fw v) w
    → Surveyed fws target (id ∷ ids) v w
unfolding note is_at
note-Surveyed fws target id i fw ids v w e k s = record {
  unchanged = ground (
    arith,
    s.unchanged,
    append_assoc v.report.unchanged_ids (id ∷ []) (filter (is_at fws target) ids),
  );
  changed = ground (
    arith,
    s.changed,
    append_assoc v.report.changed_ids (id ∷ []) (filter (λ j. not (is_at fws target j)) ids),
  );
  located = λ l. s.located (elim (Bool-cases (fw.folder_id == target)) [
    | inl here ↦ rw here l
    | inr away ↦ rw away (Located-snoc fws v.report.changed_ids v.indexes id i l e)
  ]);
}

pub survey-Surveyed :
    (fws : List Forward) (target : ℕ) (ids : List ℕ) (v : Survey)
    → All (λ id. contains id (ids_of fws) ≡ true) ids
    → (w : Survey) × (survey fws target ids v ≡ ok w) × Surveyed fws target ids v w
unfolding survey
survey-Surveyed fws target [] v h = (
  v,
  refl,
  record { unchanged = sym (append-nil _); changed = sym (append-nil _); located = λ l. l },
)
survey-Surveyed fws target (id ∷ ids) v h =
    let (i, e, (fw, k)) = found_at fws id h.0 in
    let v' = note target id i fw v in
    let (w, done, s) = survey-Surveyed fws target ids v' h.1 in
    (w, ground (arith, done), note-Surveyed fws target id i fw ids v w e k s)
