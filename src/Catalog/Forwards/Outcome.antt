-- ===== src/Catalog/Forwards/Outcome.antt =====
-- `MoveForwardsWithData` (internal/biz/catalog.go) on a well-formed vault: all of its answers.
use tunnel_board.Prelude.{
  ℕ, suc, ◌≡◌, refl, ap, ◌∙◌, true, not, inl, inr, List, [], ◌∷◌, map, Mem, Option, none, some,
  ◌==◌, nat_eq, contains, contains_iff, filter, has_duplicate_iff, All, All-map, All-of_map,
  Bool-cases, Option-cases, arith,
}
use tunnel_board.Result.{Result, ok, err, no_change}
use tunnel_board.Model.{Folder, Forward, WebRoute, VaultData}
use tunnel_board.Model.Validate.{folder_ids, forward_ids, forward_by_id}
use tunnel_board.Model.WellFormed.{IsForwardOk, IsRouteOk, IsWellFormed, validate_iff}
use tunnel_board.Catalog.{commit}
use tunnel_board.Catalog.Lists.{index_by, index_folder}
use tunnel_board.Catalog.Forwards.{
  MoveForwardsReport, Survey, empty_survey, is_known_folder, move_or_stop, move_forwards_in,
}
use tunnel_board.Catalog.Forwards.Moves.{
  moved, ids_of-moved, Located, relocate_all-moved, is_at, survey-Surveyed,
}

abbrev moved_in : List ℕ → ℕ → Option Forward → Option Forward
moved_in ids target none = none
moved_in ids target (some fw) = some (moved ids target fw)

moved_in-forward_by_id :
    (ids : List ℕ) (target : ℕ) (fws : List Forward) (id : ℕ)
    → forward_by_id (map (moved ids target) fws) id ≡ moved_in ids target (forward_by_id fws id)
unfolding forward_by_id
moved_in-forward_by_id ids target [] id = refl
moved_in-forward_by_id ids target (g ∷ fws) id =
    let later = moved_in-forward_by_id ids target fws id in
    elim (Option-cases (forward_by_id fws id)) [
      | inl gone ↦ ground (arith, later)
      | inr (k, e) ↦ rw (later, e) refl
    ]

forward_by_id-moved :
    (ids : List ℕ) (target : ℕ) (fws : List Forward) (id : ℕ) (fw : Forward)
    → forward_by_id fws id ≡ some fw
    → forward_by_id (map (moved ids target) fws) id ≡ some (moved ids target fw)
forward_by_id-moved ids target fws id fw h =
    moved_in-forward_by_id ids target fws id ∙ ap (moved_in ids target) h

module _ (d : VaultData) (ids : List ℕ) (target : ℕ) (w : IsWellFormed d)
    (known : Mem target (folder_ids d)) where
  abbrev after_move : VaultData
  after_move = record d { forwards = map (moved ids target) d.forwards }

  forward_moved : (fw : Forward) → IsForwardOk d fw → IsForwardOk after_move (moved ids target fw)
  forward_moved fw k = elim (Bool-cases (contains fw.id ids)) [
    | inl e ↦ rw e (record {
      mode_known = k.mode_known;
      in_folder = known;
      has_hop = k.has_hop;
      hops_exist = k.hops_exist;
    })
    | inr e ↦ rw e (record {
      mode_known = k.mode_known;
      in_folder = k.in_folder;
      has_hop = k.has_hop;
      hops_exist = k.hops_exist;
    })
  ]

  route_moved : (r : WebRoute) → IsRouteOk d r → IsRouteOk after_move r
  route_moved r k = record {
    target = moved ids target k.target;
    found = forward_by_id-moved ids target d.forwards r.forward_id k.target k.found;
    local_target = ground (arith, k.local_target);
    sni_given = k.sni_given;
    host_source = k.host_source;
  }

  pub after_move-IsWellFormed : IsWellFormed after_move
  after_move-IsWellFormed = record {
    folders_distinct = w.folders_distinct;
    hosts_distinct = w.hosts_distinct;
    forwards_distinct = rw (ids_of-moved ids target d.forwards) w.forwards_distinct;
    routes_distinct = w.routes_distinct;
    two_levels = w.two_levels;
    forwards_ok =
        All-of_map (moved ids target) _ d.forwards
          (All-map _ _ d.forwards forward_moved w.forwards_ok);
    routes_ok = All-map _ _ d.web_routes route_moved w.routes_ok;
    endpoints_distinct = w.endpoints_distinct;
  }

index_by-known :
    (fs : List Folder) (id : ℕ)
    → contains id (map (λ f. f.id) fs) ≡ true
    → (i : ℕ) × (index_folder fs id ≡ some i)
unfolding index_by
index_by-known [] id h = cc
index_by-known (f ∷ fs) id h = elim (Bool-cases (f.id == id)) [
  | inl e ↦ (0, rw e refl)
  | inr e ↦ let (i, k) = index_by-known fs id (ground arith) in (suc i, rw (e, k) refl)
]

index_folder-known :
    (d : VaultData) (target : ℕ)
    → contains target (folder_ids d) ≡ true
    → is_known_folder d target ≡ ok tt
index_folder-known d target h =
    let (i, e) = index_by-known d.folders target h in rw (is_known_folder, e) refl

-- the ids that are to change, and those that lie in the folder already
abbrev pub away : VaultData → ℕ → List ℕ → List ℕ
away d target ids = filter (λ id. not (is_at d.forwards target id)) ids

abbrev pub here : VaultData → ℕ → List ℕ → List ℕ
here d target ids = filter (is_at d.forwards target) ids

abbrev pub move_answer : VaultData → ℕ → List ℕ → List ℕ → Result (MoveForwardsReport × VaultData)
move_answer d target stay [] = err (no_change stay)
move_answer d target stay (id ∷ ids) = ok (
  record { changed_ids = id ∷ ids; unchanged_ids = stay },
  record d { forwards = map (moved (id ∷ ids) target) d.forwards },
)

answer_for :
    (d : VaultData) (target : ℕ) (v : Survey) (ids is : List ℕ)
    → IsWellFormed d
    → Mem target (folder_ids d)
    → v.report.changed_ids ≡ ids
    → Located d.forwards ids is
    → move_or_stop target d v is ≡ move_answer d target v.report.unchanged_ids ids
unfolding commit
answer_for d target v [] [] w known e l = refl
answer_for d target v [] (i ∷ is) w known e l = absurd l
answer_for d target v (id ∷ ids) [] w known e l = absurd l
answer_for d target v (id ∷ ids) (i ∷ is) w known e l =
    rw
      (
        relocate_all-moved target (id ∷ ids) (i ∷ is) d.forwards l
            ((has_duplicate_iff (forward_ids d)).1 w.forwards_distinct),
        (validate_iff _).1 (after_move-IsWellFormed d (id ∷ ids) target w known),
      )
      cc

-- In a well-formed vault, for a folder and forwards that exist: a batch answers with the ids that
-- it moved and those that lay in the folder already, each in the caller's order; it writes exactly
-- the folder of the moved ones, and `Validate` never refuses that. If none is to move, nothing is written.
pub move_forwards_in-answer :
    (d : VaultData) (target : ℕ) (ids : List ℕ)
    → IsWellFormed d
    → Mem target (folder_ids d)
    → All (λ id. contains id (forward_ids d) ≡ true) ids
    → move_forwards_in ids target d ≡ move_answer d target (here d target ids) (away d target ids)
unfolding move_forwards_in
move_forwards_in-answer d target ids w known exist =
    let (v, found, s) = survey-Surveyed d.forwards target ids empty_survey exist in
    rw (index_folder-known d target ((contains_iff _ _).1 known), found)
      (rw (answer_for d target v _ _ w known refl (s.located tt), s.changed, s.unchanged))
