-- ===== src/Catalog/Delete/Valid.antt =====
-- A planned deletion leaves a well-formed vault, so that the `Validate` at the end of
-- `DeleteSelection` never refuses it.
use native.Mathlib.Decide.{ℕ_discrete}
use tunnel_board.Prelude.{
  ◌∙◌, ℕ, ◌≡◌, ◌≢◌, ◌↔◌, refl, Bool, true, false, not, ◌⊎◌, inl, inr, List, [], ◌∷◌, map, Mem,
  Nodup, nat_eq, contains, contains_iff, has_duplicate_iff, filter, All, All-map, All-and,
  All-filter_kept, All-contains, Bool-cases, arith,
}
use tunnel_board.Result.{ok, >>-eq-ok, >>=-eq-ok}
use tunnel_board.Model.{Folder, Forward, WebRoute, VaultData}
use tunnel_board.Model.Validate.{top_folders, check_each}
use tunnel_board.Model.WellFormed.{
  IsForwardOk, IsRouteOk, IsWellFormed, check_each_iff, validate_iff,
}
use tunnel_board.Catalog.{commit}
use tunnel_board.Catalog.Delete.{
  Selection, check_selected, expand_folders, expand_forwards, remaining_refs, check_unused, without,
  plan_deletion, delete_selection_in,
}
use tunnel_board.Catalog.Delete.Sets.{
  expand_folders-closed, expand_folders-only, expand_forwards-closed, has_duplicate-map-filter,
  contains-map-keep, contains-top_folders-keep, top_not_sub, forward_by_id-keep,
  remaining_refs-hops, HopsRemain,
}

check_unused_iff :
    (refs : List ℕ) (h : ℕ) → (check_unused refs h ≡ ok tt) ↔ (contains h refs ≡ false)
unfolding check_unused
check_unused_iff refs h = ground arith

pub record IsPlan (sel : Selection) (d : VaultData) (R F : List ℕ) : Type 0 where
  pub folders : expand_folders sel.cascade_folders d.folders sel.folder_ids ≡ ok R
  pub forwards : expand_forwards sel.cascade_folders R d.forwards sel.forward_ids ≡ ok F
  pub unused : All (λ h. contains h (remaining_refs F d.forwards) ≡ false) sel.ssh_host_ids

pub plan_deletion-IsPlan :
    (sel : Selection) (d : VaultData) (R F : List ℕ)
    → plan_deletion sel d ≡ ok (R, F)
    → IsPlan sel d R F
unfolding plan_deletion
plan_deletion-IsPlan sel d R F h =
    let (_, a) = >>-eq-ok (check_each (check_selected d.folders) sel.folder_ids) _ h in
    let (R', folders, b) =
      >>=-eq-ok (expand_folders sel.cascade_folders d.folders sel.folder_ids) _ a in
    let (F', forwards, c) =
      >>=-eq-ok (expand_forwards sel.cascade_folders R' d.forwards sel.forward_ids) _ b in
    let (unused, e) =
      >>-eq-ok (check_each (check_unused (remaining_refs F' d.forwards)) sel.ssh_host_ids) _ c in
    let sameR : R' ≡ R = ground arith in
    let sameF : F' ≡ F = ground arith in
    record {
      folders = rw (sameR) at folders;
      forwards = rw (sameR, sameF) at forwards;
      unused = rw (← sameF) (
          (check_each_iff _ _ (check_unused_iff (remaining_refs F' d.forwards)) sel.ssh_host_ids).0
            unused);
    }

not_in :
    (ids : List ℕ) (refs : List ℕ) (a : ℕ)
    → All (λ h. contains h refs ≡ false) ids
    → contains a refs ≡ true
    → contains a ids ≡ false
not_in [] refs a h m = refl
not_in (x ∷ xs) refs a h m = ground (arith, not_in xs refs a h.1 m)

distinct :
    {A : Type 0} (id_of : A → ℕ) (p : A → Bool) (xs : List A)
    → Nodup (map id_of xs)
    → Nodup (map id_of (filter p xs))
distinct id_of p xs n =
    (has_duplicate_iff _).0 (has_duplicate-map-filter id_of p xs ((has_duplicate_iff _).1 n))

module _ (sel : Selection) (d : VaultData) (R F : List ℕ) (w : IsWellFormed d)
    (plan : IsPlan sel d R F) where
  left : VaultData
  left = without d R F sel.ssh_host_ids

  -- the folder that holds a subfolder that is left is left
  parent_left :
      (f : Folder)
      → f.parent_id ≢ 0
      → Mem f.parent_id (top_folders d.folders)
      → (f.parent_id ≢ 0 → contains f.parent_id sel.folder_ids ≡ true → contains f.id R ≡ true)
      → not (contains f.id R) ≡ true
      → contains f.parent_id R ≡ false
  parent_left f ne top closed kept = elim (Bool-cases (contains f.parent_id R)) [
    | inr q ↦ q
    | inl q ↦ ground (
      arith,
      closed ne,
      expand_folders-only sel.cascade_folders d.folders sel.folder_ids R f.parent_id plan.folders q,
      top_not_sub f.parent_id d.folders ((has_duplicate_iff _).1 w.folders_distinct)
          ((contains_iff _ _).1 top),
    )
  ]

  abbrev FolderOk : Folder → Type 0
  FolderOk f = (f.parent_id ≡ 0) ⊎ Mem f.parent_id (top_folders left.folders)

  folder_left :
      (f : Folder)
      → (f.parent_id ≡ 0) ⊎ Mem f.parent_id (top_folders d.folders)
      → (f.parent_id ≢ 0 → contains f.parent_id sel.folder_ids ≡ true → contains f.id R ≡ true)
      → not (contains f.id R) ≡ true
      → FolderOk f
  unfolding left without
  folder_left f ok_before closed kept = elim (ℕ_discrete f.parent_id 0) [
    | yes zero ↦ inl zero
    | no ne ↦ elim ok_before [
      | inl zero ↦ inl zero
      | inr top ↦ inr (
          (contains_iff _ _).0 (
            contains-top_folders-keep R f.parent_id d.folders (parent_left f ne top closed kept)
              ((contains_iff _ _).1 top)))
    ]
  ]

  folders_left : All FolderOk left.folders
  unfolding left without
  folders_left =
      All-map _ FolderOk _ (λ f k. folder_left f k.0.0 k.0.1 k.1)
        (All-filter_kept _ (λ f. not (contains f.id R)) d.folders
          (All-and _ _ d.folders w.two_levels
            (expand_folders-closed sel.cascade_folders d.folders sel.folder_ids R plan.folders)))

  forward_left :
      (fw : Forward)
      → IsForwardOk d fw
      → (contains fw.folder_id R ≡ true → contains fw.id F ≡ true)
      → HopsRemain F (remaining_refs F d.forwards) fw
      → not (contains fw.id F) ≡ true
      → IsForwardOk left fw
  unfolding left without
  forward_left fw k closed hops kept = record {
    mode_known = k.mode_known;
    in_folder = (contains_iff _ _).0 (
        contains-map-keep (λ f. f.id) R fw.folder_id d.folders (ground arith)
          ((contains_iff _ _).1 k.in_folder));
    has_hop = k.has_hop;
    hops_exist =
        All-map _ _ fw.chain_host_ids
          (λ h m. (contains_iff _ _).0 (
            contains-map-keep (λ x. x.id) sel.ssh_host_ids h d.ssh_hosts
              (not_in sel.ssh_host_ids (remaining_refs F d.forwards) h plan.unused
                (hops (ground arith) h m.1))
              ((contains_iff _ _).1 m.0)))
          (All-and _ _ fw.chain_host_ids k.hops_exist (All-contains [] fw.chain_host_ids));
  }

  forwards_left : All (IsForwardOk left) left.forwards
  unfolding left without
  forwards_left =
      All-map _ (IsForwardOk left) _ (λ fw k. forward_left fw k.0.0 k.0.1.0 k.0.1.1 k.1)
        (All-filter_kept _ (λ fw. not (contains fw.id F)) d.forwards
          (All-and _ _ d.forwards w.forwards_ok (
            All-and _ _ d.forwards
              (expand_forwards-closed sel.cascade_folders R d.forwards sel.forward_ids F
                plan.forwards)
              (remaining_refs-hops F d.forwards))))

  route_left :
      (r : WebRoute) → IsRouteOk d r → not (contains r.forward_id F) ≡ true → IsRouteOk left r
  unfolding left without
  route_left r k kept = record {
    target = k.target;
    found = forward_by_id-keep F r.forward_id d.forwards (ground arith) ∙ k.found;
    local_target = k.local_target;
    sni_given = k.sni_given;
    host_source = k.host_source;
  }

  routes_left : All (IsRouteOk left) left.web_routes
  unfolding left without
  routes_left =
      All-map _ (IsRouteOk left) _ (λ r k. route_left r k.0 k.1)
        (All-filter_kept _ (λ r. not (contains r.forward_id F)) d.web_routes w.routes_ok)

  left-IsWellFormed : IsWellFormed left
  unfolding left without
  left-IsWellFormed = record {
    folders_distinct = distinct _ _ d.folders w.folders_distinct;
    hosts_distinct = distinct _ _ d.ssh_hosts w.hosts_distinct;
    forwards_distinct = distinct _ _ d.forwards w.forwards_distinct;
    routes_distinct = distinct _ _ d.web_routes w.routes_distinct;
    two_levels = folders_left;
    forwards_ok = forwards_left;
    routes_ok = routes_left;
    endpoints_distinct = w.endpoints_distinct;
  }

-- From a well-formed vault, a deletion that passes the checks of its plan is always written, and
-- what is left is well-formed: the `Validate` at its end never refuses it.
pub delete_selection_in-commits :
    (sel : Selection) (d : VaultData) (R F : List ℕ)
    → IsWellFormed d
    → plan_deletion sel d ≡ ok (R, F)
    → (delete_selection_in sel d ≡ ok (tt, without d R F sel.ssh_host_ids))
      × IsWellFormed (without d R F sel.ssh_host_ids)
unfolding delete_selection_in commit left
delete_selection_in-commits sel d R F w h =
    let good = left-IsWellFormed sel d R F w (plan_deletion-IsPlan sel d R F h) in
    (rw h (rw ((validate_iff _).1 good)), good)
