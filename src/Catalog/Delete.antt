-- ===== src/Catalog/Delete.antt =====
-- `DeleteSelection`
pub mod Sets
pub mod Valid
pub mod Exact
use tunnel_board.Prelude.{
  ℕ, Bool, not, ◌==◌, ◌&&◌, ◌||◌, nat_eq, List, [], ◌∷◌, ◌++◌, none, some, contains, filter,
  if◌then◌else◌,
}
use tunnel_board.Result.{
  Result, ok, err, ◌>>=◌, ◌>>◌, guard, not_found, folder, host_in_use, folder_not_empty,
}
use tunnel_board.Model.{Folder, Forward, SshHost, WebRoute, VaultData}
use tunnel_board.Model.Validate.{check_each}
use tunnel_board.VaultStore.{VaultStore}
use tunnel_board.Catalog.{commit, run}
use tunnel_board.Catalog.Lists.{index_folder}

pub record Selection : Type 0 where
  pub folder_ids : List ℕ
  pub ssh_host_ids : List ℕ
  pub forward_ids : List ℕ
  pub cascade_folders : Bool

-- the first loop: each selected folder exists
unfoldable pub check_selected : List Folder → ℕ → Result (Unit {0})
check_selected folders id = elim (index_folder folders id) [
  | none ↦ err (not_found folder id)
  | some i ↦ ok tt
]

-- Subfolders of a deleted folder join the set `deleted`, or stop the deletion.
unfoldable pub expand_folders : Bool → List Folder → List ℕ → Result (List ℕ)
expand_folders cascade [] deleted = ok deleted
expand_folders cascade (f ∷ fs) deleted =
    let joined = expand_folders cascade fs (f.id ∷ deleted) in
    let skipped = expand_folders cascade fs deleted in
    if not (f.parent_id == 0) && contains f.parent_id deleted && not (contains f.id deleted)
    then (if cascade then joined else err (folder_not_empty f.parent_id))
    else skipped

-- Forwards of a deleted folder join the set `deleted`, or stop the deletion.
unfoldable pub expand_forwards : Bool → List ℕ → List Forward → List ℕ → Result (List ℕ)
expand_forwards cascade folders [] deleted = ok deleted
expand_forwards cascade folders (fw ∷ fws) deleted =
    let joined = expand_forwards cascade folders fws (fw.id ∷ deleted) in
    let skipped = expand_forwards cascade folders fws deleted in
    if contains fw.folder_id folders && not (contains fw.id deleted)
    then (if cascade then joined else err (folder_not_empty fw.folder_id))
    else skipped

-- the map `remainingRefs`
unfoldable pub remaining_refs : List ℕ → List Forward → List ℕ
remaining_refs deleted [] = []
remaining_refs deleted (fw ∷ fws) =
    let rest = remaining_refs deleted fws in
    if contains fw.id deleted then rest else fw.chain_host_ids ++ rest

unfoldable pub check_unused : List ℕ → ℕ → Result (Unit {0})
check_unused refs hid = guard (not (contains hid refs)) (host_in_use hid)

abbrev pub filter_folders : List Folder → List ℕ → List Folder
filter_folders items deleted = filter (λ f. not (contains f.id deleted)) items

abbrev pub filter_forwards : List Forward → List ℕ → List Forward
filter_forwards items deleted = filter (λ fw. not (contains fw.id deleted)) items

abbrev pub filter_ssh_hosts : List SshHost → List ℕ → List SshHost
filter_ssh_hosts items ids = filter (λ h. not (contains h.id ids)) items

abbrev pub filter_web_routes : List WebRoute → List ℕ → List WebRoute
filter_web_routes items deleted = filter (λ r. not (contains r.forward_id deleted)) items

-- what is left when the sets to delete are known
unfoldable pub without : VaultData → List ℕ → List ℕ → List ℕ → VaultData
without d folders forwards hosts = record d {
  folders = filter_folders d.folders folders;
  forwards = filter_forwards d.forwards forwards;
  ssh_hosts = filter_ssh_hosts d.ssh_hosts hosts;
  web_routes = filter_web_routes d.web_routes forwards;
}

-- the closure of `DeleteSelection`, up to its filters: the folders and forwards to delete
unfoldable pub plan_deletion : Selection → VaultData → Result (List ℕ × List ℕ)
plan_deletion sel d = do
  check_each (check_selected d.folders) sel.folder_ids
  folders ← expand_folders sel.cascade_folders d.folders sel.folder_ids
  forwards ← expand_forwards sel.cascade_folders folders d.forwards sel.forward_ids
  check_each (check_unused (remaining_refs forwards d.forwards)) sel.ssh_host_ids
  ok (folders, forwards)

unfoldable pub delete_selection_in : Selection → VaultData → Result (Unit {0} × VaultData)
unfolding plan_deletion without commit
delete_selection_in sel d = do
  plan ← plan_deletion sel d
  commit tt (without d plan.0 plan.1 sel.ssh_host_ids)

unfoldable pub delete_selection :
    (v : VaultStore) → Selection → v.State → v.State × Result (Unit {0})
unfolding delete_selection_in run
delete_selection v sel s = run v (delete_selection_in sel) s
