-- ===== src/Catalog/Operations/Healthy.antt =====
-- Whatever is called on the catalog, the vault stays well-formed (internal/biz/catalog.go and
-- internal/biz/trust.go).
use tunnel_board.Prelude.{
  ℕ, String, Bool, true, false, if◌then◌else◌, ◌≡◌, refl, ◌∙◌, inl, inr, List, [], ◌∷◌, CaseMap,
  ◌==◌, nat_eq, text_eq, subst, trim_space,
}
use tunnel_board.Result.{Result, ok, err, name_required}
use tunnel_board.Model.{Folder, VaultData}
use tunnel_board.Model.Validate.{
  validate, validate_unique_ids, check_folder, check_forward, check_route, check_each,
}
use tunnel_board.Model.WellFormed.{IsWellFormed, validate_iff}
use tunnel_board.VaultStore.{VaultStore, stored}
use tunnel_board.Catalog.{run}
use tunnel_board.Catalog.Folders.{create_folder, create_folder_in}
use tunnel_board.Catalog.Hosts.{save_ssh_host, save_ssh_host_secure}
use tunnel_board.Catalog.Routes.{save_web_route, delete_web_route}
use tunnel_board.Catalog.Forwards.{save_forward, move_forwards, check_batch, move_checked}
use tunnel_board.Catalog.Delete.{delete_selection}
use tunnel_board.Catalog.HostKeys.{enroll_host_key, replace_host_key}
use tunnel_board.Catalog.Operations.{
  Operation, creates_folder, saves_host, saves_host_secure, saves_route, deletes_route,
  saves_forward, moves_forwards, deletes_selection, enrolls_host_key, replaces_host_key, perform,
  perform_all,
}
use tunnel_board.Catalog.Operations.Sealed.{
  Sealed, create_folder_in-Sealed, save_ssh_host_in-Sealed, save_ssh_host_secure_in-Sealed,
  save_web_route_in-Sealed, delete_web_route_in-Sealed, save_forward_in-Sealed,
  move_forwards_in-Sealed, delete_selection_in-Sealed, enroll_host_key_in-Sealed,
  replace_host_key_in-Sealed,
}

stored-validate : (d : VaultData) → validate (stored d) ≡ validate d
unfolding stored validate validate_unique_ids check_folder check_forward check_route check_each
stored-validate d = refl

-- the vault can be read, its data is well-formed, and of a version that the program reads
pub record IsHealthy (v : VaultStore) (s : v.State) : Type 0 where
  pub content : VaultData
  pub loads : v.load s ≡ ok content
  pub is_well_formed : IsWellFormed content

-- Whatever a mutation answers, and whether or not the write fails, the vault stays healthy.
run-IsHealthy :
    {A : Type 0} (v : VaultStore) (m : VaultData → Result (A × VaultData)) (s : v.State)
    → ((d : VaultData) → Sealed d (m d))
    → IsHealthy v s
    → IsHealthy v (run v m s).0
unfolding run
run-IsHealthy {A} v m s sealed h = go (m h.content) refl
  where
    same : v.State → Type 0
    same s' = IsHealthy v s'

    kept : (s' : v.State) → v.load s' ≡ ok h.content → IsHealthy v s'
    kept s' e = record { content = h.content; loads = e; is_well_formed = h.is_well_formed }

    go : (r : Result (A × VaultData)) → m h.content ≡ r → IsHealthy v (v.update A m s).0
    go (err e) k = kept _ (rw (v.update-rejected A m s h.content e h.loads k) h.loads)
    go (ok (a, d')) k =
        let (valid, version) = subst (Sealed h.content) k (sealed h.content) in
        let new : (s' : v.State) → v.load s' ≡ ok (stored d') → IsHealthy v s' = λ s' e. record {
          content = stored d';
          loads = e;
          is_well_formed = (validate_iff (stored d')).0 (stored-validate d' ∙ valid);
        } in
        elim (v.update-written A m s h.content d' a h.loads k
          (rw version (v.load-version s h.content h.loads))) [
            | inl (answer, e) ↦ new _ e
            | inr (answer, inl e) ↦ kept _ e
            | inr (answer, inr e) ↦ new _ e
          ]

move_checked-IsHealthy :
    (v : VaultStore) (checked : Result (Unit {0})) (ids : List ℕ) (target : ℕ) (s : v.State)
    → IsHealthy v s
    → IsHealthy v (move_checked checked v ids target s).0
move_checked-IsHealthy v (err e) ids target s h = h
move_checked-IsHealthy v (ok _) ids target s h =
    run-IsHealthy v _ s (move_forwards_in-Sealed ids target) h

create_folder-IsHealthy :
    (v : VaultStore) (name : String) (parent_id : ℕ) (s : v.State)
    → IsHealthy v s
    → IsHealthy v (create_folder v name parent_id s).0
unfolding create_folder
create_folder-IsHealthy v name parent_id s h = go (trim_space name == "")
  where
    created : v.State × Result Folder
    created = run v (create_folder_in (trim_space name) parent_id) s

    go : (b : Bool) → IsHealthy v (if b then (s, err name_required) else created).0
    go true = h
    go false = run-IsHealthy v _ s (create_folder_in-Sealed (trim_space name) parent_id) h

perform-IsHealthy :
    ⦃m : CaseMap⦄ (v : VaultStore) (op : Operation) (s : v.State)
    → IsHealthy v s
    → IsHealthy v (perform v op s)
unfolding perform save_ssh_host save_ssh_host_secure save_web_route delete_web_route save_forward
    move_forwards delete_selection enroll_host_key replace_host_key
perform-IsHealthy v (creates_folder name parent_id) s h =
    create_folder-IsHealthy v name parent_id s h
perform-IsHealthy v (saves_host host) s h = run-IsHealthy v _ s (save_ssh_host_in-Sealed _) h
perform-IsHealthy v (saves_host_secure q) s h =
    run-IsHealthy v _ s (save_ssh_host_secure_in-Sealed q) h
perform-IsHealthy v (saves_route r) s h = run-IsHealthy v _ s (save_web_route_in-Sealed _) h
perform-IsHealthy v (deletes_route id) s h = run-IsHealthy v _ s (delete_web_route_in-Sealed id) h
perform-IsHealthy v (saves_forward fw) s h = run-IsHealthy v _ s (save_forward_in-Sealed _) h
perform-IsHealthy v (moves_forwards ids target) s h =
    move_checked-IsHealthy v (check_batch ids) ids target s h
perform-IsHealthy v (deletes_selection sel) s h =
    run-IsHealthy v _ s (delete_selection_in-Sealed sel) h
perform-IsHealthy v (enrolls_host_key o) s h = run-IsHealthy v _ s (enroll_host_key_in-Sealed o) h
perform-IsHealthy v (replaces_host_key o) s h = run-IsHealthy v _ s (replace_host_key_in-Sealed o) h

-- On a store whose vault can be read and is well-formed, any sequence of the catalog's writing
-- operations, each with any arguments and whether it answers, refuses or fails to write, leaves a
-- vault that can be read and is well-formed.
pub perform_all-IsHealthy :
    ⦃m : CaseMap⦄ (v : VaultStore) (ops : List Operation) (s : v.State)
    → IsHealthy v s
    → IsHealthy v (perform_all v ops s)
unfolding perform_all
perform_all-IsHealthy v [] s h = h
perform_all-IsHealthy v (op ∷ ops) s h =
    perform_all-IsHealthy v ops (perform v op s) (perform-IsHealthy v op s h)
