-- ===== src/Tests/Hosts.antt =====
-- Secrets of hosts, and a deletion without cascade, on the small vault.
use tunnel_board.Prelude.{
  nat_eq, filter, not, contains, ◌≡◌, refl, true, false, ◌+◌, ◌%◌, ◌==◌, text_eq, [], ◌∷◌, some,
  if◌then◌else◌, ascii_case, trim_space, is_space,
}
use tunnel_board.Result.{ok}
use tunnel_board.Model.{SshHost, VaultData, effective_upstream_host_mode}
use tunnel_board.Model.Validate.{
  validate, validate_unique_ids, check_unique, check_each, check_folder, check_forward, check_hop,
  check_route, check_route_on, check_upstream_host, forward_by_id,
}
use tunnel_board.Catalog.{commit}
use tunnel_board.Catalog.Lists.{index_by}
use tunnel_board.Catalog.Hosts.{
  auth_ssh_agent, replace, SaveSshHostRequest, choose_secret, secret_for, check_keep,
  normalize_ssh_host, prepare_with, save_ssh_host_secure_in, revision_mod,
}
use tunnel_board.Catalog.Hosts.Secrets.{
  with_password, secret_after, save_ssh_host_secure_in-password, prepare_with-secret,
}
use tunnel_board.Catalog.Delete.{
  Selection, check_selected, expand_folders, expand_forwards, remaining_refs, check_unused,
  plan_deletion, without, delete_selection_in,
}
use tunnel_board.Catalog.Delete.Exact.{delete_selection_in-exact}
use tunnel_board.Tests.Vault.{small, gate, proxy}

abbrev request : SaveSshHostRequest
request = record { host = gate; secret_action = replace; secret_input = "new secret" }

abbrev new_gate : SshHost
new_gate = record gate { password = "new secret"; credential_revision = 5 }

save_ssh_host_secure_in-password_example :
    save_ssh_host_secure_in ⦃m = ascii_case⦄ (with_password "injected" request) small
    ≡ save_ssh_host_secure_in ⦃m = ascii_case⦄ request small
save_ssh_host_secure_in-password_example =
    save_ssh_host_secure_in-password ⦃m = ascii_case⦄ "injected" request small

prepared_test : prepare_with (some gate) request ≡ ok (new_gate, some gate)
unfolding prepare_with normalize_ssh_host check_keep secret_for choose_secret trim_space is_space
prepared_test = refl

prepare_with-secret_example :
    (new_gate.password ≡ (
      if new_gate.auth_type == auth_ssh_agent
      then ""
      else secret_after replace gate.password "new secret"))
    × (new_gate.credential_revision ≡ (
        if new_gate.password == gate.password
        then gate.credential_revision
        else (gate.credential_revision + 1) % revision_mod))
prepare_with-secret_example = prepare_with-secret gate request new_gate (some gate) prepared_test

abbrev only_web : Selection
only_web = record {
  folder_ids = [];
  ssh_host_ids = [];
  forward_ids = 1 ∷ [];
  cascade_folders = true;
}

abbrev left : VaultData
left = record small { forwards = proxy ∷ []; web_routes = [] }

deleted_test :
    delete_selection_in (record only_web { cascade_folders = false }) small ≡ ok (tt, left)
unfolding delete_selection_in plan_deletion without check_selected expand_folders expand_forwards
    remaining_refs check_unused index_by commit validate validate_unique_ids check_unique check_each
    check_folder check_forward check_hop check_route check_route_on check_upstream_host
    forward_by_id effective_upstream_host_mode trim_space is_space
deleted_test = refl

delete_selection_in-exact_example :
    (left.folders ≡ filter (λ f. not (contains f.id [])) small.folders)
    × (left.ssh_hosts ≡ filter (λ h. not (contains h.id [])) small.ssh_hosts)
    × (left.forwards ≡ filter (λ fw. not (contains fw.id (1 ∷ []))) small.forwards)
    × (left.web_routes ≡ filter (λ r. not (contains r.forward_id (1 ∷ []))) small.web_routes)
    × (left.version ≡ small.version)
    × (left.host_keys ≡ small.host_keys)
    × (left.prefs ≡ small.prefs)
delete_selection_in-exact_example = delete_selection_in-exact only_web small left deleted_test
