-- ===== src/Tests/Vault.antt =====
-- A small vault, and a store that keeps its data in memory.
use tunnel_board.Prelude.{
  ℕ, ◌≡◌, refl, ap, subst, ◌∙◌, ◌≤◌, inl, inr, true, false, leb, leb→le, [], ◌∷◌, if◌then◌else◌,
  arith, Bool-cases, trim_space, is_space,
}
use tunnel_board.Result.{Result, ok, err, load_failed}
use tunnel_board.Model.{
  Folder, SshHost, Forward, WebRoute, HostKey, VaultData, effective_upstream_host_mode,
}
use tunnel_board.Model.Validate.{
  validate, validate_unique_ids, check_unique, check_each, check_folder, check_forward, check_hop,
  check_route, check_route_on, check_upstream_host, forward_by_id,
}
use tunnel_board.Model.WellFormed.{IsWellFormed, validate_iff}
use tunnel_board.VaultStore.{VaultStore, stored, payload_version}

abbrev pub work : Folder
work = record { id = 1; name = "Work"; parent_id = 0; sort = 0 }

abbrev pub lab : Folder
lab = record { id = 2; name = "Lab"; parent_id = 1; sort = 1 }

abbrev pub gate : SshHost
gate = record {
  id = 1;
  name = "gate";
  host = "gate.example.org";
  port = 22;
  user = "ops";
  auth_type = "password";
  key_path = "";
  agent_socket_path = "";
  password = "old secret";
  keep_alive_interval_ms = 0;
  timeout_ms = 5000;
  host_key_algorithms = "";
  notes = "";
  credential_revision = 4;
}

abbrev pub web : Forward
web = record {
  id = 1;
  folder_id = 1;
  name = "web";
  mode = "local";
  chain_host_ids = 1 ∷ [];
  local_host = "127.0.0.1";
  local_port = 8443;
  remote_host = "10.0.0.5";
  remote_port = 443;
  auto_start = true;
  description = "";
}

abbrev pub proxy : Forward
proxy = record web { id = 2; folder_id = 2; name = "proxy"; mode = "dynamic"; local_port = 1080 }

abbrev pub app_route : WebRoute
app_route = record {
  id = 1;
  forward_id = 1;
  domain = "app.test";
  hosts_enabled = true;
  caddy_enabled = true;
  upstream_scheme = "https";
  tls_sni = "app.example.org";
  upstream_host_mode = "tls_sni";
  upstream_host = "";
  remove_proxy_headers = true;
}

abbrev pub gate_key : HostKey
gate_key = record {
  id = 1;
  host = "gate.example.org";
  port = 22;
  key_type = "ssh-ed25519";
  fingerprint_sha256 = "SHA256:one";
  first_seen_at = 100;
  last_seen_at = 100;
}

abbrev pub small : VaultData
small = record {
  version = 1;
  folders = work ∷ lab ∷ [];
  ssh_hosts = gate ∷ [];
  forwards = web ∷ proxy ∷ [];
  web_routes = app_route ∷ [];
  host_keys = gate_key ∷ [];
  prefs = record {
    auto_run = false;
    update_check_enabled = true;
    ui_locale = "";
    ca_trusted_sha256 = "";
  };
}

pub small-valid : validate small ≡ ok tt
unfolding validate validate_unique_ids check_unique check_each check_folder check_forward check_hop
    check_route check_route_on check_upstream_host forward_by_id effective_upstream_host_mode
    trim_space is_space
small-valid = refl

pub small-IsWellFormed : IsWellFormed small
small-IsWellFormed = (validate_iff small).0 small-valid

abbrev pub load_memory : VaultData → Result VaultData
load_memory s = if leb s.version payload_version then ok s else err load_failed

abbrev pub write_memory :
    {A : Type 0} → VaultData → Result (A × VaultData) → VaultData × Result (A × VaultData)
write_memory s (ok (a, d)) = (stored d, ok (a, d))
write_memory s (err e) = (s, err e)

abbrev change_memory :
    {A : Type 0}
    → Result VaultData
    → (VaultData → Result (A × VaultData))
    → VaultData
    → VaultData × Result (A × VaultData)
change_memory (ok d) m s = write_memory s (m d)
change_memory (err e) m s = (s, err e)

abbrev pub version_of : Result VaultData → ℕ
version_of (ok d) = d.version
version_of (err e) = 0

version_of-load_memory : (s : VaultData) → version_of (load_memory s) ≤ payload_version
version_of-load_memory s = elim (Bool-cases (leb s.version payload_version)) [
  | inl e ↦ rw e (leb→le s.version payload_version e)
  | inr e ↦ rw e (omega arith)
]

pub load_memory-version : (s d : VaultData) → load_memory s ≡ ok d → d.version ≤ payload_version
load_memory-version s d h = subst (λ r. version_of r ≤ payload_version) h (version_of-load_memory s)

pub load_memory-current : (d : VaultData) → d.version ≤ payload_version → load_memory d ≡ ok d
load_memory-current d h =
    let current : leb d.version payload_version ≡ true = ground arith in rw current refl

pub load_memory-stored :
    (d : VaultData) → d.version ≤ payload_version → load_memory (stored d) ≡ ok (stored d)
unfolding stored
load_memory-stored d h =
    load_memory-current (record d { prefs = record d.prefs { ca_trusted_sha256 = "" } }) h

pub change_memory-written :
    {A : Type 0} (m : VaultData → Result (A × VaultData)) (s d d' : VaultData) (a : A)
    → load_memory s ≡ ok d
    → m d ≡ ok (a, d')
    → change_memory (load_memory s) m s ≡ (stored d', ok (a, d'))
change_memory-written m s d d' a h k = ap (λ r. change_memory r m s) h ∙ ap (write_memory s) k

abbrev pub in_memory : VaultStore
in_memory = record {
  State = VaultData;
  load = load_memory;
  update = λ A m s. change_memory (load_memory s) m s;
  load-version = load_memory-version;
  update-load_err = λ A m s e h. ap (λ r. change_memory r m s) h;
  update-rejected = λ A m s d e h k. ap (λ r. change_memory r m s) h ∙ ap (write_memory s) k;
  update-written = λ A m s d d' a h k v.
      let w = change_memory-written m s d d' a h k in
      inl (ap (λ p. p.1) w, ap (λ p. load_memory p.0) w ∙ load_memory-stored d' v);
}
