-- ===== src/Catalog/Hosts.antt =====
-- `normalizeSSHHost`, `SaveSSHHost`, and the entry points that merge a stored secret:
-- `prepareSSHHostSecure`, `SaveSSHHostSecureWithData`, `PreviewSSHHostSecure`.
pub mod Secrets
use tunnel_board.Prelude.{
  ℕ, ◌+◌, ◌%◌, ◌^◌, String, Bool, true, false, ◌&&◌, ◌||◌, not, ◌==◌, nat_eq, text_eq, [], ◌∷◌,
  ◌++◌, Option, none, some, if◌then◌else◌, trim_space, CaseMap, to_lower,
}
use tunnel_board.Result.{
  Result, ok, err, ◌>>=◌, ◌>>◌, not_found, ssh_host, secret_action_required, missing_secret,
  secret_required, unsupported_auth_type, unknown_secret_action,
}
use tunnel_board.Model.{SshHost, VaultData}
use tunnel_board.Model.Validate.{host_ids}
use tunnel_board.VaultStore.{VaultStore}
use tunnel_board.Catalog.{next_id, commit, run}
use tunnel_board.Catalog.Lists.{index_ssh_host, set, get_elem?}

abbrev pub auth_password : String
auth_password = "password"

abbrev pub auth_ssh_key : String
auth_ssh_key = "ssh_key"

abbrev pub auth_ssh_agent : String
auth_ssh_agent = "ssh_agent"

-- `normalizeSSHHost`: the assignments in their order
unfoldable pub normalize_ssh_host : SshHost → SshHost
normalize_ssh_host h₀ =
    let h = record h₀ {
      name = trim_space h₀.name;
      host = trim_space h₀.host;
      user = trim_space h₀.user;
    } in
    let port = if h.port == 0 then 22 else h.port in
    let timeout = if h.timeout_ms == 0 then 5000 else h.timeout_ms in
    let auth = if h.auth_type == "" then auth_ssh_key else h.auth_type in
    let key_path = if not (auth == auth_ssh_key) then "" else h.key_path in
    let password = if auth == auth_ssh_agent then "" else h.password in
    record h {
      port = port;
      timeout_ms = timeout;
      auth_type = auth;
      key_path = key_path;
      password = password;
    }

-- The position of a stored host goes with the host; a mutation writes a new host, or over the old.
unfoldable pub put_host : SshHost → VaultData → Result (SshHost × VaultData)
unfolding commit
put_host host d = elim (index_ssh_host d.ssh_hosts host.id) [
  | none ↦ err (not_found ssh_host host.id)
  | some i ↦ commit host (record d { ssh_hosts = set d.ssh_hosts i host })
]

unfoldable pub add_host : SshHost → VaultData → Result (SshHost × VaultData)
unfolding commit
add_host host d =
    let created = record host { id = next_id (host_ids d) } in
    commit created (record d { ssh_hosts = d.ssh_hosts ++ created ∷ [] })

-- the closure of `SaveSSHHost`
unfoldable pub save_ssh_host_in : SshHost → VaultData → Result (SshHost × VaultData)
unfolding put_host add_host
save_ssh_host_in host d = if host.id == 0 then add_host host d else put_host host d

unfoldable pub save_ssh_host : (v : VaultStore) → SshHost → v.State → v.State × Result SshHost
unfolding save_ssh_host_in run
save_ssh_host v host s = run v (save_ssh_host_in (normalize_ssh_host host)) s

-- `SecretAction` is a string of the request; any other word is an unknown action.
pub data SecretAction : Type 0 where
  keep replace clear unknown : SecretAction

pub record SaveSshHostRequest : Type 0 where
  pub host : SshHost
  pub secret_action : SecretAction
  pub secret_input : String

-- `ConnectionIdentity` of internal/forward/conn_pool.go: what makes two transports the same
pub record ConnectionIdentity : Type 0 where
  pub host : String
  pub port : ℕ
  pub user : String
  pub auth_type : String
  pub key_path : String
  pub agent_socket_path : String
  pub keep_alive_interval : ℕ
  pub timeout : ℕ
  pub host_key_algorithms : String
  pub credential_revision : ℕ

-- `SSHConnectionIdentity`
unfoldable pub ssh_connection_identity : ⦃m : CaseMap⦄ → SshHost → ConnectionIdentity
ssh_connection_identity h = record {
  host = to_lower (trim_space h.host);
  port = if h.port == 0 then 22 else h.port;
  user = trim_space h.user;
  auth_type = to_lower (trim_space h.auth_type);
  key_path = trim_space h.key_path;
  agent_socket_path = trim_space h.agent_socket_path;
  keep_alive_interval = h.keep_alive_interval_ms;
  timeout = h.timeout_ms;
  host_key_algorithms = trim_space h.host_key_algorithms;
  credential_revision = h.credential_revision;
}

-- `==` of the comparable struct, field by field
unfoldable pub same_identity : ConnectionIdentity → ConnectionIdentity → Bool
same_identity a b =
    a.host == b.host
    && a.port == b.port
    && a.user == b.user
    && a.auth_type == b.auth_type
    && a.key_path == b.key_path
    && a.agent_socket_path == b.agent_socket_path
    && a.keep_alive_interval == b.keep_alive_interval
    && a.timeout == b.timeout
    && a.host_key_algorithms == b.host_key_algorithms
    && a.credential_revision == b.credential_revision

abbrev pub revision_mod : ℕ
revision_mod = 2 ^ 64

-- The host that the request's id names, or none for a new host.
unfoldable pub find_previous : VaultData → ℕ → Result (Option SshHost)
find_previous d id = if id == 0 then ok none else elim (index_ssh_host d.ssh_hosts id) [
  | none ↦ err (not_found ssh_host id)
  | some i ↦ ok (get_elem? d.ssh_hosts i)
]

abbrev pub old_secret : Option SshHost → String
old_secret none = ""
old_secret (some h) = h.password

abbrev pub is_new : Option SshHost → Bool
is_new none = true
is_new (some h) = false

-- the inner `switch request.SecretAction`: the secret that the host is to have
unfoldable pub choose_secret : Option SshHost → SaveSshHostRequest → Result String
choose_secret previous q = elim q.secret_action [
  | keep ↦ if is_new previous then err missing_secret else ok (old_secret previous)
  | replace ↦ if q.secret_input == "" then err secret_required else ok q.secret_input
  | clear ↦ ok ""
  | unknown ↦ err unknown_secret_action
]

-- the outer `switch host.AuthType`
unfoldable pub secret_for : String → Option SshHost → SaveSshHostRequest → Result String
unfolding choose_secret
secret_for auth previous q =
    if auth == auth_ssh_agent
    then ok ""
    else if auth == auth_password || auth == auth_ssh_key
    then (do
      secret ← choose_secret previous q
      if auth == auth_password && secret == "" then err secret_required else ok secret)
    else err unsupported_auth_type

-- A kept secret belongs to the old way of authentication.
unfoldable pub check_keep : Option SshHost → SaveSshHostRequest → String → Result (Unit {0})
check_keep none q auth = ok tt
check_keep (some old) q auth = elim q.secret_action [
  | keep ↦ if old.auth_type == auth then ok tt else err secret_action_required
  | _ ↦ ok tt
]

abbrev pub revision_of : Option SshHost → SshHost → ℕ
revision_of none h = h.credential_revision
revision_of (some old) h = old.credential_revision

-- `prepareSSHHostSecure`, for the previous host that was found
unfoldable pub prepare_with :
    Option SshHost → SaveSshHostRequest → Result (SshHost × Option SshHost)
unfolding normalize_ssh_host check_keep secret_for
prepare_with previous q = do
  let host = normalize_ssh_host q.host
  check_keep previous q host.auth_type
  secret ← secret_for host.auth_type previous q
  let revision = revision_of previous host
  ok (
    record host {
      password = secret;
      credential_revision =
          if secret == old_secret previous then revision else (revision + 1) % revision_mod;
    },
    previous,
  )

module _ ⦃m : CaseMap⦄ where
  unfoldable pub connection_changed : Option SshHost → SshHost → Bool
  unfolding ssh_connection_identity same_identity
  connection_changed none host = false
  connection_changed (some old) host =
      not (same_identity (ssh_connection_identity old) (ssh_connection_identity host))

  unfoldable pub prepare_ssh_host_secure :
      VaultData → SaveSshHostRequest → Result (SshHost × Option SshHost × Bool)
  unfolding find_previous prepare_with connection_changed
  prepare_ssh_host_secure d q = do
    previous ← find_previous d (normalize_ssh_host q.host).id
    prepared ← prepare_with previous q
    ok (prepared.0, prepared.1, connection_changed previous prepared.0)

  -- the closure of `SaveSSHHostSecureWithData`
  unfoldable pub save_ssh_host_secure_in :
      SaveSshHostRequest → VaultData → Result ((SshHost × Bool) × VaultData)
  unfolding prepare_ssh_host_secure put_host add_host
  save_ssh_host_secure_in q d = do
    prepared ← prepare_ssh_host_secure d q
    written ← (if is_new prepared.1 then add_host prepared.0 d else put_host prepared.0 d)
    ok ((written.0, prepared.2), written.1)

  unfoldable pub save_ssh_host_secure :
      (v : VaultStore) → SaveSshHostRequest → v.State → v.State × Result (SshHost × Bool)
  unfolding save_ssh_host_secure_in run
  save_ssh_host_secure v q s = run v (save_ssh_host_secure_in q) s

  unfoldable pub preview_ssh_host_secure :
      (v : VaultStore) → SaveSshHostRequest → v.State → Result (SshHost × Bool)
  unfolding prepare_ssh_host_secure
  preview_ssh_host_secure v q s = do
    d ← v.load s
    prepared ← prepare_ssh_host_secure d q
    ok (prepared.0, prepared.2)
