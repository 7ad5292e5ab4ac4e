-- ===== src/Model.antt =====
-- internal/model/vault.go: the data that the vault keeps. Ids, ports and times are natural numbers;
-- the program gives out ids from 1, and 0 stands for "no parent" and "not saved yet".
pub mod Validate
pub mod WellFormed
pub mod Trust
use tunnel_board.Prelude.{
  ℕ, String, Bool, List, ◌==◌, nat_eq, text_eq, if◌then◌else◌, trim_space, not,
}

pub record Folder : Type 0 where
  pub id : ℕ
  pub name : String
  pub parent_id : ℕ
  pub sort : ℕ

pub record SshHost : Type 0 where
  pub id : ℕ
  pub name : String
  pub host : String
  pub port : ℕ
  pub user : String
  pub auth_type : String
  pub key_path : String
  pub agent_socket_path : String
  pub password : String
  pub keep_alive_interval_ms : ℕ
  pub timeout_ms : ℕ
  pub host_key_algorithms : String
  pub notes : String
  pub credential_revision : ℕ

pub record Forward : Type 0 where
  pub id : ℕ
  pub folder_id : ℕ
  pub name : String
  pub mode : String
  pub chain_host_ids : List ℕ
  pub local_host : String
  pub local_port : ℕ
  pub remote_host : String
  pub remote_port : ℕ
  pub auto_start : Bool
  pub description : String

abbrev pub mode_original : String
mode_original = "original"

abbrev pub mode_tls_sni : String
mode_tls_sni = "tls_sni"

abbrev pub mode_custom : String
mode_custom = "custom"

pub record WebRoute : Type 0 where
  pub id : ℕ
  pub forward_id : ℕ
  pub domain : String
  pub hosts_enabled : Bool
  pub caddy_enabled : Bool
  pub upstream_scheme : String
  pub tls_sni : String
  pub upstream_host_mode : String
  pub upstream_host : String
  pub remove_proxy_headers : Bool

pub record HostKey : Type 0 where
  pub id : ℕ
  pub host : String
  pub port : ℕ
  pub key_type : String
  pub fingerprint_sha256 : String
  pub first_seen_at : ℕ
  pub last_seen_at : ℕ

pub record Prefs : Type 0 where
  pub auto_run : Bool
  pub update_check_enabled : Bool
  pub ui_locale : String
  pub ca_trusted_sha256 : String

pub record VaultData : Type 0 where
  pub version : ℕ
  pub folders : List Folder
  pub ssh_hosts : List SshHost
  pub forwards : List Forward
  pub web_routes : List WebRoute
  pub host_keys : List HostKey
  pub prefs : Prefs

-- `WebRoute.EffectiveUpstreamHostMode`
unfoldable pub effective_upstream_host_mode : WebRoute → String
effective_upstream_host_mode r =
    if not (trim_space r.upstream_host_mode == "")
    then r.upstream_host_mode
    else if not (trim_space r.upstream_host == "")
    then mode_custom
    else mode_original

-- `WebRoute.NormalizeUpstreamHostSelection`: the assignments in their order
unfoldable pub normalize_upstream_host_selection : WebRoute → WebRoute
normalize_upstream_host_selection r =
    let r₁ = record r {
      upstream_host_mode = trim_space r.upstream_host_mode;
      upstream_host = trim_space r.upstream_host;
    } in
    let r₂ = record r₁ { upstream_host_mode = effective_upstream_host_mode r₁ } in
    if not (r₂.upstream_host_mode == mode_custom) then record r₂ { upstream_host = "" } else r₂
