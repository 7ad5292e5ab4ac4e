-- ===== src/SshConfig/Candidates.antt =====
-- `LoadImportCandidates` of internal/sshconfig/import.go.
use mathlib.Core.Option as O
use tunnel_board.Prelude.{
  ℤ, ℕ, String, text_eq, ◌==◌, Option, none, some, List, [], if◌then◌else◌, trim_space, CaseMap,
  map,
}
use tunnel_board.SshConfig.{
  ConfigEntry, ResolvedAlias, GoText, collect_explicit_aliases, resolve_alias, derive_auth_type,
  derive_warnings,
}
use tunnel_board.SshConfig.Parse.{ConfigFiles, ◌>>=◌, expand_path, parse_file}

pub record SshConfigImportCandidate : Type 0 where
  pub alias : String
  pub name : String
  pub host : String
  pub port : ℕ
  pub user : String
  pub auth_type : String
  pub key_path : String
  pub agent_socket_path : String
  pub keep_alive_interval_ms : ℤ
  pub timeout_ms : ℤ
  pub host_key_algorithms : String
  pub proxy_jump : String
  pub source_path : String
  pub warnings : List String

abbrev candidate_of : String → ResolvedAlias → SshConfigImportCandidate
candidate_of alias r = record {
  alias = alias;
  name = alias;
  host = r.host;
  port = r.port;
  user = r.user;
  auth_type = derive_auth_type r;
  key_path = r.key_path;
  agent_socket_path = r.agent_socket_path;
  keep_alive_interval_ms = r.keep_alive_interval_ms;
  timeout_ms = r.timeout_ms;
  host_key_algorithms = r.host_key_algorithms;
  proxy_jump = r.proxy_jump;
  source_path = r.source_path;
  warnings = derive_warnings r;
}

module _ ⦃m : CaseMap⦄ (os : ConfigFiles) (go : GoText) where
  -- `DefaultConfigPath`
  abbrev default_config_path : Option String
  default_config_path = O.map (λ home. os.join (os.join home ".ssh") "config") os.user_home

  -- `resolveConfigPath`
  abbrev resolve_config_path : String → Option String
  resolve_config_path path =
      if trim_space path == "" then default_config_path else expand_path os path ""

  unfoldable pub candidates_of : List ConfigEntry → List SshConfigImportCandidate
  candidates_of es = map (λ a. candidate_of a (resolve_alias go a es)) (collect_explicit_aliases es)

  -- `LoadImportCandidates`, with fuel for the includes
  unfoldable pub load_import_candidates : ℕ → String → Option (List SshConfigImportCandidate)
  load_import_candidates fuel path = do
    resolved ← resolve_config_path path
    file ← os.abs resolved
    parsed ←
        (if os.exists file
          then parse_file os fuel file (record { visited_files = []; entries = [] })
          else none)
    some (candidates_of parsed.entries)
