-- ===== src/Backup/Limits.antt =====
-- internal/vault/backup_limits.go: the bounds on the contents of a backup package.
pub mod Bounds
pub mod Depth
pub mod Sizes
pub mod Sums
use tunnel_board.Prelude.{
  ℕ, zero, suc, ◌+◌, ◌-◌, ◌*◌, String, Char, code, Bool, true, false, List, [], ◌∷◌, length, ltb,
  ◌==◌, nat_eq, if◌then◌else◌,
}
use tunnel_board.Model.{VaultData, Folder, SshHost, Forward, WebRoute, HostKey}
use tunnel_board.Backup.{
  Problem, resource_limit, password_required, payload_undecodable, Answer, gave, refused, ◌>>=◌,
}

abbrev pub max_password_bytes : ℕ
max_password_bytes = 1024

abbrev pub max_chain_hops : ℕ
max_chain_hops = 16

abbrev pub max_key_file_bytes : ℕ
max_key_file_bytes = 1048576

abbrev pub max_all_keys_bytes : ℕ
max_all_keys_bytes = 16777216

abbrev pub short_string : ℕ
short_string = 256

abbrev pub host_string : ℕ
host_string = 255

abbrev pub path_string : ℕ
path_string = 4096

abbrev pub notes_string : ℕ
notes_string = 16384

abbrev pub max_all_strings : ℕ
max_all_strings = 8388608

abbrev pub max_entities : ℕ
max_entities = 10000

abbrev pub max_json_depth : ℕ
max_json_depth = 32

-- `len([]byte(s))`: the bytes of a text in UTF-8
unfoldable pub byte_length : String → ℕ
byte_length String.[] = 0
byte_length (String.◌∷◌ c s) =
    let rest = byte_length s in
    (if ltb (code c) 128
      then 1
      else if ltb (code c) 2048
      then 2
      else if ltb (code c) 65536
      then 3
      else 4)
    + rest

-- a limit on what is named
pub record Limit : Type 0 where
  pub name : String
  pub got : ℕ
  pub limit : ℕ

abbrev pub within : Limit → Answer (Unit {0})
within l = if ltb l.limit l.got then refused (resource_limit l.name l.got l.limit) else gave tt

-- `validateBackupPassword`
unfoldable pub validate_backup_password : String → Answer (Unit {0})
validate_backup_password password =
    if byte_length password == 0
    then refused password_required
    else within
        (record { name = "password bytes"; got = byte_length password; limit = max_password_bytes })

-- a text with its limit, as the closure `check` takes it
abbrev pub text_limit : String → String → ℕ → Limit
text_limit name value limit = record { name = name; got = byte_length value; limit = limit }

-- `check` on each: the sum of what was checked goes on
unfoldable pub check_all : List Limit → ℕ → Answer ℕ
check_all [] total = gave total
check_all (l ∷ ls) total = within l >>= λ t. check_all ls (total + l.got)

abbrev pub folder_texts : Folder → List Limit
folder_texts f = text_limit "folder name bytes" f.name short_string ∷ []

abbrev pub host_texts : SshHost → List Limit
host_texts h =
    text_limit "ssh host name bytes" h.name short_string
    ∷ text_limit "ssh host bytes" h.host host_string
    ∷ text_limit "ssh user bytes" h.user short_string
    ∷ text_limit "ssh auth type bytes" h.auth_type short_string
    ∷ text_limit "ssh key path bytes" h.key_path path_string
    ∷ text_limit "ssh agent path bytes" h.agent_socket_path path_string
    ∷ text_limit "ssh secret bytes" h.password notes_string
    ∷ text_limit "ssh algorithms bytes" h.host_key_algorithms notes_string
    ∷ text_limit "ssh notes bytes" h.notes notes_string
    ∷ []

abbrev pub forward_texts : Forward → List Limit
forward_texts fw =
    text_limit "forward name bytes" fw.name short_string
    ∷ text_limit "forward mode bytes" fw.mode short_string
    ∷ text_limit "local host bytes" fw.local_host host_string
    ∷ text_limit "remote host bytes" fw.remote_host host_string
    ∷ text_limit "forward description bytes" fw.description notes_string
    ∷ []

abbrev pub chain_hops : Forward → Limit
chain_hops fw = record {
  name = "ssh chain hops";
  got = length fw.chain_host_ids;
  limit = max_chain_hops;
}

abbrev pub route_texts : WebRoute → List Limit
route_texts r =
    text_limit "route domain bytes" r.domain host_string
    ∷ text_limit "route scheme bytes" r.upstream_scheme short_string
    ∷ text_limit "route upstream host mode bytes" r.upstream_host_mode short_string
    ∷ text_limit "route tls sni bytes" r.tls_sni host_string
    ∷ text_limit "route upstream host bytes" r.upstream_host host_string
    ∷ []

abbrev pub host_key_texts : HostKey → List Limit
host_key_texts k =
    text_limit "host key host bytes" k.host host_string
    ∷ text_limit "host key type bytes" k.key_type short_string
    ∷ text_limit "host key fingerprint bytes" k.fingerprint_sha256 short_string
    ∷ []

-- the loops over one kind of entity: a limit that is not summed, where there is one, then the texts
unfoldable pub check_entities :
    {A : Type 0} → (A → List Limit) → (A → List Limit) → List A → ℕ → Answer ℕ
check_entities before texts [] total = gave total
check_entities before texts (x ∷ xs) total = check_all (before x) 0 >>= λ skipped.
    check_all (texts x) total >>= check_entities before texts xs

-- the last loop, over the key files: their paths are texts, their sizes are summed apart
unfoldable pub check_key_files : List (String × List ℕ) → ℕ → ℕ → Answer (ℕ × ℕ)
check_key_files [] total keys = gave (total, keys)
check_key_files ((path, content) ∷ files) total keys =
    check_all (text_limit "key file path bytes" path path_string ∷ []) total >>= λ total'.
    within (record { name = "key file bytes"; got = length content; limit = max_key_file_bytes })
    >>= λ t. check_key_files files total' (keys + length content)

abbrev pub payload_counts : VaultData → List (String × List ℕ) → List Limit
payload_counts d files =
    record { name = "folders"; got = length d.folders; limit = 500 }
    ∷ record { name = "ssh hosts"; got = length d.ssh_hosts; limit = 1000 }
    ∷ record { name = "forwards"; got = length d.forwards; limit = 5000 }
    ∷ record { name = "web routes"; got = length d.web_routes; limit = 2000 }
    ∷ record { name = "host keys"; got = length d.host_keys; limit = 5000 }
    ∷ record { name = "key files"; got = length files; limit = 64 }
    ∷ []

abbrev pub entities : VaultData → ℕ
entities d =
    length d.folders
    + length d.ssh_hosts
    + length d.forwards
    + length d.web_routes
    + length d.host_keys

abbrev nothing_before : {A : Type 0} → A → List Limit
nothing_before x = []

-- `validateBackupPayload`
unfoldable pub validate_backup_payload : VaultData → List (String × List ℕ) → Answer (Unit {0})
validate_backup_payload d files = check_all (payload_counts d files) 0 >>= λ skipped.
    within (record { name = "entities"; got = entities d; limit = max_entities }) >>= λ t.
    check_entities nothing_before folder_texts d.folders 0 >>= λ a.
    check_entities nothing_before host_texts d.ssh_hosts a >>= λ b.
    check_entities (λ fw. chain_hops fw ∷ []) forward_texts d.forwards b >>= λ c.
    check_entities nothing_before route_texts d.web_routes c >>= λ e.
    check_entities nothing_before host_key_texts d.host_keys e >>= λ f.
    check_all (text_limit "locale bytes" d.prefs.ui_locale short_string ∷ []) f >>= λ g.
    check_key_files files g 0 >>= λ sums.
    within (record { name = "all key file bytes"; got = sums.1; limit = max_all_keys_bytes })
    >>= λ t. within (record { name = "all string bytes"; got = sums.0; limit = max_all_strings })

-- a token of the JSON decoder, which is not modelled: it reads matching brackets only
pub data JsonToken : Type 0 where
  opens closes scalar unreadable : JsonToken

-- `validateBackupJSONDepth`, from a depth on
unfoldable pub check_depth : List JsonToken → ℕ → Answer (Unit {0})
check_depth [] depth = gave tt
check_depth (opens ∷ ts) depth =
    let rest = check_depth ts (depth + 1) in
    if ltb max_json_depth (depth + 1)
    then refused (resource_limit "json depth" (depth + 1) max_json_depth)
    else rest
check_depth (closes ∷ ts) depth = check_depth ts (depth - 1)
check_depth (scalar ∷ ts) depth = check_depth ts depth
check_depth (unreadable ∷ ts) depth = refused payload_undecodable
