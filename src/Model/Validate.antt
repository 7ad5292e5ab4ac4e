-- ===== src/Model/Validate.antt =====
-- `VaultData.Validate` of internal/model/validate.go, check by check in the source's order.
use tunnel_board.Prelude.{
  ℕ, String, Bool, true, false, ◌||◌, ◌&&◌, not, List, [], ◌∷◌, map, Option, none, some, ◌==◌, ◌≡◌,
  Eq, nat_eq, text_eq, endpoint_eq, if◌then◌else◌, contains, filter, trim_space, Endpoint,
}
use tunnel_board.Result.{
  folder, ssh_host, forward, web_route, Error, ref_missing, folder_depth, invalid_mode, empty_chain,
  route_needs_local_forward, route_needs_tls_sni, invalid_upstream_host_mode,
  route_needs_upstream_host, duplicate_id, duplicate_host_key, Result, ok, err, guard, ◌>>◌,
}
use tunnel_board.Model.{
  Folder, Forward, WebRoute, HostKey, VaultData, mode_original, mode_tls_sni, mode_custom,
  effective_upstream_host_mode,
}

abbrev pub mode_local : String
mode_local = "local"

abbrev pub mode_remote : String
mode_remote = "remote"

abbrev pub mode_dynamic : String
mode_dynamic = "dynamic"

abbrev pub folder_ids : VaultData → List ℕ
folder_ids d = map (λ f. f.id) d.folders

abbrev pub host_ids : VaultData → List ℕ
host_ids d = map (λ h. h.id) d.ssh_hosts

abbrev pub forward_ids : VaultData → List ℕ
forward_ids d = map (λ fw. fw.id) d.forwards

abbrev pub route_ids : VaultData → List ℕ
route_ids d = map (λ r. r.id) d.web_routes

-- One kind's loop of `validateUniqueIDs`; the first list is what it has seen.
module _ {A : Type 0} ⦃e : Eq A⦄ (fail : A → Error) where
  unfoldable pub check_unique : List A → List A → Result (Unit {0})
  check_unique seen [] = ok tt
  check_unique seen (id ∷ ids) =
      let rest = check_unique (id ∷ seen) ids in if contains id seen then err (fail id) else rest

unfoldable pub validate_unique_ids : VaultData → Result (Unit {0})
validate_unique_ids d = do
  check_unique (duplicate_id folder) [] (folder_ids d)
  check_unique (duplicate_id ssh_host) [] (host_ids d)
  check_unique (duplicate_id forward) [] (forward_ids d)
  check_unique (duplicate_id web_route) [] (route_ids d)

-- `folderExists`
abbrev pub folder_exists : List Folder → ℕ → Bool
folder_exists folders id = contains id (map (λ f. f.id) folders)

-- the map `topFolders`
abbrev pub top_folders : List Folder → List ℕ
top_folders folders = map (λ f. f.id) (filter (λ f. f.parent_id == 0) folders)

unfoldable pub check_folder : List Folder → Folder → Result (Unit {0})
check_folder folders f =
    if f.parent_id == 0
    then ok tt
    else if contains f.parent_id (top_folders folders)
    then ok tt
    else if folder_exists folders f.parent_id
    then err (folder_depth f.id)
    else err (ref_missing f.parent_id)

-- a loop that stops at the first entry refused
module _ {A : Type 0} (check : A → Result (Unit {0})) where
  unfoldable pub check_each : List A → Result (Unit {0})
  check_each [] = ok tt
  check_each (x ∷ xs) = do check x; check_each xs

unfoldable pub check_hop : List ℕ → ℕ → Result (Unit {0})
check_hop hosts hid = guard (contains hid hosts) (ref_missing hid)

abbrev pub is_mode : String → Bool
is_mode mode = mode == mode_local || mode == mode_remote || mode == mode_dynamic

abbrev pub is_empty : List ℕ → Bool
is_empty [] = true
is_empty (x ∷ xs) = false

unfoldable pub check_forward : VaultData → Forward → Result (Unit {0})
check_forward d fw = do
  guard (is_mode fw.mode) (invalid_mode fw.id)
  guard (folder_exists d.folders fw.folder_id) (ref_missing fw.folder_id)
  guard (not (is_empty fw.chain_host_ids)) (empty_chain fw.id)
  check_each (check_hop (host_ids d)) fw.chain_host_ids

-- The map `forwardModes`, and the map `forwards` of the route package: a later entry overwrites.
unfoldable pub forward_by_id : List Forward → ℕ → Option Forward
forward_by_id [] id = none
forward_by_id (fw ∷ fws) id = elim (forward_by_id fws id) [
  | some later ↦ some later
  | none ↦ if fw.id == id then some fw else none
]

unfoldable pub check_upstream_host : WebRoute → Result (Unit {0})
check_upstream_host r =
    let mode = effective_upstream_host_mode r in
    if mode == mode_original
    then ok tt
    else if mode == mode_tls_sni
    then guard (r.upstream_scheme == "https") (invalid_upstream_host_mode r.id)
    else if mode == mode_custom
    then guard (not (trim_space r.upstream_host == "")) (route_needs_upstream_host r.id)
    else err (invalid_upstream_host_mode r.id)

abbrev pub is_known_scheme : String → Bool
is_known_scheme s = s == "https" || s == "http" || s == ""

unfoldable pub check_route_on : Option Forward → WebRoute → Result (Unit {0})
check_route_on none r = err (ref_missing r.forward_id)
check_route_on (some fw) r = do
  guard (fw.mode == mode_local) (route_needs_local_forward r.id)
  guard (not (r.upstream_scheme == "https" && r.tls_sni == "")) (route_needs_tls_sni r.id)
  if is_known_scheme r.upstream_scheme then check_upstream_host r else ok tt

unfoldable pub check_route : VaultData → WebRoute → Result (Unit {0})
check_route d r = check_route_on (forward_by_id d.forwards r.forward_id) r

abbrev pub endpoint : HostKey → Endpoint
endpoint k = (k.host, k.port)

abbrev pub duplicate_endpoint : Endpoint → Error
duplicate_endpoint (h, p) = duplicate_host_key h p

-- `VaultData.Validate`
unfoldable pub validate : VaultData → Result (Unit {0})
validate d = do
  validate_unique_ids d
  check_each (check_folder d.folders) d.folders
  check_each (check_forward d) d.forwards
  check_each (check_route d) d.web_routes
  check_unique duplicate_endpoint [] (map endpoint d.host_keys)

-- the preferences are not looked at
pub validate_untrusted :
    (d : VaultData)
    → validate d ≡ ok tt
    → validate (record d { prefs = record d.prefs { ca_trusted_sha256 = "" } }) ≡ ok tt
unfolding validate validate_unique_ids check_forward check_route
validate_untrusted d v = v
