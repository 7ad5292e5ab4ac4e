-- ===== src/Backup/Limits/Sizes.antt =====
-- The sizes of the parts of a payload, and what the tables of `validateBackupPayload`
-- (internal/vault/backup_limits.go) say about them.
use tunnel_board.Prelude.{ℕ, ◌+◌, ◌≤◌, String, List, [], ◌∷◌, ◌++◌, length, ◌≡◌, arith, All}
use tunnel_board.Model.{VaultData, Folder, SshHost, Forward, WebRoute, HostKey}
use tunnel_board.Backup.Limits.{Limit, byte_length}
use tunnel_board.Backup.Limits.Sums.{
  Fits, sum, sum-append, each_of, path_texts, key_bytes, IsKeyFile,
}

abbrev pub IsFolderBounded : Folder → Type 0
IsFolderBounded f = byte_length f.name ≤ 256

abbrev pub IsHostBounded : SshHost → Type 0
IsHostBounded h =
    (byte_length h.name ≤ 256)
    × (byte_length h.host ≤ 255)
    × (byte_length h.user ≤ 256)
    × (byte_length h.auth_type ≤ 256)
    × (byte_length h.key_path ≤ 4096)
    × (byte_length h.agent_socket_path ≤ 4096)
    × (byte_length h.password ≤ 16384)
    × (byte_length h.host_key_algorithms ≤ 16384)
    × (byte_length h.notes ≤ 16384)

abbrev pub IsForwardBounded : Forward → Type 0
IsForwardBounded fw =
    (byte_length fw.name ≤ 256)
    × (byte_length fw.mode ≤ 256)
    × (byte_length fw.local_host ≤ 255)
    × (byte_length fw.remote_host ≤ 255)
    × (byte_length fw.description ≤ 16384)

abbrev pub IsRouteBounded : WebRoute → Type 0
IsRouteBounded r =
    (byte_length r.domain ≤ 255)
    × (byte_length r.upstream_scheme ≤ 256)
    × (byte_length r.upstream_host_mode ≤ 256)
    × (byte_length r.tls_sni ≤ 255)
    × (byte_length r.upstream_host ≤ 255)

abbrev pub IsHostKeyBounded : HostKey → Type 0
IsHostKeyBounded k =
    (byte_length k.host ≤ 255)
    × (byte_length k.key_type ≤ 256)
    × (byte_length k.fingerprint_sha256 ≤ 256)

abbrev pub IsPathBounded : String × List ℕ → Type 0
IsPathBounded (path, content) = byte_length path ≤ 4096

abbrev pub IsContentBounded : String × List ℕ → Type 0
IsContentBounded (path, content) = length content ≤ 1048576

abbrev pub total : {A : Type 0} → (A → ℕ) → List A → ℕ
total bytes [] = 0
total bytes (x ∷ xs) = bytes x + total bytes xs

abbrev pub host_bytes : SshHost → ℕ
host_bytes h =
    byte_length h.name
    + byte_length h.host
    + byte_length h.user
    + byte_length h.auth_type
    + byte_length h.key_path
    + byte_length h.agent_socket_path
    + byte_length h.password
    + byte_length h.host_key_algorithms
    + byte_length h.notes

abbrev pub forward_bytes : Forward → ℕ
forward_bytes fw =
    byte_length fw.name
    + byte_length fw.mode
    + byte_length fw.local_host
    + byte_length fw.remote_host
    + byte_length fw.description

abbrev pub route_bytes : WebRoute → ℕ
route_bytes r =
    byte_length r.domain
    + byte_length r.upstream_scheme
    + byte_length r.upstream_host_mode
    + byte_length r.tls_sni
    + byte_length r.upstream_host

abbrev pub host_key_bytes : HostKey → ℕ
host_key_bytes k = byte_length k.host + byte_length k.key_type + byte_length k.fingerprint_sha256

abbrev pub path_bytes : String × List ℕ → ℕ
path_bytes (path, content) = byte_length path

abbrev pub content_bytes : String × List ℕ → ℕ
content_bytes (path, content) = length content

-- the bytes of all texts of a payload
abbrev pub text_bytes : VaultData → List (String × List ℕ) → ℕ
text_bytes d files =
    total (λ f. byte_length f.name) d.folders
    + total host_bytes d.ssh_hosts
    + total forward_bytes d.forwards
    + total route_bytes d.web_routes
    + total host_key_bytes d.host_keys
    + byte_length d.prefs.ui_locale
    + total path_bytes files

pub All-append_inv : (xs ys : List Limit) → All Fits (xs ++ ys) → All Fits xs × All Fits ys
All-append_inv [] ys h = (tt, h)
All-append_inv (x ∷ xs) ys h = let (a, b) = All-append_inv xs ys h.1 in ((h.0, a), b)

pub each_of-All :
    {A : Type 0} (texts : A → List Limit) (P : A → Type 0)
    → ((x : A) → All Fits (texts x) → P x)
    → (xs : List A) → All Fits (each_of texts xs)
    → All P xs
each_of-All texts P one [] h = tt
each_of-All texts P one (x ∷ xs) h =
    let (here, rest) = All-append_inv (texts x) (each_of texts xs) h in
    (one x here, each_of-All texts P one xs rest)

pub each_of-total :
    {A : Type 0} (texts : A → List Limit) (bytes : A → ℕ)
    → ((x : A) → sum (texts x) ≡ bytes x)
    → (xs : List A) → sum (each_of texts xs) ≡ total bytes xs
each_of-total texts bytes one [] = omega arith
each_of-total texts bytes one (x ∷ xs) =
    omega (arith, sum-append (texts x) (each_of texts xs), one x, each_of-total texts bytes one xs)

pub key_bytes-total : (files : List (String × List ℕ)) → key_bytes files ≡ total content_bytes files
key_bytes-total [] = omega arith
key_bytes-total ((path, content) ∷ files) = omega (arith, key_bytes-total files)

pub path_texts-IsPathBounded : (x : String × List ℕ) → All Fits (path_texts x) → IsPathBounded x
path_texts-IsPathBounded (path, content) h = h.0

pub path_texts-bytes : (x : String × List ℕ) → sum (path_texts x) ≡ path_bytes x
path_texts-bytes (path, content) = omega arith

pub contents_bounded :
    (files : List (String × List ℕ)) → All IsKeyFile files → All IsContentBounded files
contents_bounded [] h = tt
contents_bounded ((path, content) ∷ files) h = (h.0, contents_bounded files h.1)
