-- ===== src/Backup/Limits/Bounds.antt =====
-- What `validateBackupPayload` of internal/vault/backup_limits.go lets through, in numbers.
use tunnel_board.Prelude.{ℕ, ◌+◌, ◌≤◌, String, List, ◌∷◌, ◌++◌, length, ◌≡◌, arith, All}
use tunnel_board.Model.{VaultData}
use tunnel_board.Backup.{gave}
use tunnel_board.Backup.Limits.{
  Limit, byte_length, folder_texts, host_texts, forward_texts, route_texts, host_key_texts,
  validate_backup_payload, text_limit, short_string,
}
use tunnel_board.Backup.Limits.Sums.{
  Fits, sum, sum-append, each_of, path_texts, payload_texts, validate_backup_payload-Fits,
}
use tunnel_board.Backup.Limits.Sizes.{
  IsFolderBounded, IsHostBounded, IsForwardBounded, IsRouteBounded, IsHostKeyBounded, IsPathBounded,
  IsContentBounded, total, host_bytes, forward_bytes, route_bytes, host_key_bytes, path_bytes,
  content_bytes, text_bytes, All-append_inv, each_of-All, each_of-total, key_bytes-total,
  path_texts-IsPathBounded, path_texts-bytes, contents_bounded,
}

-- the texts of a payload in one list, as the check meets them: each is within its limit
texts_bounded :
    (d : VaultData) (files : List (String × List ℕ))
    → All Fits (payload_texts d files)
    → All IsFolderBounded d.folders
      × All IsHostBounded d.ssh_hosts
      × All IsForwardBounded d.forwards
      × All IsRouteBounded d.web_routes
      × All IsHostKeyBounded d.host_keys
      × (byte_length d.prefs.ui_locale ≤ 256)
      × All IsPathBounded files
texts_bounded d files texts =
    let (folders, r₄) = All-append_inv (each_of folder_texts d.folders) _ texts in
    let (hosts, r₅) = All-append_inv (each_of host_texts d.ssh_hosts) _ r₄ in
    let (forwards, r₆) = All-append_inv (each_of forward_texts d.forwards) _ r₅ in
    let (routes, r₇) = All-append_inv (each_of route_texts d.web_routes) _ r₆ in
    let (host_keys, (locale, paths)) = All-append_inv (each_of host_key_texts d.host_keys) _ r₇ in
    (
      each_of-All folder_texts IsFolderBounded (λ f x. x.0) d.folders folders,
      each_of-All host_texts IsHostBounded
          (λ x (a, (b, (c, (e, (f, (g, (i, (j, (k, t))))))))). (a, b, c, e, f, g, i, j, k))
          d.ssh_hosts hosts,
      each_of-All forward_texts IsForwardBounded (λ x (a, (b, (c, (e, (f, t))))). (a, b, c, e, f))
          d.forwards forwards,
      each_of-All route_texts IsRouteBounded (λ x (a, (b, (c, (e, (f, t))))). (a, b, c, e, f))
          d.web_routes routes,
      each_of-All host_key_texts IsHostKeyBounded (λ x (a, (b, (c, t))). (a, b, c)) d.host_keys
          host_keys,
      locale,
      each_of-All path_texts IsPathBounded path_texts-IsPathBounded files paths,
    )

-- the sum of their bytes
texts-text_bytes :
    (d : VaultData) (files : List (String × List ℕ))
    → sum (payload_texts d files) ≡ text_bytes d files
texts-text_bytes d files =
    let t₈ : List Limit =
      text_limit "locale bytes" d.prefs.ui_locale short_string ∷ each_of path_texts files in
    let t₇ : List Limit = each_of host_key_texts d.host_keys ++ t₈ in
    let t₆ : List Limit = each_of route_texts d.web_routes ++ t₇ in
    let t₅ : List Limit = each_of forward_texts d.forwards ++ t₆ in
    let t₄ : List Limit = each_of host_texts d.ssh_hosts ++ t₅ in
    omega (
      arith,
      sum-append (each_of folder_texts d.folders) t₄,
      sum-append (each_of host_texts d.ssh_hosts) t₅,
      sum-append (each_of forward_texts d.forwards) t₆,
      sum-append (each_of route_texts d.web_routes) t₇,
      sum-append (each_of host_key_texts d.host_keys) t₈,
      each_of-total folder_texts (λ f. byte_length f.name) (λ f. omega arith) d.folders,
      each_of-total host_texts host_bytes (λ f. omega arith) d.ssh_hosts,
      each_of-total forward_texts forward_bytes (λ f. omega arith) d.forwards,
      each_of-total route_texts route_bytes (λ f. omega arith) d.web_routes,
      each_of-total host_key_texts host_key_bytes (λ f. omega arith) d.host_keys,
      each_of-total path_texts path_bytes path_texts-bytes files,
    )

-- A payload that the check lets through has at most 500 folders, 1,000 hosts, 5,000 forwards, 2,000
-- routes, 5,000 host keys and 64 key files, and 10,000 entities without the key files. Each text is
-- within its own limit in bytes, as the predicates of Sizes give them, and all texts together have at
-- most 8 MiB; a chain has at most 16 hops; a key file has at most 1 MiB, and all together 16 MiB.
pub validate_backup_payload_bounds :
    (d : VaultData) (files : List (String × List ℕ))
    → validate_backup_payload d files ≡ gave tt
    → ((length d.folders ≤ 500)
        × (length d.ssh_hosts ≤ 1000)
        × (length d.forwards ≤ 5000)
        × (length d.web_routes ≤ 2000)
        × (length d.host_keys ≤ 5000)
        × (length files ≤ 64)
        × (length d.folders
              + length d.ssh_hosts
              + length d.forwards
              + length d.web_routes
              + length d.host_keys
            ≤ 10000))
      × (All IsFolderBounded d.folders
          × All IsHostBounded d.ssh_hosts
          × All IsForwardBounded d.forwards
          × All IsRouteBounded d.web_routes
          × All IsHostKeyBounded d.host_keys
          × (byte_length d.prefs.ui_locale ≤ 256)
          × All IsPathBounded files)
      × (text_bytes d files ≤ 8388608)
      × All (λ fw. length fw.chain_host_ids ≤ 16) d.forwards
      × All IsContentBounded files
      × (total content_bytes files ≤ 16777216)
validate_backup_payload_bounds d files h =
    let (counts, entities, texts, small, hops, contents, keys) =
      validate_backup_payload-Fits d files h in
    let (folders, (hosts, (forwards, (routes, (host_keys, (key_files, t)))))) = counts in
    (
      (folders, hosts, forwards, routes, host_keys, key_files, entities),
      texts_bounded d files texts,
      omega (arith, small, texts-text_bytes d files),
      hops,
      contents_bounded files contents,
      omega (arith, keys, key_bytes-total files),
    )
