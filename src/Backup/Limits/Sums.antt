-- ===== src/Backup/Limits/Sums.antt =====
-- The tables and the sums of `validateBackupPayload` (internal/vault/backup_limits.go).
use tunnel_board.Prelude.{
  ℕ, ◌+◌, ◌≤◌, String, List, [], ◌∷◌, ◌++◌, length, ◌≡◌, arith, All, All-append, All-map,
}
use tunnel_board.Model.{VaultData}
use tunnel_board.Backup.{gave, ◌>>=◌, >>=-eq-gave}
use tunnel_board.Backup.Limits.{
  Limit, within, text_limit, check_all, check_entities, check_key_files, folder_texts, host_texts,
  forward_texts, chain_hops, route_texts, host_key_texts, payload_counts, entities,
  validate_backup_payload, max_key_file_bytes, max_all_keys_bytes, max_all_strings, max_entities,
  path_string, short_string, nothing_before, byte_length,
}

abbrev pub Fits : Limit → Type 0
Fits l = l.got ≤ l.limit

abbrev pub sum : List Limit → ℕ
sum [] = 0
sum (l ∷ ls) = l.got + sum ls

abbrev pub each_of : {A : Type 0} → (A → List Limit) → List A → List Limit
each_of texts [] = []
each_of texts (x ∷ xs) = texts x ++ each_of texts xs

pub sum-append : (xs ys : List Limit) → sum (xs ++ ys) ≡ sum xs + sum ys
sum-append [] ys = omega arith
sum-append (x ∷ xs) ys = omega (arith, sum-append xs ys)

within-Fits : (l : Limit) → within l ≡ gave tt → Fits l
within-Fits l h = ground arith

check_all-Fits :
    (ls : List Limit) (t t' : ℕ) → check_all ls t ≡ gave t' → All Fits ls × (t' ≡ t + sum ls)
unfolding check_all
check_all-Fits [] t t' h = (tt, ground arith)
check_all-Fits (l ∷ ls) t t' h =
    let (u, a, b) = >>=-eq-gave (within l) (λ u. check_all ls (t + l.got)) h in
    let (fits, total) = check_all-Fits ls (t + l.got) t' b in
    ((within-Fits l a, fits), omega (arith, total))

check_entities-Fits :
    {A : Type 0} (before texts : A → List Limit) (xs : List A) (t t' : ℕ)
    → check_entities before texts xs t ≡ gave t'
    → All (λ x. All Fits (before x)) xs
      × All Fits (each_of texts xs)
      × (t' ≡ t + sum (each_of texts xs))
unfolding check_entities
check_entities-Fits before texts [] t t' h = (tt, tt, ground arith)
check_entities-Fits before texts (x ∷ xs) t t' h =
    let (s, a, b) =
      >>=-eq-gave (check_all (before x) 0)
        (λ s. check_all (texts x) t >>= check_entities before texts xs) h in
    let (u, c, d) = >>=-eq-gave (check_all (texts x) t) (check_entities before texts xs) b in
    let (firsts, skipped) = check_all-Fits (before x) 0 s a in
    let (here, sum_here) = check_all-Fits (texts x) t u c in
    let (befores, rest, sum_rest) = check_entities-Fits before texts xs u t' d in
    (
      (firsts, befores),
      All-append Fits (texts x) (each_of texts xs) here rest,
      omega (arith, sum_here, sum_rest, sum-append (texts x) (each_of texts xs)),
    )

abbrev pub path_texts : String × List ℕ → List Limit
path_texts (path, content) = text_limit "key file path bytes" path path_string ∷ []

abbrev pub key_bytes : List (String × List ℕ) → ℕ
key_bytes [] = 0
key_bytes ((path, content) ∷ files) = length content + key_bytes files

abbrev pub IsKeyFile : String × List ℕ → Type 0
IsKeyFile (path, content) = length content ≤ max_key_file_bytes

check_key_files-Fits :
    (files : List (String × List ℕ)) (t k t' k' : ℕ)
    → check_key_files files t k ≡ gave (t', k')
    → All Fits (each_of path_texts files)
      × All IsKeyFile files
      × (t' ≡ t + sum (each_of path_texts files))
      × (k' ≡ k + key_bytes files)
unfolding check_key_files check_all
check_key_files-Fits [] t k t' k' h = (tt, tt, ground arith, ground arith)
check_key_files-Fits ((path, content) ∷ files) t k t' k' h =
    ground (arith, check_key_files-Fits files (t + byte_length path) (k + length content) t' k')

-- every text of the payload, with its limit
abbrev pub payload_texts : VaultData → List (String × List ℕ) → List Limit
payload_texts d files =
    each_of folder_texts d.folders
    ++ (each_of host_texts d.ssh_hosts
        ++ (each_of forward_texts d.forwards
            ++ (each_of route_texts d.web_routes
                ++ (each_of host_key_texts d.host_keys
                    ++ (text_limit "locale bytes" d.prefs.ui_locale short_string
                        ∷ each_of path_texts files)))))

-- each limit of the tables is kept, and so is each sum
pub validate_backup_payload-Fits :
    (d : VaultData) (files : List (String × List ℕ))
    → validate_backup_payload d files ≡ gave tt
    → All Fits (payload_counts d files)
      × (entities d ≤ max_entities)
      × All Fits (payload_texts d files)
      × (sum (payload_texts d files) ≤ max_all_strings)
      × All (λ fw. Fits (chain_hops fw)) d.forwards
      × All IsKeyFile files
      × (key_bytes files ≤ max_all_keys_bytes)
unfolding validate_backup_payload
validate_backup_payload-Fits d files h =
    let entity_limit : Limit = record {
      name = "entities";
      got = entities d;
      limit = max_entities;
    } in
    let (z, h₁, r₁) = >>=-eq-gave (check_all (payload_counts d files) 0) _ h in
    let (_, h₂, r₂) = >>=-eq-gave (within entity_limit) _ r₁ in
    let (a, h₃, r₃) = >>=-eq-gave (check_entities nothing_before folder_texts d.folders 0) _ r₂ in
    let (b, h₄, r₄) = >>=-eq-gave (check_entities nothing_before host_texts d.ssh_hosts a) _ r₃ in
    let (c, h₅, r₅) =
      >>=-eq-gave (check_entities (λ fw. chain_hops fw ∷ []) forward_texts d.forwards b) _ r₄ in
    let (e, h₆, r₆) = >>=-eq-gave (check_entities nothing_before route_texts d.web_routes c) _ r₅ in
    let (f, h₇, r₇) =
      >>=-eq-gave (check_entities nothing_before host_key_texts d.host_keys e) _ r₆ in
    let (g, h₈, r₈) =
      >>=-eq-gave (check_all (text_limit "locale bytes" d.prefs.ui_locale short_string ∷ []) f) _
        r₇ in
    let (sums, h₉, r₉) = >>=-eq-gave (check_key_files files g 0) _ r₈ in
    let key_limit : Limit = record {
      name = "all key file bytes";
      got = sums.1;
      limit = max_all_keys_bytes;
    } in
    let string_limit : Limit = record {
      name = "all string bytes";
      got = sums.0;
      limit = max_all_strings;
    } in
    let (_, h₀, last) = >>=-eq-gave (within key_limit) _ r₉ in
    let p₃ = check_entities-Fits nothing_before folder_texts d.folders 0 a h₃ in
    let p₄ = check_entities-Fits nothing_before host_texts d.ssh_hosts a b h₄ in
    let p₅ = check_entities-Fits (λ fw. chain_hops fw ∷ []) forward_texts d.forwards b c h₅ in
    let p₆ = check_entities-Fits nothing_before route_texts d.web_routes c e h₆ in
    let p₇ = check_entities-Fits nothing_before host_key_texts d.host_keys e f h₇ in
    let p₈ =
      check_all-Fits (text_limit "locale bytes" d.prefs.ui_locale short_string ∷ []) f g h₈ in
    let p₉ = check_key_files-Fits files g 0 sums.0 sums.1 h₉ in
    let small = within-Fits string_limit last in
    let keys = within-Fits key_limit h₀ in
    let t₈ : List Limit =
      text_limit "locale bytes" d.prefs.ui_locale short_string ∷ each_of path_texts files in
    let t₇ : List Limit = each_of host_key_texts d.host_keys ++ t₈ in
    let t₆ : List Limit = each_of route_texts d.web_routes ++ t₇ in
    let t₅ : List Limit = each_of forward_texts d.forwards ++ t₆ in
    let t₄ : List Limit = each_of host_texts d.ssh_hosts ++ t₅ in
    (
      (check_all-Fits (payload_counts d files) 0 z h₁).0,
      within-Fits entity_limit h₂,
      All-append Fits _ t₄ p₃.1 (
          All-append Fits _ t₅ p₄.1 (
            All-append Fits _ t₆ p₅.1
              (All-append Fits _ t₇ p₆.1 (All-append Fits _ t₈ p₇.1 (p₈.0.0, p₉.0))))),
      omega (
        arith,
        p₃.2,
        p₄.2,
        p₅.2,
        p₆.2,
        p₇.2,
        p₈.1,
        p₉.2,
        small,
        sum-append (each_of folder_texts d.folders) t₄,
        sum-append (each_of host_texts d.ssh_hosts) t₅,
        sum-append (each_of forward_texts d.forwards) t₆,
        sum-append (each_of route_texts d.web_routes) t₇,
        sum-append (each_of host_key_texts d.host_keys) t₈,
      ),
      All-map (λ fw. All Fits (chain_hops fw ∷ [])) (λ fw. Fits (chain_hops fw)) d.forwards
          (λ fw q. q.0) p₅.0,
      p₉.1,
      omega (arith, keys, p₉.3),
    )
