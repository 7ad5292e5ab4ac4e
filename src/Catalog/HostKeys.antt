-- ===== src/Catalog/HostKeys.antt =====
-- internal/biz/trust.go: `HostKeyStatus`, `EnrollHostKey`, `ReplaceHostKey`. The time of the call,
-- `time.Now()`, is an argument.
pub mod Tofu
use tunnel_board.Prelude.{ℕ, String, List, [], ◌∷◌, ◌++◌, map, Option, none, some, if◌then◌else◌}
use tunnel_board.Result.{Result, ok, err, ◌>>=◌, duplicate_host_key}
use tunnel_board.Model.{HostKey, VaultData}
use tunnel_board.Model.Trust.{TrustStatus, unknown, is_for, check_host_key}
use tunnel_board.VaultStore.{VaultStore}
use tunnel_board.Catalog.{next_id, commit, run}

unfoldable pub host_key_status :
    (v : VaultStore) → String → ℕ → String → v.State → Result (Option HostKey × TrustStatus)
host_key_status v host port fp s = do d ← v.load s; ok (check_host_key d.host_keys host port fp)

-- what the user confirmed, and when
pub record Offer : Type 0 where
  pub host : String
  pub port : ℕ
  pub key_type : String
  pub fingerprint : String
  pub now : ℕ

unfoldable pub new_host_key : Offer → List HostKey → HostKey
new_host_key o keys = record {
  id = next_id (map (λ k. k.id) keys);
  host = o.host;
  port = o.port;
  key_type = o.key_type;
  fingerprint_sha256 = o.fingerprint;
  first_seen_at = o.now;
  last_seen_at = o.now;
}

unfoldable pub append_host_key : Offer → VaultData → Result (HostKey × VaultData)
unfolding new_host_key commit
append_host_key o d =
    let enrolled = new_host_key o d.host_keys in
    commit enrolled (record d { host_keys = d.host_keys ++ enrolled ∷ [] })

-- the closure of `EnrollHostKey`
unfoldable pub enroll_host_key_in : Offer → VaultData → Result (HostKey × VaultData)
unfolding append_host_key
enroll_host_key_in o d = elim (check_host_key d.host_keys o.host o.port o.fingerprint).1 [
  | unknown ↦ append_host_key o d
  | _ ↦ err (duplicate_host_key o.host o.port)
]

unfoldable pub enroll_host_key : (v : VaultStore) → Offer → v.State → v.State × Result HostKey
unfolding enroll_host_key_in run
enroll_host_key v o s = run v (enroll_host_key_in o) s

unfoldable pub renewed : Offer → HostKey → HostKey
renewed o k = record k {
  key_type = o.key_type;
  fingerprint_sha256 = o.fingerprint;
  last_seen_at = o.now;
}

abbrev pub in_front : HostKey → Option (HostKey × List HostKey) → Option (HostKey × List HostKey)
in_front k none = none
in_front k (some (r, rest)) = some (r, k ∷ rest)

-- The loop of `ReplaceHostKey`: the new entry and the list that holds it, or none without an entry
-- for the endpoint.
unfoldable pub replace_first : Offer → List HostKey → Option (HostKey × List HostKey)
unfolding renewed
replace_first o [] = none
replace_first o (k ∷ ks) =
    let rest = replace_first o ks in
    if is_for o.host o.port k then some (renewed o k, renewed o k ∷ ks) else in_front k rest

-- the closure of `ReplaceHostKey`
unfoldable pub replace_host_key_in : Offer → VaultData → Result (HostKey × VaultData)
unfolding replace_first append_host_key commit
replace_host_key_in o d = elim (replace_first o d.host_keys) [
  | none ↦ append_host_key o d
  | some (k, keys) ↦ commit k (record d { host_keys = keys })
]

unfoldable pub replace_host_key : (v : VaultStore) → Offer → v.State → v.State × Result HostKey
unfolding replace_host_key_in run
replace_host_key v o s = run v (replace_host_key_in o) s
