-- ===== src/Model/Trust.antt =====
-- `VaultData.CheckHostKey` of internal/model/trust.go
use tunnel_board.Prelude.{
  ℕ, String, Bool, ◌==◌, nat_eq, text_eq, ◌&&◌, List, [], ◌∷◌, Option, none, some, if◌then◌else◌,
}
use tunnel_board.Model.{HostKey}

pub data TrustStatus : Type 0 where
  unknown trusted mismatch : TrustStatus

abbrev pub is_for : String → ℕ → HostKey → Bool
is_for host port k = k.host == host && k.port == port

-- The first entry for the endpoint decides; without one the fingerprint is unknown.
unfoldable pub check_host_key : List HostKey → String → ℕ → String → Option HostKey × TrustStatus
check_host_key [] host port fp = (none, unknown)
check_host_key (k ∷ ks) host port fp =
    let rest = check_host_key ks host port fp in
    if is_for host port k
    then (if k.fingerprint_sha256 == fp then (some k, trusted) else (some k, mismatch))
    else rest
