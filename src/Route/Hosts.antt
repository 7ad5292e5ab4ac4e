-- ===== src/Route/Hosts.antt =====
-- internal/route/hosts.go: `PlanHosts`.
pub mod Plan
use tunnel_board.Prelude.{
  ℕ, String, Bool, true, false, ◌&&◌, ◌||◌, not, ◌==◌, text_eq, contains, List, [], ◌∷◌, ◌++◌,
  Option, none, some, if◌then◌else◌, CaseMap, to_lower, has_suffix,
}
use tunnel_board.Model.{Forward, WebRoute, VaultData}
use tunnel_board.Model.Validate.{forward_by_id}
use tunnel_board.Route.Sorting.{Sorting}

pub record HostEntry : Type 0 where
  pub domain : String
  pub ip : String

abbrev pub loopback_ip : String
loopback_ip = "127.0.0.1"

unfoldable pub is_local_domain : ⦃m : CaseMap⦄ → String → Bool
is_local_domain domain =
    let d = to_lower domain in has_suffix d ".test" || has_suffix d ".localhost"

unfoldable pub needs_confirmation : ⦃m : CaseMap⦄ → String → Bool
unfolding is_local_domain
needs_confirmation domain = not (is_local_domain domain)

abbrev is_local : Option Forward → Bool
is_local none = false
is_local (some fw) = fw.mode == "local"

-- the guards of the loop, but for the domains seen before
unfoldable pub is_planned : List Forward → WebRoute → Bool
is_planned fws r = r.hosts_enabled && is_local (forward_by_id fws r.forward_id)

-- The loop, with the domains seen: the domains in the order of their first route.
unfoldable pub plan_domains : List Forward → List WebRoute → List String → List String
plan_domains fws [] seen = []
plan_domains fws (r ∷ rs) seen =
    let skipped = plan_domains fws rs seen in
    let taken = plan_domains fws rs (r.domain ∷ seen) in
    if not (is_planned fws r) || contains r.domain seen then skipped else r.domain ∷ taken

abbrev pub entries_of : List String → List HostEntry
entries_of [] = []
entries_of (d ∷ ds) = record { domain = d; ip = loopback_ip } ∷ entries_of ds

unfoldable pub confirmations : ⦃m : CaseMap⦄ → List String → List String
unfolding is_local_domain
confirmations [] = []
confirmations (d ∷ ds) =
    let rest = confirmations ds in if not (is_local_domain d) then d ∷ rest else rest

unfoldable pub plan_hosts : ⦃m : CaseMap⦄ (s : Sorting) → VaultData → List HostEntry × List String
unfolding plan_domains confirmations
plan_hosts s d =
    let domains = plan_domains d.forwards d.web_routes [] in
    (
      s.sort HostEntry (λ e. e.domain) (entries_of domains),
      s.sort String (λ name. name) (confirmations domains),
    )
