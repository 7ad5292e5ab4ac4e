-- ===== src/Catalog/Routes.antt =====
-- `SaveWebRoute`, `DeleteWebRoute`
use tunnel_board.Prelude.{
  ℕ, false, ◌==◌, nat_eq, text_eq, [], ◌∷◌, ◌++◌, none, some, if◌then◌else◌, trim_space, CaseMap,
  to_lower,
}
use tunnel_board.Result.{Result, err, not_found, web_route}
use tunnel_board.Model.{WebRoute, VaultData, normalize_upstream_host_selection}
use tunnel_board.Model.Validate.{route_ids}
use tunnel_board.VaultStore.{VaultStore}
use tunnel_board.Catalog.{next_id, commit, run}
use tunnel_board.Catalog.Lists.{index_web_route, set, erase_idx}

-- the assignments before `Update`; a route whose hosts entry is off has no Caddy either
unfoldable pub normalize_web_route : ⦃m : CaseMap⦄ → WebRoute → WebRoute
unfolding normalize_upstream_host_selection
normalize_web_route r₀ =
    let r₁ = record r₀ {
      domain = trim_space (to_lower r₀.domain);
      tls_sni = trim_space r₀.tls_sni;
      upstream_scheme = if r₀.upstream_scheme == "" then "http" else r₀.upstream_scheme;
    } in
    let r = normalize_upstream_host_selection r₁ in
    record r { caddy_enabled = if r.hosts_enabled then r.caddy_enabled else false }

-- the closure of `SaveWebRoute`
unfoldable pub save_web_route_in : WebRoute → VaultData → Result (WebRoute × VaultData)
unfolding commit
save_web_route_in r d =
    if r.id == 0
    then (let created = record r { id = next_id (route_ids d) } in
        commit created (record d { web_routes = d.web_routes ++ created ∷ [] }))
    else elim (index_web_route d.web_routes r.id) [
      | none ↦ err (not_found web_route r.id)
      | some i ↦ commit r (record d { web_routes = set d.web_routes i r })
    ]

unfoldable pub save_web_route :
    ⦃m : CaseMap⦄ (v : VaultStore) → WebRoute → v.State → v.State × Result WebRoute
unfolding normalize_web_route save_web_route_in run
save_web_route v r s = run v (save_web_route_in (normalize_web_route r)) s

-- the closure of `DeleteWebRoute`
unfoldable pub delete_web_route_in : ℕ → VaultData → Result (Unit {0} × VaultData)
unfolding commit
delete_web_route_in id d = elim (index_web_route d.web_routes id) [
  | none ↦ err (not_found web_route id)
  | some i ↦ commit tt (record d { web_routes = erase_idx d.web_routes i })
]

unfoldable pub delete_web_route : (v : VaultStore) → ℕ → v.State → v.State × Result (Unit {0})
unfolding delete_web_route_in run
delete_web_route v id s = run v (delete_web_route_in id) s
