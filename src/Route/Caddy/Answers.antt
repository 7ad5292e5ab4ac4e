-- ===== src/Route/Caddy/Answers.antt =====
-- When `CompileCaddy` answers, and with what (internal/route/caddy.go).
use mathlib.Core.List.Perm as P
use tunnel_board.Prelude.{
  String, ◌≡◌, ◌≢◌, refl, subst, ◌⊎◌, inl, inr, Bool, true, false, ◌==◌, text_eq, filter, List, [],
  ◌∷◌, Option, none, some, if◌then◌else◌, all, all-mem, all-of_mem, and_true, All, All-map,
  Bool-cases, arith, eq_iff, trim_space,
}
use tunnel_board.Model.{
  Forward, WebRoute, VaultData, mode_original, mode_tls_sni, mode_custom,
  effective_upstream_host_mode,
}
use tunnel_board.Model.Validate.{is_known_scheme}
use tunnel_board.Model.WellFormed.{IsRouteOk, IsHostSource, IsWellFormed}
use tunnel_board.Route.Sorting.{Sorting}
use tunnel_board.Route.Hosts.{loopback_ip}
use tunnel_board.Route.Caddy.{
  Platform, CaddyTransport, CaddyHeaders, CaddyHandler, Compiled, compiled, fails, then_compiled,
  request_host, upstream_host_for, without_proxy_headers, sets_host, removed_headers, with_host,
  plain_handler, proxy_handler, compile_route, compile_routes, enabled_routes, compile_enabled,
  compile_caddy,
}

-- the `Host` that a route's upstream requests carry
abbrev pub HasHost : WebRoute → String → Type 0
HasHost r host =
    ((effective_upstream_host_mode r ≡ mode_original) × (host ≡ request_host))
    ⊎ ((effective_upstream_host_mode r ≡ mode_tls_sni) × (host ≡ r.tls_sni))
    ⊎ ((effective_upstream_host_mode r ≡ mode_custom) × (host ≡ r.upstream_host))

nonempty : (s : String) → trim_space s ≢ "" → (s == "") ≡ false
unfolding trim_space
nonempty s h = elim (Bool-cases (s == "")) [
  | inl e ↦ absurd (h (rw ((eq_iff s "").0 e) refl))
  | inr e ↦ e
]

upstream_host_for-HasHost :
    (r : WebRoute)
    → IsHostSource r
    → (host : String) × (upstream_host_for r ≡ compiled host) × HasHost r host
unfolding upstream_host_for
upstream_host_for-HasHost r (inl e) = (request_host, rw e refl, inl (e, refl))
upstream_host_for-HasHost r (inr (inl (e, https))) =
    (r.tls_sni, rw (e, https) refl, inr (inl (e, refl)))
upstream_host_for-HasHost r (inr (inr (e, given))) =
    (r.upstream_host, rw (e, nonempty r.upstream_host given) refl, inr (inr (e, refl)))

abbrev pub is_compiled : {A : Type 0} → Compiled A → Bool
is_compiled (compiled a) = true
is_compiled (fails e) = false

proxy_handler-compiled :
    (r : WebRoute) (fw : Forward) → IsHostSource r → is_compiled (proxy_handler r fw) ≡ true
unfolding proxy_handler
proxy_handler-compiled r fw h =
    let (host, e, k) = upstream_host_for-HasHost r h in
    elim (Bool-cases (sets_host r)) [ inl b ↦ rw (b, e) refl | inr b ↦ rw b refl ]

scheme-known : (s : String) → is_known_scheme s ≡ true → (s ≡ "https") ⊎ (s ≡ "http") ⊎ (s ≡ "")
scheme-known s h = ground (arith, eq_iff s "https", eq_iff s "http", eq_iff s "")

then-compiled :
    {A B : Type 0} (m : Compiled A) (k : A → Compiled B)
    → is_compiled m ≡ true
    → ((a : A) → is_compiled (k a) ≡ true)
    → is_compiled (then_compiled m k) ≡ true
then-compiled (compiled a) k h f = f a
then-compiled (fails e) k h f = cc

compile_route-compiled :
    (d : VaultData) (r : WebRoute)
    → IsRouteOk d r
    → is_known_scheme r.upstream_scheme ≡ true
    → is_compiled (compile_route d.forwards r) ≡ true
unfolding compile_route
compile_route-compiled d r k known =
    rw (compile_route, k.found, k.local_target)
      (then-compiled (proxy_handler r k.target) _
        (proxy_handler-compiled r k.target (k.host_source (scheme-known r.upstream_scheme known)))
        (λ h. refl))

compile_routes-compiled :
    (fws : List Forward) (rs : List WebRoute)
    → all (λ r. is_compiled (compile_route fws r)) rs ≡ true
    → is_compiled (compile_routes fws rs) ≡ true
unfolding compile_routes
compile_routes-compiled fws [] h = refl
compile_routes-compiled fws (r ∷ rs) h = then-compiled (compile_route fws r) _ (and_true h).0 (λ c.
    then-compiled (compile_routes fws rs) _ (compile_routes-compiled fws rs (and_true h).1)
      (λ cs. refl))

all-filter :
    (enabled known q : WebRoute → Bool) (rs : List WebRoute)
    → All (λ r. known r ≡ true → q r ≡ true) rs
    → all known (filter enabled rs) ≡ true
    → all q (filter enabled rs) ≡ true
all-filter enabled known q [] h k = refl
all-filter enabled known q (r ∷ rs) h k = elim (Bool-cases (enabled r)) [
  | inl e ↦
      let both = and_true (rw e at k) in
      rw e (rw (h.0 both.0) (all-filter enabled known q rs h.1 both.1))
  | inr e ↦ rw e (all-filter enabled known q rs h.1 (rw e at k))
]

all-enabled :
    (d : VaultData)
    → All (IsRouteOk d) d.web_routes
    → all (λ r. is_known_scheme r.upstream_scheme) (enabled_routes d) ≡ true
    → all (λ r. is_compiled (compile_route d.forwards r)) (enabled_routes d) ≡ true
all-enabled d h =
    all-filter (λ r. r.caddy_enabled) (λ r. is_known_scheme r.upstream_scheme) _ d.web_routes
      (All-map _ _ d.web_routes (λ r. compile_route-compiled d r) h)

all-sort :
    (s : Sorting) (p : WebRoute → Bool) (rs : List WebRoute)
    → all p rs ≡ true
    → all p (s.sort WebRoute (λ e. e.domain) rs) ≡ true
all-sort s p rs h =
    all-of_mem p _
      (λ a m. all-mem p a rs h ((P.mem_iff (s.sort-Perm WebRoute (λ e. e.domain) rs)).0 m))

-- On a well-formed vault whose Caddy routes name one of the upstream schemes, `CompileCaddy` answers
-- with no error.
pub compile_caddy-compiled :
    (p : Platform) (s : Sorting) (d : VaultData)
    → IsWellFormed d
    → all (λ r. is_known_scheme r.upstream_scheme) (enabled_routes d) ≡ true
    → is_compiled (compile_caddy p s d) ≡ true
unfolding compile_caddy
compile_caddy-compiled p s d w known = go (enabled_routes d) (all-enabled d w.routes_ok known)
  where
    go :
        (rs : List WebRoute)
        → all (λ r. is_compiled (compile_route d.forwards r)) rs ≡ true
        → is_compiled (compile_enabled p s d.forwards rs) ≡ true
    go [] h = refl
    go (r ∷ rs) h =
        then-compiled (compile_routes d.forwards (s.sort WebRoute (λ e. e.domain) (r ∷ rs))) _
          (compile_routes-compiled d.forwards _ (all-sort s _ (r ∷ rs) h)) (λ routes. refl)

abbrev pub transport_for : WebRoute → Option CaddyTransport
transport_for r =
    if r.upstream_scheme == "https"
    then some (record { protocol = "http"; server_name = r.tls_sni })
    else none

abbrev Carries : WebRoute → Forward → Compiled CaddyHandler → Type 0
Carries r fw (fails e) = Unit
Carries r fw (compiled h) =
    (h.upstream ≡ (loopback_ip, fw.local_port)) × (h.transport ≡ transport_for r)

kept-Carries :
    (r : WebRoute) (fw : Forward) (h : CaddyHandler)
    → Carries r fw (compiled h)
    → Carries r fw (compiled (without_proxy_headers r h))
unfolding without_proxy_headers
kept-Carries r fw h k = go r.remove_proxy_headers h.headers
  where
    go :
        (b : Bool) (o : Option CaddyHeaders)
        → Carries r fw (
            compiled (
              if b
              then elim o [
                | none ↦ record h {
                  headers = some (record { set_host = none; delete = removed_headers });
                }
                | some hs ↦ record h { headers = some (record hs { delete = removed_headers }) }
              ]
              else h))
    go false o = k
    go true none = k
    go true (some hs) = k

proxy_handler-Carries : (r : WebRoute) (fw : Forward) → Carries r fw (proxy_handler r fw)
unfolding proxy_handler
proxy_handler-Carries r fw = go (sets_host r) refl (upstream_host_for r)
  where
    go :
        (b : Bool)
        → sets_host r ≡ b
        → (m : Compiled String)
        → Carries r fw (
            if b
            then then_compiled m (λ host. compiled (without_proxy_headers r (with_host r fw host)))
            else compiled (without_proxy_headers r (plain_handler fw)))
    go true e (fails f) = tt
    go true e (compiled host) = kept-Carries r fw (with_host r fw host) (refl, refl)
    go false e m =
        let plain : (r.upstream_scheme == "https") ≡ false = ground (arith, e) in
        kept-Carries r fw (plain_handler fw) (refl, rw plain refl)

-- The handler that `proxyHandler` makes dials the forward's local port on the loopback address; to
-- an HTTPS upstream it always speaks TLS with the route's SNI, and to another one never.
pub proxy_handler-transport :
    (r : WebRoute) (fw : Forward) (h : CaddyHandler)
    → proxy_handler r fw ≡ compiled h
    → (h.upstream ≡ (loopback_ip, fw.local_port)) × (h.transport ≡ transport_for r)
proxy_handler-transport r fw h e = subst (Carries r fw) e (proxy_handler-Carries r fw)
