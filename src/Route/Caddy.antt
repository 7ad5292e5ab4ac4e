-- ===== src/Route/Caddy.antt =====
-- internal/route/caddy.go: `CompileCaddy` and `proxyHandler`, up to the JSON text, and the addresses
-- of internal/loopbackhttps/addr.go. An address is a pair of host and port where the source formats
-- a text.
pub mod Answers
use tunnel_board.Prelude.{
  ℕ, String, Bool, true, false, ◌||◌, not, ◌==◌, text_eq, contains, filter, List, [], ◌∷◌, Option,
  none, some, Endpoint, if◌then◌else◌,
}
use tunnel_board.Model.{
  Forward, WebRoute, VaultData, mode_original, mode_tls_sni, mode_custom,
  effective_upstream_host_mode,
}
use tunnel_board.Model.Validate.{forward_by_id, mode_local}
use tunnel_board.Route.Sorting.{Sorting}
use tunnel_board.Route.Hosts.{loopback_ip}

abbrev pub public_port : ℕ
public_port = 443

abbrev pub darwin_unprivileged_port : ℕ
darwin_unprivileged_port = 17443

-- the operating system, as far as the program looks at it
pub data Platform : Type 0 where
  darwin other : Platform

unfoldable pub bind_port : Platform → ℕ
bind_port darwin = darwin_unprivileged_port
bind_port other = public_port

unfoldable pub bind_addr : Platform → Endpoint
unfolding bind_port
bind_addr p = (loopback_ip, bind_port p)

pub record CaddyTransport : Type 0 where
  pub protocol : String
  pub server_name : String

pub record CaddyHeaders : Type 0 where
  -- the `Host` that the map `Set` holds, if any
  pub set_host : Option String
  pub delete : List String

pub record CaddyHandler : Type 0 where
  pub handler : String
  pub transport : Option CaddyTransport
  pub headers : Option CaddyHeaders
  pub upstream : Endpoint

pub record CaddyRoute : Type 0 where
  pub match_host : String
  pub handle : CaddyHandler
  pub terminal : Bool

pub record CaddyConfig : Type 0 where
  pub https_port : ℕ
  pub listen : Endpoint
  pub routes : List CaddyRoute
  pub disable_redirects : Bool
  pub subjects : List String
  pub issuer : String
  pub install_trust : Bool

pub data CaddyError : Type 0 where
  missing_forward non_local_forward tls_sni_needs_https : ℕ → CaddyError
  custom_host_required invalid_host_mode : ℕ → CaddyError

pub data Compiled (A : Type 0) : Type 0 where
  compiled : A → Compiled A
  fails : CaddyError → Compiled A

abbrev pub then_compiled : {A B : Type 0} → Compiled A → (A → Compiled B) → Compiled B
then_compiled (compiled a) k = k a
then_compiled (fails e) k = fails e

abbrev pub request_host : String
request_host = "{http.request.host}"

-- the `switch` of `proxyHandler`
unfoldable pub upstream_host_for : WebRoute → Compiled String
upstream_host_for r =
    let mode = effective_upstream_host_mode r in
    if mode == mode_original
    then compiled request_host
    else if mode == mode_tls_sni
    then (if not (r.upstream_scheme == "https")
        then fails (tls_sni_needs_https r.id)
        else compiled r.tls_sni)
    else if mode == mode_custom
    then (if r.upstream_host == ""
        then fails (custom_host_required r.id)
        else compiled r.upstream_host)
    else fails (invalid_host_mode r.id)

abbrev pub removed_headers : List String
removed_headers = "Forwarded" ∷ "X-Forwarded-*" ∷ "X-Real-IP" ∷ "Via" ∷ []

-- the last step of `proxyHandler`
unfoldable pub without_proxy_headers : WebRoute → CaddyHandler → CaddyHandler
without_proxy_headers r h =
    if r.remove_proxy_headers
    then elim h.headers [
      | none ↦ record h { headers = some (record { set_host = none; delete = removed_headers }) }
      | some hs ↦ record h { headers = some (record hs { delete = removed_headers }) }
    ]
    else h

abbrev plain_handler : Forward → CaddyHandler
plain_handler fw = record {
  handler = "reverse_proxy";
  transport = none;
  headers = none;
  upstream = (loopback_ip, fw.local_port);
}

abbrev with_host : WebRoute → Forward → String → CaddyHandler
with_host r fw host = record (plain_handler fw) {
  transport =
      if r.upstream_scheme == "https"
      then some (record { protocol = "http"; server_name = r.tls_sni })
      else none;
  headers = some (record { set_host = some host; delete = [] });
}

abbrev pub sets_host : WebRoute → Bool
sets_host r = r.upstream_scheme == "https" || not (effective_upstream_host_mode r == mode_original)

unfoldable pub proxy_handler : WebRoute → Forward → Compiled CaddyHandler
unfolding upstream_host_for without_proxy_headers
proxy_handler r fw =
    if sets_host r
    then then_compiled (upstream_host_for r)
        (λ host. compiled (without_proxy_headers r (with_host r fw host)))
    else compiled (without_proxy_headers r (plain_handler fw))

abbrev route_for : WebRoute → CaddyHandler → CaddyRoute
route_for r h = record { match_host = r.domain; handle = h; terminal = true }

-- the loop's body for one route
unfoldable pub compile_route : List Forward → WebRoute → Compiled CaddyRoute
unfolding proxy_handler
compile_route fws r = elim (forward_by_id fws r.forward_id) [
  | none ↦ fails (missing_forward r.id)
  | some fw ↦
      if not (fw.mode == mode_local)
      then fails (non_local_forward r.id)
      else then_compiled (proxy_handler r fw) (λ h. compiled (route_for r h))
]

unfoldable pub compile_routes : List Forward → List WebRoute → Compiled (List CaddyRoute)
unfolding compile_route
compile_routes fws [] = compiled []
compile_routes fws (r ∷ rs) =
    then_compiled (compile_route fws r)
      (λ c. then_compiled (compile_routes fws rs) (λ cs. compiled (c ∷ cs)))

-- the domains of the loop, with those seen
unfoldable pub subjects_of : List WebRoute → List String → List String
subjects_of [] seen = []
subjects_of (r ∷ rs) seen =
    let skipped = subjects_of rs seen in
    let taken = subjects_of rs (r.domain ∷ seen) in
    if contains r.domain seen then skipped else r.domain ∷ taken

abbrev pub enabled_routes : VaultData → List WebRoute
enabled_routes d = filter (λ r. r.caddy_enabled) d.web_routes

abbrev config_of : Platform → List String → List CaddyRoute → CaddyConfig
config_of p subjects routes = record {
  https_port = bind_port p;
  listen = bind_addr p;
  routes = routes;
  disable_redirects = true;
  subjects = subjects;
  issuer = "internal";
  install_trust = false;
}

abbrev compile_enabled :
    Platform → Sorting → List Forward → List WebRoute → Compiled (Option CaddyConfig)
compile_enabled p s fws [] = compiled none
compile_enabled p s fws (r ∷ rs) =
    let enabled = s.sort WebRoute (λ e. e.domain) (r ∷ rs) in
    then_compiled (compile_routes fws enabled) (λ routes.
      compiled (some (config_of p (s.sort String (λ name. name) (subjects_of enabled [])) routes)))

-- `CompileCaddy`: none is "no Caddy to run"
unfoldable pub compile_caddy : Platform → Sorting → VaultData → Compiled (Option CaddyConfig)
unfolding compile_routes subjects_of bind_port bind_addr
compile_caddy p s d = compile_enabled p s d.forwards (enabled_routes d)
