-- ===== src/Tests/Files.antt =====
-- Hosts entries, Caddy and the privileged helper.
use tunnel_board.Prelude.{
  ◌≡◌, refl, ◌↔◌, ◌⊎◌, true, String, List, [], ◌∷◌, ◌++◌, Mem, Nodup, some, none, text_eq,
  ascii_case, to_lower, trim_space, is_space, is_control,
}
use tunnel_board.Model.{WebRoute, effective_upstream_host_mode}
use tunnel_board.Route.Sorting.{by_insertion, IsSorted}
use tunnel_board.Route.Hosts.{HostEntry, loopback_ip, plan_hosts}
use tunnel_board.Route.Hosts.Plan.{domains_of, Wants, plan_hosts-domains, plan_hosts-ordered}
use tunnel_board.Route.Caddy.{
  other, proxy_handler, upstream_host_for, without_proxy_headers, CaddyHandler, compiled,
  compile_caddy, removed_headers,
}
use tunnel_board.Route.Caddy.Answers.{
  is_compiled, transport_for, compile_caddy-compiled, proxy_handler-transport,
}
use tunnel_board.Helper.HostsFile.{
  split_lf, drop_last_empty, trim_cr, split_lines, join_crlf, line_index, find_block, render_block,
  render_managed_hosts, parse_managed_hosts,
}
use tunnel_board.Helper.HostsFile.Fields.{IsEntry}
use tunnel_board.Helper.HostsFile.RoundTrip.{
  outside, split_lines-render_managed_hosts, parse-render_managed_hosts,
  render-render_managed_hosts,
}
use tunnel_board.Helper.Disk.{
  Disk, Faults, goes_through, fails_with, text_of, Rewritten, write_managed_hosts,
  write_managed_hosts-Rewritten,
}
use tunnel_board.Helper.Transaction.{Steps, Meaning, write_transaction, write_transaction-Meaning}
use tunnel_board.Helper.Protocol.{
  Request, accepted, validate_domain, has_dot, has_space_or_control, check_entries,
  validate_host_entries, validate_request, Surroundings, dispatch, handle_request, op_ping,
}
use tunnel_board.Helper.Protocol.Requests.{IsSafe, is_success, validate_host_entries-IsSafe}
use tunnel_board.Helper.Protocol.Answers.{
  apply_request, writes, handle_request-parse, handle_request-untouched,
}
use tunnel_board.Tests.Vault.{small, web, app_route, small-IsWellFormed}

plan_hosts-domains_example :
    Mem "app.test" (domains_of (plan_hosts ⦃m = ascii_case⦄ by_insertion small).0)
    ↔ ((r : WebRoute) × Mem r small.web_routes × Wants small.forwards "app.test" r)
plan_hosts-domains_example = plan_hosts-domains ⦃m = ascii_case⦄ by_insertion small "app.test"

plan_hosts-ordered_example :
    IsSorted (λ e. e.domain) (plan_hosts ⦃m = ascii_case⦄ by_insertion small).0
    × Nodup (domains_of (plan_hosts ⦃m = ascii_case⦄ by_insertion small).0)
plan_hosts-ordered_example = plan_hosts-ordered ⦃m = ascii_case⦄ by_insertion small

compile_caddy-compiled_example : is_compiled (compile_caddy other by_insertion small) ≡ true
compile_caddy-compiled_example =
    compile_caddy-compiled other by_insertion small small-IsWellFormed refl

abbrev app_handler : CaddyHandler
app_handler = record {
  handler = "reverse_proxy";
  transport = some (record { protocol = "http"; server_name = "app.example.org" });
  headers = some (record { set_host = some "app.example.org"; delete = removed_headers });
  upstream = ("127.0.0.1", 8443);
}

app_test : proxy_handler app_route web ≡ compiled app_handler
unfolding proxy_handler upstream_host_for without_proxy_headers effective_upstream_host_mode
    trim_space is_space
app_test = refl

proxy_handler-transport_example :
    (app_handler.upstream ≡ (loopback_ip, web.local_port))
    × (app_handler.transport ≡ transport_for app_route)
proxy_handler-transport_example = proxy_handler-transport app_route web app_handler app_test

abbrev app : HostEntry
app = record { domain = "app.test"; ip = "127.0.0.1" }

abbrev api : HostEntry
api = record { domain = "api.test"; ip = "127.0.0.1" }

app-IsEntry : IsEntry app
unfolding is_space
app-IsEntry = record { ip_word = (refl, refl); not_comment = refl; domain_word = (refl, refl) }

abbrev old_text : String
old_text =
    "127.0.0.1 localhost\n# >>> TunnelBoard Managed (do not edit) >>>\n127.0.0.1 old.test\n# <<< TunnelBoard Managed <<<\n::1 localhost\n"

rendered_test :
    render_managed_hosts old_text (app ∷ [])
    ≡ "127.0.0.1 localhost\r\n# >>> TunnelBoard Managed (do not edit) >>>\r\n127.0.0.1 app.test\r\n# <<< TunnelBoard Managed <<<\r\n::1 localhost\r\n"
unfolding render_managed_hosts split_lines split_lf drop_last_empty trim_cr find_block line_index
    render_block join_crlf
rendered_test = refl

split_lines-render_managed_hosts_example :
    split_lines (render_managed_hosts old_text (app ∷ []))
    ≡ (outside (split_lines old_text)).0
      ++ (render_block (app ∷ []) ++ (outside (split_lines old_text)).1)
split_lines-render_managed_hosts_example =
    split_lines-render_managed_hosts old_text (app ∷ []) (app-IsEntry, tt)

parse-render_managed_hosts_example :
    parse_managed_hosts (render_managed_hosts old_text (app ∷ [])) ≡ app ∷ []
parse-render_managed_hosts_example = parse-render_managed_hosts old_text app [] (app-IsEntry, tt)

render-render_managed_hosts_example :
    render_managed_hosts (render_managed_hosts old_text (app ∷ [])) []
    ≡ render_managed_hosts old_text []
render-render_managed_hosts_example =
    render-render_managed_hosts old_text app [] (app-IsEntry, tt) []

abbrev full_disk : Faults
full_disk = record {
  reads = true;
  writes_backup = goes_through;
  writes_temp = fails_with (some "127");
  renames = true;
  reads_backup = true;
  restores = goes_through;
}

abbrev disk : Disk
disk = record { hosts = some old_text; backup = none; temp = none }

write_managed_hosts-Rewritten_example :
    Rewritten disk (app ∷ []) (write_managed_hosts full_disk (app ∷ []) disk)
write_managed_hosts-Rewritten_example = write_managed_hosts-Rewritten full_disk (app ∷ []) disk

abbrev all_steps : Steps
all_steps = record {
  reads = true;
  creates = true;
  writes = true;
  reads_again = true;
  writes_again = true;
  closes = true;
  renames = true;
}

-- the first domain stands for the digest
abbrev first_domain : List HostEntry → String
first_domain [] = "none"
first_domain (e ∷ es) = e.domain

write_transaction-Meaning_example :
    Meaning first_domain (app ∷ []) "old.test" (some old_text) (some "changed") (
      write_transaction first_domain all_steps
        (app ∷ [])
        "old.test"
        (some old_text)
        (some "changed"))
write_transaction-Meaning_example =
    write_transaction-Meaning first_domain all_steps (app ∷ []) "old.test" (some old_text)
      (some "changed")

safe_test : validate_host_entries ⦃m = ascii_case⦄ (app ∷ api ∷ []) ≡ accepted
unfolding validate_host_entries check_entries validate_domain has_dot has_space_or_control is_space
    is_control to_lower
safe_test = refl

validate_host_entries-IsSafe_example : IsSafe ⦃m = ascii_case⦄ (app ∷ api ∷ [])
validate_host_entries-IsSafe_example =
    validate_host_entries-IsSafe ⦃m = ascii_case⦄ (app ∷ api ∷ []) safe_test

abbrev around_helper : Surroundings
around_helper = record {
  version = "1.0";
  digest = first_domain;
  faults = record full_disk { writes_temp = goes_through };
  steps = all_steps;
  meanwhile = λ d. d;
}

abbrev ping : Request
ping = record (apply_request [] "" "") { op = op_ping }

handle_request-untouched_example :
    ((handle_request around_helper ⦃m = ascii_case⦄ ping disk).0 ≡ disk)
    ⊎ ((validate_request ⦃m = ascii_case⦄ ping ≡ accepted) × (writes ping ≡ true))
handle_request-untouched_example = handle_request-untouched ⦃m = ascii_case⦄ around_helper disk ping

applied_test :
    is_success
      (handle_request around_helper ⦃m = ascii_case⦄ (apply_request (app ∷ []) "" "") disk).1
    ≡ true
unfolding handle_request validate_request validate_host_entries check_entries validate_domain
    has_dot has_space_or_control is_space is_control to_lower dispatch write_managed_hosts
applied_test = refl

handle_request-parse_example :
    (validate_request ⦃m = ascii_case⦄ (apply_request (app ∷ []) "" "") ≡ accepted)
    × (parse_managed_hosts (
          text_of
            (handle_request around_helper ⦃m = ascii_case⦄
              (apply_request (app ∷ []) "" "")
              disk).0.hosts)
        ≡ app ∷ [])
handle_request-parse_example =
    handle_request-parse ⦃m = ascii_case⦄ around_helper disk app [] "" "" applied_test
