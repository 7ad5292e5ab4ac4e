-- ===== src/SshConfig.antt =====
-- internal/sshconfig/import.go, from the parsed entries on, with the helpers on one line of text. The
-- standard library's `path.Match` and `strconv.Atoi` are arguments: no answer is an error.
pub mod Candidates
pub mod Includes
pub mod Parse
pub mod Resolve
pub mod Visited
use tunnel_board.Prelude.{
  ℤ, pos, wrapped_int, is_int, ℕ, ◌*◌, String, Char, code, Bool, true, false, not, ◌==◌, nat_eq,
  text_eq, ◌&&◌, ◌||◌, Option, none, some, List, [], ◌∷◌, if◌then◌else◌, trim_space, to_lower,
  CaseMap, contains, ◌++◌,
}

pub record HostPattern : Type 0 where
  pub value : String
  pub negated : Bool

pub record ConfigOption : Type 0 where
  pub key : String
  pub value : String

pub record ConfigEntry : Type 0 where
  pub patterns : List HostPattern
  pub options : List ConfigOption
  pub source : String

pub record ResolvedAlias : Type 0 where
  pub host : String
  pub user : String
  pub port : ℕ
  pub key_path : String
  pub agent_socket_path : String
  pub keep_alive_interval_ms : ℤ
  pub timeout_ms : ℤ
  pub host_key_algorithms : String
  pub proxy_jump : String
  pub source_path : String
  pub strict_host_key_checking_off : Bool

-- the loop of `stripInlineComment`, with its two flags
unfoldable pub strip_comment : Bool → Bool → String → String
strip_comment single double String.[] = String.[]
strip_comment single double (String.◌∷◌ c s) =
    let toggled = String.◌∷◌ c (strip_comment (not single) double s) in
    let toggled_double = String.◌∷◌ c (strip_comment single (not double) s) in
    let kept = String.◌∷◌ c (strip_comment single double s) in
    if code c == 39 && not double
    then toggled
    else if code c == 34 && not single
    then toggled_double
    else if code c == 35 && not single && not double
    then String.[]
    else kept

-- `stripInlineComment`
unfoldable pub strip_inline_comment : String → String
strip_inline_comment line = strip_comment false false line

-- the last character, and what stands before it
abbrev pub ends_with : ℕ → String → Bool
ends_with q String.[] = false
ends_with q (String.◌∷◌ c String.[]) = code c == q
ends_with q (String.◌∷◌ c (String.◌∷◌ d s)) = ends_with q (String.◌∷◌ d s)

abbrev pub but_last : String → String
but_last String.[] = String.[]
but_last (String.◌∷◌ c String.[]) = String.[]
but_last (String.◌∷◌ c (String.◌∷◌ d s)) = String.◌∷◌ c (but_last (String.◌∷◌ d s))

-- `cleanValue`
unfoldable pub clean_value : String → String
clean_value value = unquoted (trim_space value)
  where
    unquoted : String → String
    unquoted String.[] = String.[]
    unquoted (String.◌∷◌ c s) =
        if (code c == 34 && ends_with 34 s) || (code c == 39 && ends_with 39 s)
        then but_last s
        else String.◌∷◌ c s

-- a wildcard of `strings.ContainsAny(trimmed, "*?")`
abbrev pub has_wildcard : String → Bool
has_wildcard String.[] = false
has_wildcard (String.◌∷◌ c s) = (code c == 42 || code c == 63) || has_wildcard s

-- `isExplicitAlias`
unfoldable pub is_explicit_alias : String → Bool
is_explicit_alias value =
    let trimmed = trim_space value in
    not (trimmed == "") && not (trimmed == "*") && not (has_wildcard trimmed)

-- the inner loop of `collectExplicitAliases`: the aliases of one entry, after what was seen
unfoldable pub collect_patterns :
    ⦃m : CaseMap⦄ → List HostPattern → List String → List String × List String
collect_patterns [] seen = ([], seen)
collect_patterns (p ∷ ps) seen =
    let alias = trim_space p.value in
    let skipped = collect_patterns ps seen in
    let taken = collect_patterns ps (to_lower alias ∷ seen) in
    if p.negated || not (is_explicit_alias p.value)
    then skipped
    else if alias == ""
    then skipped
    else if contains (to_lower alias) seen
    then skipped
    else (alias ∷ taken.0, taken.1)

unfoldable pub collect_entries : ⦃m : CaseMap⦄ → List ConfigEntry → List String → List String
collect_entries [] seen = []
collect_entries (e ∷ es) seen =
    let found = collect_patterns e.patterns seen in found.0 ++ collect_entries es found.1

-- `collectExplicitAliases`
unfoldable pub collect_explicit_aliases : ⦃m : CaseMap⦄ → List ConfigEntry → List String
collect_explicit_aliases es = collect_entries es []

-- `path.Match`, or an error for a bad pattern; `strconv.Atoi` where it gives a positive number
pub record GoText : Type 0 where
  pub path_match : String → String → Option Bool
  pub positive_number : String → Option ℕ

abbrev pub set_number : Option ℕ → (ℕ → ResolvedAlias) → ResolvedAlias → ResolvedAlias
set_number none set out = out
set_number (some n) set out = set n

module _ ⦃m : CaseMap⦄ (go : GoText) where
  -- `matchPattern`
  unfoldable pub match_pattern : String → String → Bool
  match_pattern pattern alias =
      let p = to_lower (trim_space pattern) in
      let a = to_lower (trim_space alias) in
      if (p == "") || (a == "") then false else answer p a (go.path_match p a)
    where
      answer : String → String → Option Bool → Bool
      answer p a none = p == a
      answer p a (some b) = b

  -- the loop of `entryMatchesAlias`, with `hasPositive` and `matchedPositive`
  unfoldable pub match_patterns : List HostPattern → String → Bool → Bool → Bool
  match_patterns [] alias has matched = has && matched
  match_patterns (p ∷ ps) alias has matched =
      let hit = match_pattern p.value alias in
      let skipped = match_patterns ps alias has matched in
      let counted = match_patterns ps alias true (matched || hit) in
      if p.value == ""
      then skipped
      else if p.negated && hit
      then false
      else if p.negated
      then skipped
      else counted

  -- `entryMatchesAlias`
  unfoldable pub entry_matches_alias : ConfigEntry → String → Bool
  entry_matches_alias e alias = matched e.patterns
    where
      matched : List HostPattern → Bool
      matched [] = true
      matched (p ∷ ps) = match_patterns (p ∷ ps) alias false false

  -- the body of the loop over the options, from `stricthostkeychecking` on
  unfoldable pub apply_connection_option : ConfigOption → ResolvedAlias → ResolvedAlias
  apply_connection_option o out =
      if o.key == "stricthostkeychecking"
      then (if (to_lower o.value == "no") || (to_lower o.value == "off")
          then record out { strict_host_key_checking_off = true }
          else out)
      else if o.key == "serveraliveinterval"
      then (if is_int 5000 out.keep_alive_interval_ms
          then set_number (go.positive_number (trim_space o.value))
              (λ n. record out { keep_alive_interval_ms = wrapped_int (n * 1000) }) out
          else out)
      else if o.key == "connecttimeout"
      then (if is_int 5000 out.timeout_ms
          then set_number (go.positive_number (trim_space o.value))
              (λ n. record out { timeout_ms = wrapped_int (n * 1000) }) out
          else out)
      else if o.key == "hostkeyalgorithms"
      then (if (out.host_key_algorithms == "") && not (o.value == "")
          then record out { host_key_algorithms = o.value }
          else out)
      else if o.key == "proxyjump"
      then (if (out.proxy_jump == "") && not (to_lower o.value == "none")
          then record out { proxy_jump = o.value }
          else out)
      else out

  -- the body of the loop over the options
  unfoldable pub apply_option : String → ConfigOption → ResolvedAlias → ResolvedAlias
  apply_option alias o out =
      if o.key == "hostname"
      then (if (out.host == alias) && not (o.value == "")
          then record out { host = o.value }
          else out)
      else if o.key == "user"
      then (if (out.user == "") && not (o.value == "") then record out { user = o.value } else out)
      else if o.key == "port"
      then (if out.port == 22
          then set_number (go.positive_number (trim_space o.value)) (λ n. record out { port = n })
              out
          else out)
      else if o.key == "identityfile"
      then (if (out.key_path == "") && not (o.value == "")
          then record out { key_path = o.value }
          else out)
      else if o.key == "identityagent"
      then (if (out.agent_socket_path == "") && not (to_lower o.value == "none")
          then record out { agent_socket_path = o.value }
          else out)
      else apply_connection_option o out

  unfoldable pub apply_options : String → List ConfigOption → ResolvedAlias → ResolvedAlias
  apply_options alias [] out = out
  apply_options alias (o ∷ os) out = apply_options alias os (apply_option alias o out)

  -- the loop over the entries
  unfoldable pub resolve_entries : String → List ConfigEntry → ResolvedAlias → ResolvedAlias
  resolve_entries alias [] out = out
  resolve_entries alias (e ∷ es) out = resolve_entries alias es (
      if entry_matches_alias e alias
      then apply_options alias e.options
          (if out.source_path == "" then record out { source_path = e.source } else out)
      else out)

  abbrev pub initial_alias : String → ResolvedAlias
  initial_alias alias = record {
    host = alias;
    user = "";
    port = 22;
    key_path = "";
    agent_socket_path = "";
    keep_alive_interval_ms = pos 5000;
    timeout_ms = pos 5000;
    host_key_algorithms = "";
    proxy_jump = "";
    source_path = "";
    strict_host_key_checking_off = false;
  }

  -- `resolveAlias`
  unfoldable pub resolve_alias : String → List ConfigEntry → ResolvedAlias
  resolve_alias alias es =
      let out = resolve_entries alias es (initial_alias alias) in
      if trim_space out.host == "" then record out { host = alias } else out

-- `deriveAuthType`
unfoldable pub derive_auth_type : ResolvedAlias → String
derive_auth_type r = if not (trim_space r.key_path == "") then "ssh_key" else "ssh_agent"

abbrev warn : Bool → String → List String → List String
warn b w ws = if b then w ∷ ws else ws

-- `deriveWarnings`
unfoldable pub derive_warnings : ResolvedAlias → List String
derive_warnings r = warn (trim_space r.user == "") "missing_user" (
    warn (trim_space r.host == "") "missing_host" (
      warn (not (trim_space r.proxy_jump == "")) "proxy_jump" (
        warn ((trim_space r.key_path == "") && (trim_space r.agent_socket_path == ""))
          "agent_fallback" (warn r.strict_host_key_checking_off "host_key_check_disabled" []))))
