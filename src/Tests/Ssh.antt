-- ===== src/Tests/Ssh.antt =====
-- An alias of two entries.
use tunnel_board.Prelude.{
  contains, is_space, trim_left, trim_right, String, true, arith, ◌≤◌, trim_space, to_lower,
  if◌then◌else◌, text_eq, ◌==◌, none, some, false, List, [], ◌∷◌, ◌≡◌, refl, ascii_case,
}
use tunnel_board.SshConfig.{
  strip_inline_comment, strip_comment, clean_value, ConfigEntry, GoText, resolve_alias,
  derive_warnings, resolve_entries, entry_matches_alias, apply_options, apply_option,
  match_patterns, match_pattern,
}
use tunnel_board.Helper.HostsFile.{split_lf, fields, word_parts}
use tunnel_board.SshConfig.Parse.{
  split_directive, split_value_list, expand_path, ConfigFiles, Parser, parse_file,
}
use tunnel_board.SshConfig.Includes.{IsReadable, parse_file-Parses}
use tunnel_board.SshConfig.Visited.{unvisited}
use tunnel_board.SshConfig.Resolve.{first_of, matching_values, resolve_alias-user}

-- patterns without a wildcard, and one number
abbrev plain : GoText
plain = record {
  path_match = λ p a. some (p == a);
  positive_number = λ s. if s == "2222" then some 2222 else none;
}

abbrev written : List ConfigEntry
written =
    record {
      patterns = record { value = "Bastion"; negated = false } ∷ [];
      options =
          record { key = "user"; value = "" }
          ∷ record { key = "port"; value = "2222" }
          ∷ record { key = "hostname"; value = "10.0.0.1" }
          ∷ [];
      source = "/etc/ssh/config";
    }
    ∷ record {
      patterns = record { value = "other"; negated = false } ∷ [];
      options = record { key = "user"; value = "guest" } ∷ [];
      source = "/etc/ssh/config";
    }
    ∷ record {
      patterns = [];
      options =
          record { key = "user"; value = "ops" } ∷ record { key = "user"; value = "root" } ∷ [];
      source = "/etc/ssh/more";
    }
    ∷ []

resolved :
    ((resolve_alias ⦃m = ascii_case⦄ plain "bastion" written).user ≡ "ops")
    × ((resolve_alias ⦃m = ascii_case⦄ plain "bastion" written).port ≡ 2222)
    × ((resolve_alias ⦃m = ascii_case⦄ plain "bastion" written).host ≡ "10.0.0.1")
    × (derive_warnings (resolve_alias ⦃m = ascii_case⦄ plain "bastion" written)
        ≡ "agent_fallback" ∷ [])
unfolding resolve_alias derive_warnings trim_space resolve_entries entry_matches_alias apply_options
    apply_option match_patterns match_pattern to_lower
resolved = (refl, refl, refl, refl)

resolve_alias-user_example :
    (resolve_alias ⦃m = ascii_case⦄ plain "bastion" written).user
    ≡ first_of (matching_values ⦃m = ascii_case⦄ plain "user" "bastion" written)
resolve_alias-user_example = resolve_alias-user ⦃m = ascii_case⦄ plain "bastion" written

-- two files, which include both
abbrev two_files : ConfigFiles
two_files = record {
  read_file = λ f. some "Include conf.d/*\nHost a\nUser ops\n";
  matching_files = λ glob. if glob == "[" then none else some ("/c/one" ∷ "/c/two" ∷ []);
  exists = λ f. true;
  abs = some;
  dir = λ f. "/c";
  join = λ d f. f;
  clean = λ f. f;
  is_abs = λ f. false;
  expand_env = λ f. f;
  user_home = some "/home";
}

two_files-IsReadable :
    (file : String)
    → contains file ("/c/one" ∷ "/c/two" ∷ []) ≡ true
    → IsReadable ⦃m = ascii_case⦄ two_files ("/c/one" ∷ "/c/two" ∷ []) file
unfolding split_lf split_directive strip_inline_comment strip_comment split_value_list fields
    word_parts clean_value trim_space trim_left trim_right is_space to_lower expand_path
two_files-IsReadable file inside = (
  _,
  refl,
  (
    ((_, refl, (_, refl, (("/c/one", refl, refl), (("/c/two", refl, refl), tt)))), tt),
    (tt, (tt, (tt, tt))),
  ),
)

parse_file-Parses_example :
    (q : Parser) × (parse_file ⦃m = ascii_case⦄ two_files 3 "/c/one"
        (record { visited_files = []; entries = [] })
      ≡ some q)
    × (unvisited ("/c/one" ∷ "/c/two" ∷ []) q.visited_files ≤ 2)
parse_file-Parses_example =
    parse_file-Parses ⦃m = ascii_case⦄ two_files ("/c/one" ∷ "/c/two" ∷ []) two_files-IsReadable 3
      "/c/one" (record { visited_files = []; entries = [] }) ("/c/one", refl, refl) (omega arith)
