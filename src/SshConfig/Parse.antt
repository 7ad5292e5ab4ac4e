-- ===== src/SshConfig/Parse.antt =====
-- internal/sshconfig/import.go, from the text of the files to the candidates. The operating system and
-- `path/filepath` are an argument: what is not there is none.
use tunnel_board.Prelude.{
  ℕ, zero, suc, String, Char, code, Bool, true, false, ◌==◌, nat_eq, text_eq, ◌||◌, Option, none,
  some, List, [], ◌∷◌, ◌++◌, if◌then◌else◌, trim_space, to_lower, CaseMap, contains,
}
use tunnel_board.Helper.HostsFile.{split_lf, fields}
use tunnel_board.SshConfig.{
  HostPattern, ConfigOption, ConfigEntry, strip_inline_comment, clean_value,
}

infixl 5 ◌>>=◌
abbrev pub ◌>>=◌ {ℓ κ} : {A : Type ℓ} {B : Type κ} → Option A → (A → Option B) → Option B
none >>= next = none
some x >>= next = next x

-- the fields' values without the empty ones, as `splitValueList` gives them
unfoldable pub split_value_list : String → List String
split_value_list value = cleaned (fields value)
  where
    cleaned : List String → List String
    cleaned [] = []
    cleaned (f ∷ fs) =
        let rest = cleaned fs in if clean_value f == "" then rest else clean_value f ∷ rest

abbrev pub host_pattern : String → HostPattern
host_pattern String.[] = record { value = ""; negated = false }
host_pattern (String.◌∷◌ c s) =
    if code c == 33
    then record { value = s; negated = true }
    else record { value = String.◌∷◌ c s; negated = false }

-- `parseHostPatterns`
unfoldable pub parse_host_patterns : String → List HostPattern
parse_host_patterns value = patterns (split_value_list value)
  where
    patterns : List String → List HostPattern
    patterns [] = []
    patterns (f ∷ fs) = host_pattern f ∷ patterns fs

-- a text up to its first blank, tab or `=`, and what follows that one; none where there is none
abbrev pub cut : String → Option (String × String)
cut String.[] = none
cut (String.◌∷◌ c s) =
    if code c == 32 || code c == 9 || code c == 61 then some ("", s) else onto (cut s)
  where
    onto : Option (String × String) → Option (String × String)
    onto none = none
    onto (some (k, v)) = some (String.◌∷◌ c k, v)

abbrev pub without_equals : String → String
without_equals String.[] = String.[]
without_equals (String.◌∷◌ c s) = if code c == 61 then trim_space s else String.◌∷◌ c s

-- `splitDirective`, where it is ok
unfoldable pub split_directive : String → Option (String × String)
split_directive line = if trim_space line == "" then none else directive (cut (trim_space line))
  where
    directive : Option (String × String) → Option (String × String)
    directive none = some (trim_space line, "")
    directive (some (k, v)) =
        if trim_space k == "" then none else some (trim_space k, without_equals (trim_space v))

-- what the parser uses of the operating system: reading a file, the existing files that match a
-- pattern in their order, and the operations on paths
pub record ConfigFiles : Type 0 where
  pub read_file : String → Option String
  pub matching_files : String → Option (List String)
  pub exists : String → Bool
  pub abs : String → Option String
  pub dir : String → String
  pub join : String → String → String
  pub clean : String → String
  pub is_abs : String → Bool
  pub expand_env : String → String
  pub user_home : Option String

-- `parser`
pub record Parser : Type 0 where
  pub visited_files : List String
  pub entries : List ConfigEntry

abbrev pub keep_entry : ConfigEntry → Parser → Parser
keep_entry current p = kept current.options current.patterns
  where
    kept : List ConfigOption → List HostPattern → Parser
    kept [] [] = p
    kept _ _ = record p { entries = p.entries ++ (current ∷ []) }

module _ ⦃m : CaseMap⦄ (os : ConfigFiles) where
  -- the part of `expandPath` after the home directory
  abbrev pub place_path : String → String → String
  place_path expanded base =
      if os.is_abs expanded || trim_space base == ""
      then os.clean expanded
      else os.clean (os.join base expanded)

  -- a path that begins with the given character, a tilde
  abbrev pub home_path : String → Char → String → Option String → Option String
  home_path base t s none = none
  home_path base t String.[] (some home) = some (place_path home base)
  home_path base t (String.◌∷◌ c s) (some home) =
      if code c == 47
      then some (place_path (os.join home s) base)
      else some (place_path (String.◌∷◌ t (String.◌∷◌ c s)) base)

  abbrev pub expanded_path : String → String → Option String
  expanded_path base String.[] = some ""
  expanded_path base (String.◌∷◌ c s) =
      if code c == 126
      then home_path base c s os.user_home
      else some (place_path (String.◌∷◌ c s) base)

  -- `expandPath`
  unfoldable pub expand_path : String → String → Option String
  expand_path raw base = expanded_path base (os.expand_env (trim_space raw))

  -- the files that one `Include` matches, each parsed
  unfoldable pub parse_each :
      (String → Parser → Option Parser) → List String → Parser → Option Parser
  parse_each parse [] p = some p
  parse_each parse (f ∷ fs) p = do q ← parse f p; parse_each parse fs q

  unfoldable pub include_each :
      (String → Parser → Option Parser) → String → List String → Parser → Option Parser
  include_each parse file [] p = some p
  include_each parse file (i ∷ is) p = do
    pattern_path ← expand_path i (os.dir file)
    found ← os.matching_files pattern_path
    q ← parse_each parse found p
    include_each parse file is q

  abbrev pub with_option : String → String → ConfigEntry → ConfigEntry
  with_option key value current = record current {
    options = current.options ++ (record { key = key; value = clean_value value } ∷ []);
  }

  abbrev pub opened_entry : String → String → ConfigEntry
  opened_entry file value = record {
    patterns = parse_host_patterns value;
    options = [];
    source = file;
  }

  abbrev pub included : ConfigEntry → Option Parser → Option (ConfigEntry × Parser)
  included current none = none
  included current (some q) = some (current, q)

  -- what a directive does, if there is one: the entry that is open after it, and the parser
  abbrev pub follow :
      (String → Parser → Option Parser)
      → String
      → ConfigEntry
      → Parser
      → Option (String × String)
      → Option (ConfigEntry × Parser)
  follow parse file current p none = some (current, p)
  follow parse file current p (some (key, value)) =
      if to_lower key == "host"
      then some (opened_entry file value, keep_entry current p)
      else if to_lower key == "include"
      then included current (include_each parse file (split_value_list value) p)
      else if to_lower key == "match"
      then some (current, p)
      else some (with_option (to_lower key) value current, p)

  -- one line of a file
  unfoldable pub parse_line :
      (String → Parser → Option Parser)
      → String
      → String
      → ConfigEntry
      → Parser
      → Option (ConfigEntry × Parser)
  parse_line parse file l current p =
      follow parse file current p (split_directive (strip_inline_comment l))

  -- the loop over the lines, and the last entry
  unfoldable pub parse_lines :
      (String → Parser → Option Parser)
      → String
      → List String
      → ConfigEntry
      → Parser
      → Option Parser
  parse_lines parse file [] current p = some (keep_entry current p)
  parse_lines parse file (l ∷ ls) current p = do
    (opened, q) ← parse_line parse file l current p
    parse_lines parse file ls opened q

  -- what `parseFile` does with a file it has not visited
  unfoldable pub parse_content : (String → Parser → Option Parser) → String → Parser → Option Parser
  parse_content parse file p = do
    content ← os.read_file file
    parse_lines parse file (split_lf content)
        (record { patterns = []; options = []; source = file })
        (record p { visited_files = file ∷ p.visited_files })

  -- `parseFile`; the fuel is how deep includes may nest
  unfoldable pub parse_file : ℕ → String → Parser → Option Parser
  parse_file zero path p = none
  parse_file (suc n) path p = do
    file ← os.abs path
    if contains file p.visited_files then some p else parse_content (parse_file n) file p
