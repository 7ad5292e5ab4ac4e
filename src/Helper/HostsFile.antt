-- ===== src/Helper/HostsFile.antt =====
-- internal/helper/hostsfile.go: the managed block of a hosts file, as text.
pub mod Lines
pub mod Fields
pub mod Block
pub mod RoundTrip
use tunnel_board.Prelude.{
  cat, ℕ, suc, ◌+◌, String, Char, code, Bool, true, false, ◌&&◌, not, ◌==◌, nat_eq, text_eq, List,
  [], ◌∷◌, ◌++◌, map, Option, none, some, length, take, drop, if◌then◌else◌, is_space,
}
use tunnel_board.Route.Hosts.{HostEntry}

abbrev pub block_begin : String
block_begin = "# >>> TunnelBoard Managed (do not edit) >>>"

abbrev pub block_end : String
block_end = "# <<< TunnelBoard Managed <<<"

abbrev pub crlf : String
crlf = "\r\n"

abbrev pub onto_first : Char → List String → List String
onto_first c [] = String.◌∷◌ c "" ∷ []
onto_first c (l ∷ ls) = String.◌∷◌ c l ∷ ls

-- `strings.Split(s, "\n")`: never empty
unfoldable pub split_lf : String → List String
split_lf String.[] = "" ∷ []
split_lf (String.◌∷◌ c s) =
    let rest = split_lf s in if code c == 10 then "" ∷ rest else onto_first c rest

-- the last line is dropped if it is empty
unfoldable pub drop_last_empty : List String → List String
drop_last_empty [] = []
drop_last_empty (l ∷ []) = if l == "" then [] else l ∷ []
drop_last_empty (l ∷ m ∷ ms) = l ∷ drop_last_empty (m ∷ ms)

-- `strings.TrimSuffix(s, "\r")`
unfoldable pub trim_cr : String → String
trim_cr String.[] = ""
trim_cr (String.◌∷◌ c s) =
    let rest = trim_cr s in if code c == 13 && s == "" then "" else String.◌∷◌ c rest

-- `splitLines`
unfoldable pub split_lines : String → List String
unfolding split_lf drop_last_empty trim_cr
split_lines content = if content == "" then [] else map trim_cr (drop_last_empty (split_lf content))

-- `strings.Join(lines, "\r\n") + "\r\n"`: each line goes before its own line end
unfoldable pub join_crlf : List String → String
join_crlf [] = ""
join_crlf (l ∷ ls) = cat l (cat crlf (join_crlf ls))

-- the position of a line, from the front
unfoldable pub line_index : String → List String → Option ℕ
line_index marker [] = none
line_index marker (l ∷ ls) =
    let rest = line_index marker ls in
    if l == marker then some 0 else elim rest [ none ↦ none | some i ↦ some (suc i) ]

-- The two answers of `findBlock`: the begin marker's position, and that of the first end marker after it.
pub data Found : Type 0 where
  no_block : Found
  unclosed : ℕ → Found
  closed : ℕ → ℕ → Found

unfoldable pub find_block : List String → Found
unfolding line_index
find_block lines = elim (line_index block_begin lines) [
  | none ↦ no_block
  | some begin ↦ elim (line_index block_end (drop (suc begin) lines)) [
    | none ↦ unclosed begin
    | some i ↦ closed begin (suc begin + i)
  ]
]

abbrev pub entry_lines : List HostEntry → List String
entry_lines [] = []
entry_lines (e ∷ es) = cat e.ip (cat " " e.domain) ∷ entry_lines es

unfoldable pub render_block : List HostEntry → List String
render_block [] = []
render_block (e ∷ es) = block_begin ∷ entry_lines (e ∷ es) ++ block_end ∷ []

-- the `switch` of `RenderManagedHosts`
abbrev pub place_block : Found → List String → List String → List String
place_block no_block lines block = lines ++ block
place_block (unclosed begin) lines block = take begin lines ++ block
place_block (closed begin end) lines block = take begin lines ++ block ++ drop (suc end) lines

unfoldable pub render_managed_hosts : String → List HostEntry → String
unfolding split_lines find_block render_block join_crlf
render_managed_hosts content entries =
    let lines = split_lines content in
    join_crlf (place_block (find_block lines) lines (render_block entries))

abbrev pub keep_word : String → List String → List String
keep_word w ws = if w == "" then ws else w ∷ ws

-- the word that the text begins with, and the words after it
unfoldable pub word_parts : String → String × List String
unfolding is_space
word_parts String.[] = ("", [])
word_parts (String.◌∷◌ c s) =
    let rest = word_parts s in
    if is_space c then ("", keep_word rest.0 rest.1) else (String.◌∷◌ c rest.0, rest.1)

-- `strings.Fields`
unfoldable pub fields : String → List String
unfolding word_parts
fields s = let (w, ws) = word_parts s in keep_word w ws

-- `strings.HasPrefix(s, "#")`
abbrev pub is_comment : String → Bool
is_comment String.[] = false
is_comment (String.◌∷◌ c s) = code c == 35

abbrev pub entry_of : List String → Option HostEntry
entry_of (ip ∷ domain ∷ []) =
    if is_comment ip then none else some (record { domain = domain; ip = ip })
entry_of _ = none

abbrev pub with_entry : Option HostEntry → List HostEntry → List HostEntry
with_entry none es = es
with_entry (some e) es = e ∷ es

unfoldable pub parse_entries : List String → List HostEntry
unfolding fields
parse_entries [] = []
parse_entries (l ∷ ls) = with_entry (entry_of (fields l)) (parse_entries ls)

-- `lines[begin+1 : end]`
abbrev pub managed_lines : Found → List String → List String
managed_lines no_block lines = []
managed_lines (unclosed begin) lines = []
managed_lines (closed begin end) lines = drop (suc begin) (take end lines)

unfoldable pub parse_managed_hosts : String → List HostEntry
unfolding split_lines find_block parse_entries
parse_managed_hosts content =
    let lines = split_lines content in parse_entries (managed_lines (find_block lines) lines)
