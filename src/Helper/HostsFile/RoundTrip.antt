-- ===== src/Helper/HostsFile/RoundTrip.antt =====
-- `RenderManagedHosts` and `ParseManagedHosts` together (internal/helper/hostsfile.go).
use mathlib.Core.List.{append_assoc}
use tunnel_board.Prelude.{
  ◌≡◌, refl, ap, sym, ◌∙◌, String, List, [], ◌∷◌, ◌++◌, All, All-append, take, drop, zero, suc, ℕ,
}
use tunnel_board.Route.Hosts.{HostEntry}
use tunnel_board.Helper.HostsFile.{
  block_begin, block_end, split_lines, join_crlf, Found, no_block, unclosed, closed, find_block,
  entry_lines, render_block, render_managed_hosts, parse_managed_hosts,
}
use tunnel_board.Helper.HostsFile.Lines.{IsLine, split_lines-join_crlf, split_lines-IsLine}
use tunnel_board.Helper.HostsFile.Fields.{
  IsEntry, parse_entries-entry_lines, entry_lines-IsLine, not_contains_end,
}
use tunnel_board.Helper.HostsFile.Block.{
  lines_before, lines_after, place_block-parts, before-no_begin, around, managed_lines-around,
  before-around, after-around,
}

All-take : (i : ℕ) (ls : List String) → All IsLine ls → All IsLine (take i ls)
All-take zero ls h = tt
All-take (suc i) [] h = tt
All-take (suc i) (l ∷ ls) h = (h.0, All-take i ls h.1)

All-drop : (i : ℕ) (ls : List String) → All IsLine ls → All IsLine (drop i ls)
All-drop zero ls h = h
All-drop (suc i) [] h = tt
All-drop (suc i) (l ∷ ls) h = All-drop i ls h.1

before-IsLine : (f : Found) (ls : List String) → All IsLine ls → All IsLine (lines_before f ls)
before-IsLine no_block ls h = h
before-IsLine (unclosed begin) ls h = All-take begin ls h
before-IsLine (closed begin end) ls h = All-take begin ls h

after-IsLine : (f : Found) (ls : List String) → All IsLine ls → All IsLine (lines_after f ls)
after-IsLine no_block ls h = tt
after-IsLine (unclosed begin) ls h = tt
after-IsLine (closed begin end) ls h = All-drop (suc end) ls h

render_block-IsLine : (es : List HostEntry) → All IsEntry es → All IsLine (render_block es)
unfolding render_block
render_block-IsLine [] h = tt
render_block-IsLine (e ∷ es) h = (
  refl,
  All-append IsLine (entry_lines (e ∷ es)) (block_end ∷ []) (entry_lines-IsLine (e ∷ es) h)
      (refl, tt),
)

-- the lines of a hosts file before and after the managed block
abbrev pub outside : List String → List String × List String
outside ls = (lines_before (find_block ls) ls, lines_after (find_block ls) ls)

abbrev assemble : List String × List String → List String → List String
assemble o block = o.0 ++ (block ++ o.1)

render-assemble :
    (content : String) (es : List HostEntry)
    → render_managed_hosts content es
      ≡ join_crlf (assemble (outside (split_lines content)) (render_block es))
unfolding render_managed_hosts
render-assemble content es =
    ap join_crlf
      (place_block-parts (find_block (split_lines content)) (split_lines content) (render_block es))

-- For entries that a line can hold, the lines of the file that `RenderManagedHosts` makes are the
-- lines before the old block, the new block's, and those after the old block, none of them changed.
pub split_lines-render_managed_hosts :
    (content : String) (es : List HostEntry)
    → All IsEntry es
    → split_lines (render_managed_hosts content es)
      ≡ (outside (split_lines content)).0 ++ (render_block es ++ (outside (split_lines content)).1)
split_lines-render_managed_hosts content es h =
    let ls = split_lines content in
    let lines = split_lines-IsLine content in
    rw (render-assemble content es) (
      split_lines-join_crlf _ (
        All-append IsLine _ _ (before-IsLine (find_block ls) ls lines) (
          All-append IsLine _ _ (render_block-IsLine es h)
            (after-IsLine (find_block ls) ls lines))))

module _ (content : String) (e : HostEntry) (es : List HostEntry) (h : All IsEntry (e ∷ es)) where
  abbrev before : List String
  before = (outside (split_lines content)).0

  abbrev after : List String
  after = (outside (split_lines content)).1

  rendered-around :
      split_lines (render_managed_hosts content (e ∷ es))
      ≡ around before (entry_lines (e ∷ es)) after
  unfolding render_block
  rendered-around =
      split_lines-render_managed_hosts content (e ∷ es) h
      ∙ ap (◌++◌ before)
          (ap (◌∷◌ block_begin) (append_assoc (entry_lines (e ∷ es)) (block_end ∷ []) after))

  -- Whatever the file held, non-empty entries that lines can hold, once written, are read back by
  -- `ParseManagedHosts` as they were given.
  pub parse-render_managed_hosts :
      parse_managed_hosts (render_managed_hosts content (e ∷ es)) ≡ e ∷ es
  unfolding parse_managed_hosts
  parse-render_managed_hosts =
      rw
        (
          rendered-around,
          managed_lines-around before (entry_lines (e ∷ es)) after
              (before-no_begin (split_lines content)) (not_contains_end (e ∷ es) h),
        )
        (parse_entries-entry_lines (e ∷ es) h)

  outside-rendered :
      outside (split_lines (render_managed_hosts content (e ∷ es))) ≡ outside (split_lines content)
  outside-rendered =
      let no_begin = before-no_begin (split_lines content) in
      let no_end = not_contains_end (e ∷ es) h in
      rw rendered-around (λ i. (
        before-around before (entry_lines (e ∷ es)) after no_begin no_end i,
        after-around before (entry_lines (e ∷ es)) after no_begin no_end i,
      ))

  -- Non-empty entries that lines can hold, once written, leave no trace under a later write: the
  -- result is that of the later write alone, also when that removes the block.
  pub render-render_managed_hosts :
      (fs : List HostEntry)
      → render_managed_hosts (render_managed_hosts content (e ∷ es)) fs
        ≡ render_managed_hosts content fs
  render-render_managed_hosts fs =
      render-assemble _ fs
      ∙ ap (λ o. join_crlf (assemble o (render_block fs))) outside-rendered
      ∙ sym (render-assemble content fs)
