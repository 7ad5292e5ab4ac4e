-- ===== src/Helper/HostsFile/Fields.antt =====
-- An entry's line is parsed back to the entry (internal/helper/hostsfile.go).
use tunnel_board.Prelude.{
  cat, String, Char, code, ◌≡◌, refl, ap, sym, ◌∙◌, Bool, true, false, ◌&&◌, not, ◌==◌, nat_eq,
  text_eq, inl, inr, List, [], ◌∷◌, All, Bool-cases, and_true, arith, eq_iff, is_space, contains,
  false≢true, true≢false,
}
use tunnel_board.Route.Hosts.{HostEntry}
use tunnel_board.Helper.HostsFile.{
  block_end, word_parts, fields, is_comment, entry_lines, parse_entries,
}
use tunnel_board.Helper.HostsFile.Lines.{IsLine}

abbrev pub no_space : String → Bool
no_space String.[] = true
no_space (String.◌∷◌ c s) = not (is_space c) && no_space s

-- a text that `strings.Fields` leaves in one piece
abbrev pub IsWord : String → Type 0
IsWord s = ((s == "") ≡ false) × (no_space s ≡ true)

-- an entry that a line can hold
pub record IsEntry (e : HostEntry) : Type 0 where
  pub ip_word : IsWord e.ip
  pub not_comment : is_comment e.ip ≡ false
  pub domain_word : IsWord e.domain

no_space-cons :
    (c : Char) (s : String)
    → no_space (String.◌∷◌ c s) ≡ true
    → (is_space c ≡ false) × (no_space s ≡ true)
no_space-cons c s h = (ground arith, (and_true h).1)

word_parts-word : (s : String) → no_space s ≡ true → word_parts s ≡ (s, [])
unfolding word_parts
word_parts-word String.[] h = refl
word_parts-word (String.◌∷◌ c s) h =
    let (blank, rest) = no_space-cons c s h in rw (blank, word_parts-word s rest) refl

word_parts-append :
    (s t : String) → no_space s ≡ true → IsWord t → word_parts (cat s (cat " " t)) ≡ (s, t ∷ [])
unfolding word_parts
word_parts-append String.[] t h k = rw (word_parts-word t k.1, k.0) refl
word_parts-append (String.◌∷◌ c s) t h k =
    let (blank, rest) = no_space-cons c s h in rw (blank, word_parts-append s t rest k) refl

fields-entry : (s t : String) → IsWord s → IsWord t → fields (cat s (cat " " t)) ≡ s ∷ t ∷ []
unfolding fields
fields-entry s t h k = rw (word_parts-append s t h.1 k, h.0) refl

pub parse_entries-entry_lines :
    (es : List HostEntry) → All IsEntry es → parse_entries (entry_lines es) ≡ es
unfolding parse_entries
parse_entries-entry_lines [] h = refl
parse_entries-entry_lines (e ∷ es) h =
    rw
      (
        fields-entry e.ip e.domain h.0.ip_word h.0.domain_word,
        h.0.not_comment,
        parse_entries-entry_lines es h.1,
      )
      refl

no_newline : (c : Char) → is_space c ≡ false → (code c == 10) ≡ false
unfolding is_space
no_newline c h = elim (Bool-cases (code c == 10)) [
  | inl e ↦ let newline : code c ≡ 10 = ground arith in absurd (true≢false (rw newline at h))
  | inr e ↦ e
]

IsLine-of_no_space : (s : String) → no_space s ≡ true → IsLine s
IsLine-of_no_space String.[] h = refl
IsLine-of_no_space (String.◌∷◌ c s) h =
    let (blank, rest) = no_space-cons c s h in rw (no_newline c blank) (IsLine-of_no_space s rest)

IsLine-cat : (s t : String) → IsLine s → IsLine t → IsLine (cat s t)
IsLine-cat String.[] t h k = k
IsLine-cat (String.◌∷◌ c s) t h k = ground (arith, IsLine-cat s t)

pub entry_lines-IsLine : (es : List HostEntry) → All IsEntry es → All IsLine (entry_lines es)
entry_lines-IsLine [] h = tt
entry_lines-IsLine (e ∷ es) h =
    let domain = IsLine-of_no_space e.domain h.0.domain_word.1 in
    (
      IsLine-cat e.ip (cat " " e.domain) (IsLine-of_no_space e.ip h.0.ip_word.1)
          (IsLine-cat " " e.domain refl domain),
      entry_lines-IsLine es h.1,
    )

not_end : (s t : String) → IsWord s → is_comment s ≡ false → (cat s t == block_end) ≡ false
not_end String.[] t w h = absurd (false≢true (sym w.0))
not_end (String.◌∷◌ c s) t w h = elim (Bool-cases (cat (String.◌∷◌ c s) t == block_end)) [
  | inl e ↦
      let marker : is_comment (cat (String.◌∷◌ c s) t) ≡ true = ap is_comment ((eq_iff _ _).0 e) in
      absurd (false≢true (sym h ∙ marker))
  | inr e ↦ e
]

pub not_contains_end :
    (es : List HostEntry) → All IsEntry es → contains block_end (entry_lines es) ≡ false
not_contains_end [] h = refl
not_contains_end (e ∷ es) h =
    rw (not_end e.ip (cat " " e.domain) h.0.ip_word h.0.not_comment) (not_contains_end es h.1)
