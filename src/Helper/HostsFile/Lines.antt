-- ===== src/Helper/HostsFile/Lines.antt =====
-- `splitLines` undoes `joinCRLF` (internal/helper/hostsfile.go).
use tunnel_board.Prelude.{
  cat, cons-beq-empty, String, Char, code, ◌≡◌, refl, ap, ◌∙◌, Bool, true, false, ◌&&◌, not, ◌==◌,
  nat_eq, text_eq, inl, inr, List, [], ◌∷◌, ◌++◌, map, All, Bool-cases, and_true, arith,
}
use tunnel_board.Helper.HostsFile.{
  crlf, onto_first, split_lf, drop_last_empty, trim_cr, split_lines, join_crlf,
}

-- a text of one line
abbrev pub is_line : String → Bool
is_line String.[] = true
is_line (String.◌∷◌ c s) = not (code c == 10) && is_line s

abbrev pub IsLine : String → Type 0
IsLine s = is_line s ≡ true

abbrev with_cr : String → String
with_cr l = cat l "\r"

split_lf-line :
    (l rest : String) → IsLine l → split_lf (cat l (cat crlf rest)) ≡ with_cr l ∷ split_lf rest
unfolding split_lf
split_lf-line String.[] rest h = refl
split_lf-line (String.◌∷◌ c s) rest h = ground (arith, split_lf-line s rest)

split_lf-join_crlf :
    (ls : List String) → All IsLine ls → split_lf (join_crlf ls) ≡ map with_cr ls ++ "" ∷ []
unfolding join_crlf split_lf
split_lf-join_crlf [] h = refl
split_lf-join_crlf (l ∷ ls) h =
    split_lf-line l (join_crlf ls) h.0 ∙ ap (◌∷◌ (with_cr l)) (split_lf-join_crlf ls h.1)

drop_last_empty-append : (ls : List String) → drop_last_empty (ls ++ "" ∷ []) ≡ ls
unfolding drop_last_empty
drop_last_empty-append [] = refl
drop_last_empty-append (l ∷ []) = refl
drop_last_empty-append (l ∷ m ∷ ms) = ap (◌∷◌ l) (drop_last_empty-append (m ∷ ms))

cat_cr-nonempty : (l : String) → (with_cr l == "") ≡ false
cat_cr-nonempty String.[] = refl
cat_cr-nonempty (String.◌∷◌ c s) = cons-beq-empty c (with_cr s)

trim_cr-with_cr : (l : String) → trim_cr (with_cr l) ≡ l
unfolding trim_cr
trim_cr-with_cr String.[] = refl
trim_cr-with_cr (String.◌∷◌ c s) = rw (cat_cr-nonempty s) (ground (arith, trim_cr-with_cr s))

map-trim_cr : (ls : List String) → map trim_cr (map with_cr ls) ≡ ls
map-trim_cr [] = refl
map-trim_cr (l ∷ ls) = ground (arith, trim_cr-with_cr l, map-trim_cr ls)

joined-nonempty : (l rest : String) → (cat l (cat crlf rest) == "") ≡ false
joined-nonempty String.[] rest = cons-beq-empty _ _
joined-nonempty (String.◌∷◌ c s) rest = cons-beq-empty c (cat s (cat crlf rest))

-- Lines that are joined are split again.
pub split_lines-join_crlf : (ls : List String) → All IsLine ls → split_lines (join_crlf ls) ≡ ls
unfolding split_lines join_crlf
split_lines-join_crlf [] h = refl
split_lines-join_crlf (l ∷ ls) h = rw (joined-nonempty l (join_crlf ls)) (
    rw (split_lf-line l (join_crlf ls) h.0 ∙ ap (◌∷◌ (with_cr l)) (split_lf-join_crlf ls h.1))
      (rw (drop_last_empty-append (map with_cr (l ∷ ls))) (map-trim_cr (l ∷ ls))))

onto_first-IsLine :
    (c : Char) (ls : List String)
    → (code c == 10) ≡ false
    → All IsLine ls
    → All IsLine (onto_first c ls)
onto_first-IsLine c [] e h = (ground arith, tt)
onto_first-IsLine c (l ∷ ls) e h = (ground (arith, h.0), h.1)

split_lf-IsLine : (s : String) → All IsLine (split_lf s)
unfolding split_lf
split_lf-IsLine String.[] = (refl, tt)
split_lf-IsLine (String.◌∷◌ c s) = elim (Bool-cases (code c == 10)) [
  | inl e ↦ rw e (refl, split_lf-IsLine s)
  | inr e ↦ rw e (onto_first-IsLine c (split_lf s) e (split_lf-IsLine s))
]

drop_last_empty-IsLine : (ls : List String) → All IsLine ls → All IsLine (drop_last_empty ls)
unfolding drop_last_empty
drop_last_empty-IsLine [] h = tt
drop_last_empty-IsLine (l ∷ []) h = elim (Bool-cases (l == "")) [ inl e ↦ rw e tt | inr e ↦ rw e h ]
drop_last_empty-IsLine (l ∷ m ∷ ms) h = (h.0, drop_last_empty-IsLine (m ∷ ms) h.1)

trim_cr-IsLine : (l : String) → IsLine l → IsLine (trim_cr l)
unfolding trim_cr
trim_cr-IsLine String.[] h = refl
trim_cr-IsLine (String.◌∷◌ c s) h =
    let rest = trim_cr-IsLine s (and_true h).1 in
    elim (Bool-cases (code c == 13 && s == "")) [
      | inl e ↦ rw e refl
      | inr e ↦ rw e (ground (arith, rest))
    ]

map-trim_cr-IsLine : (ls : List String) → All IsLine ls → All IsLine (map trim_cr ls)
map-trim_cr-IsLine [] h = tt
map-trim_cr-IsLine (l ∷ ls) h = (trim_cr-IsLine l h.0, map-trim_cr-IsLine ls h.1)

pub split_lines-IsLine : (content : String) → All IsLine (split_lines content)
unfolding split_lines
split_lines-IsLine content = elim (Bool-cases (content == "")) [
  | inl e ↦ rw e tt
  | inr e ↦ rw e (map-trim_cr-IsLine _ (drop_last_empty-IsLine _ (split_lf-IsLine content)))
]
