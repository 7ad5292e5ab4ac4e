-- ===== src/Prelude/Text.antt =====
-- The functions of `strings` and `unicode` that the program calls, over the native texts.
use Prim.Native.Nat.{◌-◌}
use Prim.Native.Char.{Char, code}
use Prim.Native.String.{String, char_at}
use mathlib.Core.Path.{◌≡◌, refl}
use mathlib.Core.Logic.{inl, inr}
use mathlib.Core.Bool.{Bool, false, ◌&&◌, ◌||◌}
use text.Mathlib.Text.{◌==◌ as str_eq}
use text.Mathlib.TextEquality.{eq_iff}
use tunnel_board.Prelude.Tests.{◌==◌, leb, ltb, if◌then◌else◌, Bool-cases}

-- `unicode.IsSpace`: the code points with the property White_Space
unfoldable pub is_space : Char → Bool
is_space c =
    let n = code c in
    (leb 9 n && leb n 13)
    || n == 0x20
    || n == 0x85
    || n == 0xA0
    || n == 0x1680
    || (leb 0x2000 n && leb n 0x200A)
    || n == 0x2028
    || n == 0x2029
    || n == 0x202F
    || n == 0x205F
    || n == 0x3000

-- `unicode.IsControl`: the category Cc
unfoldable pub is_control : Char → Bool
is_control c = let n = code c in ltb n 0x20 || (leb 0x7F n && ltb n 0xA0)

unfoldable pub trim_left : String → String
trim_left String.[] = String.[]
trim_left (String.◌∷◌ c s) = let rest = trim_left s in if is_space c then rest else String.◌∷◌ c s

unfoldable pub trim_right : String → String
trim_right String.[] = String.[]
trim_right (String.◌∷◌ c s) =
    let rest = trim_right s in if is_space c && str_eq rest "" then String.[] else String.◌∷◌ c rest

-- `strings.TrimSpace`
unfoldable pub trim_space : String → String
unfolding trim_left trim_right is_space
trim_space s = trim_right (trim_left s)

-- `unicode.ToLower`, a table that the Go runtime generates from the Unicode data: a parameter
pub record CaseMap : Type 0 where
  pub lower : Char → Char

unfoldable pub to_lower : ⦃m : CaseMap⦄ → String → String
to_lower String.[] = String.[]
to_lower ⦃m⦄ (String.◌∷◌ c s) = String.◌∷◌ (m.lower c) (to_lower s)

-- lower-casing of the ASCII letters alone, for tests
abbrev pub ascii_case : CaseMap
ascii_case = record {
  lower = λ c.
      if leb b'A' (code c) && leb (code c) b'Z'
      then char_at "abcdefghijklmnopqrstuvwxyz" (code c - b'A')
      else c;
}

trim_left-trim_right :
    (s : String) → trim_left (trim_right (trim_left s)) ≡ trim_right (trim_left s)
unfolding trim_left trim_right
trim_left-trim_right String.[] = refl
trim_left-trim_right (String.◌∷◌ c s) = elim (Bool-cases (is_space c)) [
  | inl e ↦ rw e (trim_left-trim_right s)
  | inr e ↦ rw (e, e, e)
]

trim_right_idem : (s : String) → trim_right (trim_right s) ≡ trim_right s
unfolding trim_right
trim_right_idem String.[] = refl
trim_right_idem (String.◌∷◌ c s) = elim (Bool-cases (is_space c && str_eq (trim_right s) "")) [
  | inl e ↦ rw e
  | inr e ↦ rw e (rw (trim_right_idem s) (rw e))
]

-- Trimming twice is trimming once.
pub trim_space_idem : (s : String) → trim_space (trim_space s) ≡ trim_space s
unfolding trim_space
trim_space_idem s = rw trim_left-trim_right (trim_right_idem (trim_left s))

pub cons-beq-empty : (c : Char) (s : String) → str_eq (String.◌∷◌ c s) "" ≡ false
cons-beq-empty c s = elim (Bool-cases (str_eq (String.◌∷◌ c s) "")) [
  | inl e ↦ let nil : String.◌∷◌ c s ≡ "" = (eq_iff (String.◌∷◌ c s) "").0 e in cc
  | inr e ↦ e
]

-- `+` on texts
abbrev pub cat : String → String → String
cat String.[] t = t
cat (String.◌∷◌ c s) t = String.◌∷◌ c (cat s t)

-- `strings.HasSuffix`
unfoldable pub has_suffix : String → String → Bool
has_suffix String.[] suffix = str_eq String.[] suffix
has_suffix (String.◌∷◌ c s) suffix = str_eq (String.◌∷◌ c s) suffix || has_suffix s suffix
