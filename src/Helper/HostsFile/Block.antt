-- ===== src/Helper/HostsFile/Block.antt =====
-- Where the managed block is found, and what a write leaves of the lines around it.
use mathlib.Core.List.{append_assoc, append-nil}
use tunnel_board.Prelude.{
  ℕ, zero, suc, ◌+◌, String, ◌≡◌, refl, ap, sym, false, ◌==◌, text_eq, inl, inr, List, [], ◌∷◌,
  ◌++◌, none, some, length, take, drop, take-append, contains, Bool-cases, Option-cases, arith,
  beq_refl,
}
use tunnel_board.Helper.HostsFile.{
  block_begin, block_end, line_index, Found, no_block, unclosed, closed, find_block, place_block,
  managed_lines,
}

line_index-absent :
    (marker : String) (ls : List String) → line_index marker ls ≡ none → contains marker ls ≡ false
unfolding line_index
line_index-absent marker [] h = refl
line_index-absent marker (l ∷ ls) h = elim (Bool-cases (l == marker)) [
  | inl e ↦ ground arith
  | inr e ↦ elim (Option-cases (line_index marker ls)) [
    | inl k ↦ ground (arith, line_index-absent marker ls)
    | inr (i, k) ↦ ground arith
  ]
]

contains-take :
    (marker : String) (ls : List String) (i : ℕ)
    → line_index marker ls ≡ some i
    → contains marker (take i ls) ≡ false
unfolding line_index
contains-take marker [] i h = cc
contains-take marker (l ∷ ls) zero h = refl
contains-take marker (l ∷ ls) (suc i) h = ground (arith, contains-take marker ls i)

line_index-append :
    (marker : String) (xs ys : List String)
    → contains marker xs ≡ false
    → line_index marker (xs ++ marker ∷ ys) ≡ some (length xs)
unfolding line_index
line_index-append marker [] ys h = rw (beq_refl marker) refl
line_index-append marker (x ∷ xs) ys h = ground (arith, line_index-append marker xs ys)

-- the lines before the block and those after it, which a write keeps
abbrev pub lines_before : Found → List String → List String
lines_before no_block ls = ls
lines_before (unclosed begin) ls = take begin ls
lines_before (closed begin end) ls = take begin ls

abbrev pub lines_after : Found → List String → List String
lines_after no_block ls = []
lines_after (unclosed begin) ls = []
lines_after (closed begin end) ls = drop (suc end) ls

pub place_block-parts :
    (f : Found) (ls block : List String)
    → place_block f ls block ≡ lines_before f ls ++ (block ++ lines_after f ls)
place_block-parts no_block ls block = ap (◌++◌ ls) (sym (append-nil block))
place_block-parts (unclosed begin) ls block = ap (◌++◌ (take begin ls)) (sym (append-nil block))
place_block-parts (closed begin end) ls block =
    append_assoc (take begin ls) block (drop (suc end) ls)

pub before-no_begin :
    (ls : List String) → contains block_begin (lines_before (find_block ls) ls) ≡ false
unfolding find_block
before-no_begin ls = elim (Option-cases (line_index block_begin ls)) [
  | inl e ↦ rw (find_block, e) (line_index-absent block_begin ls e)
  | inr (i, e) ↦
      rw (find_block, e)
        (elim (Option-cases (line_index block_end (drop (suc i) ls))) [
          | inl k ↦ rw k (contains-take block_begin ls i e)
          | inr (j, k) ↦ rw k (contains-take block_begin ls i e)
        ])
]

drop_marker :
    (xs : List String) (m : String) (zs : List String) → drop (suc (length xs)) (xs ++ m ∷ zs) ≡ zs
drop_marker [] m zs = refl
drop_marker (x ∷ xs) m zs = drop_marker xs m zs

slice_block :
    (xs : List String) (m : String) (ms zs : List String) (n : ℕ)
    → n ≡ suc (length xs) + length ms
    → drop (suc (length xs)) (take n (xs ++ m ∷ (ms ++ zs))) ≡ ms
slice_block xs m ms zs zero e = absurd (omega (arith, e))
slice_block [] m ms zs (suc n) e =
    let same : n ≡ length ms = omega (arith, e) in rw same (take-append ms zs)
slice_block (x ∷ xs) m ms zs (suc n) e = slice_block xs m ms zs n (omega (arith, e))

drop_block :
    (xs : List String) (m : String) (ms : List String) (k : String) (ys : List String) (n : ℕ)
    → n ≡ suc (suc (length xs) + length ms)
    → drop n (xs ++ m ∷ (ms ++ k ∷ ys)) ≡ ys
drop_block xs m ms k ys zero e = absurd (omega (arith, e))
drop_block [] m ms k ys (suc n) e =
    let same : n ≡ suc (length ms) = omega (arith, e) in rw same (drop_marker ms k ys)
drop_block (x ∷ xs) m ms k ys (suc n) e = drop_block xs m ms k ys n (omega (arith, e))

-- a text's lines with one block in them
abbrev pub around : List String → List String → List String → List String
around xs ms ys = xs ++ block_begin ∷ (ms ++ block_end ∷ ys)

module _ (xs ms ys : List String) (no_begin : contains block_begin xs ≡ false)
    (no_end : contains block_end ms ≡ false) where
  pub find_block-around :
      find_block (around xs ms ys) ≡ closed (length xs) (suc (length xs) + length ms)
  unfolding find_block
  find_block-around =
      rw
        (
          find_block,
          line_index-append block_begin xs (ms ++ block_end ∷ ys) no_begin,
          drop_marker xs block_begin (ms ++ block_end ∷ ys),
          line_index-append block_end ms ys no_end,
        )
        refl

  pub managed_lines-around : managed_lines (find_block (around xs ms ys)) (around xs ms ys) ≡ ms
  managed_lines-around =
      rw find_block-around (slice_block xs block_begin ms (block_end ∷ ys) _ refl)

  pub before-around : lines_before (find_block (around xs ms ys)) (around xs ms ys) ≡ xs
  before-around = rw find_block-around (take-append xs _)

  pub after-around : lines_after (find_block (around xs ms ys)) (around xs ms ys) ≡ ys
  after-around = rw find_block-around (drop_block xs block_begin ms block_end ys _ refl)
