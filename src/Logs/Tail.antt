-- ===== src/Logs/Tail.antt =====
-- `tail` of internal/diag/logstore.go: the last complete lines of the current log file after a cursor.
use tunnel_board.Prelude.{
  ℤ, pos, negsuc, ℕ, suc, ◌+◌, ◌-◌, ◌≤◌, ◌<◌, Bool, true, false, not, ◌==◌, nat_eq, ◌&&◌, ◌||◌,
  Option, none, some, List, [], ◌∷◌, length, take, drop, length-take-le, length-drop, ltb,
  if◌then◌else◌, ◌≡◌, refl, arith, inl, inr, Option-cases, Bool-cases,
}
use tunnel_board.Logs.{Bytes, LogStoreLimits}

pub record LogCursor : Type 0 where
  pub generation : ℕ
  pub offset : ℤ

pub record LogTailResult : Type 0 where
  pub lines : List Bytes
  pub next_generation : ℕ
  pub next_offset : ℕ
  pub rotated : Bool
  pub truncated : Bool
  pub dropped_bytes : ℕ

abbrev pub newline : ℕ
newline = 10

-- `bytes.IndexByte` of a newline, and `bytes.LastIndexByte`
unfoldable pub first_newline : Bytes → Option ℕ
first_newline [] = none
first_newline (b ∷ bs) = if b == newline then some 0 else after (first_newline bs)
  where
    after : Option ℕ → Option ℕ
    after none = none
    after (some i) = some (suc i)

unfoldable pub last_newline : Bytes → Option ℕ
last_newline [] = none
last_newline (b ∷ bs) = after (last_newline bs)
  where
    after : Option ℕ → Option ℕ
    after none = if b == newline then some 0 else none
    after (some i) = some (suc i)

-- `bytes.Split` at the newlines, of bytes whose last newline has been cut
unfoldable pub split_lines_of : Bytes → List Bytes
split_lines_of [] = [] ∷ []
split_lines_of (b ∷ bs) =
    let rest = split_lines_of bs in if b == newline then [] ∷ rest else onto rest
  where
    onto : List Bytes → List Bytes
    onto [] = (b ∷ []) ∷ []
    onto (l ∷ ls) = (b ∷ l) ∷ ls

abbrev sum_lengths : List Bytes → ℕ
sum_lengths [] = 0
sum_lengths (l ∷ ls) = length l + 1 + sum_lengths ls

-- where the reading begins: a cursor that does not fit the file means that the file was rotated
abbrev pub cursor_start : ℕ → ℕ → Option LogCursor → Option ℕ
cursor_start generation size none = none
cursor_start generation size (some c) = placed c.offset
  where
    placed : ℤ → Option ℕ
    placed (negsuc n) = none
    placed (pos n) = if not (c.generation == generation) || ltb size n then none else some n

abbrev is_some : Option LogCursor → Bool
is_some none = false
is_some (some c) = true

-- the part of `tail` from the complete lines on: they begin at `start` and end at `stop`
unfoldable pub tail_lines_of : LogStoreLimits → ℕ → ℕ → Bool → Bool → ℕ → ℕ → Bytes → LogTailResult
tail_lines_of limits generation base rotated truncated start stop complete =
    let lines = split_lines_of (take (length complete - 1) complete) in
    let excess = length lines - limits.tail_lines in
    let start' = start + sum_lengths (take excess lines) in
    let truncated' = truncated || ltb limits.tail_lines (length lines) in
    record {
      lines = drop excess lines;
      next_generation = generation;
      next_offset = stop;
      rotated = rotated;
      truncated = truncated';
      dropped_bytes = if truncated' && ltb base start' then start' - base else 0;
    }

-- the part of `tail` from the buffer on, whose first line is complete
unfoldable pub tail_buffer : LogStoreLimits → ℕ → ℕ → Bool → Bool → ℕ → Bytes → LogTailResult
tail_buffer limits generation base rotated truncated start buffer = ended (last_newline buffer)
  where
    ended : Option ℕ → LogTailResult
    ended none = record {
      lines = [];
      next_generation = generation;
      next_offset = start;
      rotated = rotated;
      truncated = truncated;
      dropped_bytes = 0;
    }
    ended (some i) =
        tail_lines_of limits generation base rotated truncated start (start + (i + 1))
          (take (i + 1) buffer)

-- the part of `tail` from the read on; the first line after a start within the file may be cut
unfoldable pub tail_from : LogStoreLimits → ℕ → Bytes → ℕ → Bool → Bool → ℕ → LogTailResult
tail_from limits generation content base rotated truncated start =
    let buffer = take limits.tail_bytes (drop start content) in
    if ltb 0 start
    then begun buffer (first_newline buffer)
    else tail_buffer limits generation base rotated truncated start buffer
  where
    begun : Bytes → Option ℕ → LogTailResult
    begun buffer none = record {
      lines = [];
      next_generation = generation;
      next_offset = length content;
      rotated = rotated;
      truncated = true;
      dropped_bytes = length content;
    }
    begun buffer (some i) =
        tail_buffer limits generation base rotated truncated (start + (i + 1)) (drop (i + 1) buffer)

-- `tail` of a file that can be read
unfoldable pub tail : LogStoreLimits → ℕ → Bytes → Option LogCursor → LogTailResult
tail limits generation content cursor = placed (cursor_start generation (length content) cursor)
  where
    size : ℕ
    size = length content

    placed : Option ℕ → LogTailResult
    placed none =
        tail_from limits generation content 0 (is_some cursor) (ltb limits.tail_bytes size)
          (size - limits.tail_bytes)
    placed (some n) =
        if ltb limits.tail_bytes (size - n)
        then tail_from limits generation content n false true (size - limits.tail_bytes)
        else tail_from limits generation content n false false n

-- at most the last lines, and a cursor within the file and of its generation
abbrev pub IsTail : LogStoreLimits → ℕ → ℕ → LogTailResult → Type 0
IsTail limits generation size r =
    (length r.lines ≤ limits.tail_lines) × (r.next_offset ≤ size) × (r.next_generation ≡ generation)

first_newline_lt : (bs : Bytes) (i : ℕ) → first_newline bs ≡ some i → i < length bs
unfolding first_newline
first_newline_lt [] i e = cc
first_newline_lt (b ∷ bs) i e = elim (Option-cases (first_newline bs)) [
  | inl q ↦ ground arith
  | inr (j, q) ↦ let r = first_newline_lt bs j q in ground (arith, r)
]

last_newline_lt : (bs : Bytes) (i : ℕ) → last_newline bs ≡ some i → i < length bs
unfolding last_newline
last_newline_lt [] i e = cc
last_newline_lt (b ∷ bs) i e = elim (Option-cases (last_newline bs)) [
  | inl q ↦ ground arith
  | inr (j, q) ↦ let r = last_newline_lt bs j q in ground (arith, r)
]

tail_buffer-IsTail :
    (limits : LogStoreLimits) (generation base : ℕ) (rotated truncated : Bool) (start size : ℕ)
    (buffer : Bytes)
    → start + length buffer ≤ size
    → IsTail limits generation size
        (tail_buffer limits generation base rotated truncated start buffer)
unfolding tail_buffer tail_lines_of
tail_buffer-IsTail limits generation base rotated truncated start size buffer b =
    elim (Option-cases (last_newline buffer)) [
      | inl q ↦ ground arith
      | inr (i, q) ↦
          let lines =
            split_lines_of (take (length (take (i + 1) buffer) - 1) (take (i + 1) buffer)) in
          let l = last_newline_lt buffer i q in
          let d = length-drop (length lines - limits.tail_lines) lines in
          rw q (omega (arith, d), omega (arith, l, b), refl)
    ]

tail_from-IsTail :
    (limits : LogStoreLimits) (generation : ℕ) (content : Bytes) (base : ℕ)
    (rotated truncated : Bool) (start : ℕ)
    → start ≤ length content
    → IsTail limits generation
        (length content)
        (tail_from limits generation content base rotated truncated start)
unfolding tail_from
tail_from-IsTail limits generation content base rotated truncated start b =
    let buffer : Bytes = take limits.tail_bytes (drop start content) in
    let l = length-take-le limits.tail_bytes (drop start content) in
    let d = length-drop start content in
    elim (Bool-cases (ltb 0 start)) [
      | inr z ↦ rw z (
          tail_buffer-IsTail limits generation base rotated truncated start _ buffer
            (omega (arith, l, d, b)))
      | inl z ↦ elim (Option-cases (first_newline buffer)) [
        | inl q ↦ rw (z, q) (omega arith, omega arith, refl)
        | inr (i, q) ↦
            let f = first_newline_lt buffer i q in
            let m = length-drop (i + 1) buffer in
            rw (z, q)
              (tail_buffer-IsTail limits generation base rotated truncated (start + (i + 1)) _
                (drop (i + 1) buffer) (omega (arith, f, l, d, m, b)))
      ]
    ]

cursor_start_le :
    (generation size : ℕ) (cursor : Option LogCursor) (n : ℕ)
    → cursor_start generation size cursor ≡ some n
    → n ≤ size
cursor_start_le generation size none n e = cc
cursor_start_le generation size (some c) n e = ground arith

-- A tail has at most as many lines as the limit says, and its next cursor is of the file's generation
-- and not behind the file's end, whatever cursor was asked for.
pub tail-IsTail :
    (limits : LogStoreLimits) (generation : ℕ) (content : Bytes) (cursor : Option LogCursor)
    → IsTail limits generation (length content) (tail limits generation content cursor)
unfolding tail
tail-IsTail limits generation content cursor =
    elim (Option-cases (cursor_start generation (length content) cursor)) [
      | inl e ↦ rw e (tail_from-IsTail limits generation content _ _ _ _ (omega arith))
      | inr (n, e) ↦ elim (Bool-cases (ltb limits.tail_bytes (length content - n))) [
        | inl b ↦ rw (e, b) (tail_from-IsTail limits generation content _ _ _ _ (omega arith))
        | inr b ↦
            let l = cursor_start_le generation (length content) cursor n e in
            rw (e, b) (tail_from-IsTail limits generation content _ _ _ _ l)
      ]
    ]
