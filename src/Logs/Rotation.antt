-- ===== src/Logs/Rotation.antt =====
-- `writeLine` and `rotateLocked` of internal/diag/logstore.go, on the log file (0) and its archives
-- (1 is the newest).
use tunnel_board.Prelude.{
  ℕ, zero, suc, ◌+◌, ◌%◌, ◌^◌, ◌≤◌, ◌<◌, Bool, true, false, not, ◌||◌, ◌==◌, nat_eq, ◌&&◌, Option,
  none, some, [], ◌++◌, length, take, length-take-le, ltb, if◌then◌else◌, ◌≡◌, refl, arith, Table,
  value_at, put, remove, value_at-put, value_at-remove, inl, inr, Option-cases, Bool-cases, ◌⊎◌, ap,
  subst, ◌∙◌, ◌≢◌,
}
use tunnel_board.Logs.{Bytes, LogStoreLimits}

-- the files, whether the current one is open, `s.size`, and the generation of the current one
pub record LogFiles : Type 0 where
  pub files : Table Bytes
  pub opened : Bool
  pub size : ℕ
  pub generation : ℕ

-- what the file system answers to a rotation: whether it closes the file; for the i-th archive,
-- whether it removes it, looks up the file before it and renames that one onto it; and whether it
-- opens the new file
pub record RotationWorld : Type 0 where
  pub closes : Bool
  pub removes : ℕ → Bool
  pub looks_up : ℕ → Bool
  pub renames : ℕ → Bool
  pub reopens : Bool

-- the files after the attempt to remove one, whose error is ignored
abbrev pub without_target : RotationWorld → ℕ → Table Bytes → Table Bytes
without_target world i t = if world.removes i then remove i t else t

-- One round of the loop over the archives: the target is removed, if the system does it, and the file
-- before it, if there is one and the system finds it, is renamed onto it. A rename replaces the target.
unfoldable pub shift_one : RotationWorld → ℕ → Table Bytes → Table Bytes × Bool
shift_one world i t = elim (world.looks_up (suc i)) [
  | true ↦ moved (value_at i (without_target world (suc i) t))
  | false ↦ (without_target world (suc i) t, true)
]
  where
    moved : Option Bytes → Table Bytes × Bool
    moved none = (without_target world (suc i) t, true)
    moved (some content) =
        if world.renames (suc i)
        then (put (suc i) content (remove i (without_target world (suc i) t)), true)
        else (without_target world (suc i) t, false)

-- the loop, from the oldest archive on, up to a rename that fails
unfoldable pub shift_archives : RotationWorld → ℕ → Table Bytes → Table Bytes × Bool
shift_archives world zero t = (t, true)
shift_archives world (suc i) t = elim (shift_one world i t).1 [
  | true ↦ shift_archives world i (shift_one world i t).0
  | false ↦ shift_one world i t
]

-- `rotateLocked`
unfoldable pub rotate : RotationWorld → LogStoreLimits → LogFiles → LogFiles × Bool
rotate world limits f =
    if not world.closes || not f.opened
    then (record f { opened = false }, false)
    else shifted (shift_archives world limits.archives f.files)
  where
    shifted : Table Bytes × Bool → LogFiles × Bool
    shifted (t, false) = (record f { files = t; opened = false }, false)
    shifted (t, true) =
        if world.reopens
        then (
          record {
            files = put 0 [] t;
            opened = true;
            size = 0;
            generation = (f.generation + 1) % 2 ^ 64;
          },
          true,
        )
        else (record f { files = t; opened = false }, false)

abbrev pub content_of : Option Bytes → Bytes
content_of none = []
content_of (some c) = c

-- `writeLine`; the system writes the first `n` bytes, and all unless there is an error
unfoldable pub write_line : RotationWorld → ℕ → LogStoreLimits → Bytes → LogFiles → LogFiles × Bool
write_line world n limits line f =
    if ltb 0 f.size && ltb limits.file_bytes (f.size + length line)
    then rotated (rotate world limits f)
    else written f
  where
    written : LogFiles → LogFiles × Bool
    written f =
        if f.opened
        then (
          record f {
            files = put 0 (content_of (value_at 0 f.files) ++ take n line) f.files;
            size = f.size + length (take n line);
          },
          n == length line,
        )
        else (f, false)

    rotated : LogFiles × Bool → LogFiles × Bool
    rotated (f, false) = (f, false)
    rotated (f, true) = written f

-- what a rename onto an archive does to the files
moved-value_at :
    (i k : ℕ) (c : Bytes) (t : Table Bytes)
    → value_at k (put (suc i) c (remove i (remove (suc i) t)))
      ≡ (if suc i == k then some c else if i == k then none else value_at k t)
moved-value_at i k c t =
    let a = value_at-put k (suc i) c (remove i (remove (suc i) t)) in
    let b = value_at-remove k i (remove (suc i) t) in
    let d = value_at-remove k (suc i) t in ground (arith, a, b, d)

shift_one-value_at :
    (world : RotationWorld) (i : ℕ) (t : Table Bytes)
    → world.removes (suc i) ≡ true
    → world.looks_up (suc i) ≡ true
    → (shift_one world i t).1 ≡ true
    → value_at (suc i) (shift_one world i t).0 ≡ value_at i t
unfolding shift_one
shift_one-value_at world i t r l h = elim (Option-cases (value_at i (remove (suc i) t))) [
  | inl q ↦
      let gone = value_at-remove i (suc i) t in
      let at_target = value_at-remove (suc i) (suc i) t in ground (arith, q, gone, at_target, r, l)
  | inr (c, q) ↦
      let there = value_at-remove i (suc i) t in
      let at_target = moved-value_at i (suc i) c t in ground (arith, q, there, at_target, r, l)
]

-- whatever the system answers, a round touches two files
shift_one-others :
    (world : RotationWorld) (i k : ℕ) (t : Table Bytes)
    → (k < i) ⊎ (suc i < k)
    → value_at k (shift_one world i t).0 ≡ value_at k t
unfolding shift_one
shift_one-others world i k t b =
    let r = value_at-remove k (suc i) t in
    let u : Table Bytes = without_target world (suc i) t in
    let kept : value_at k u ≡ value_at k t = ground (arith, r) in
    elim (Option-cases (value_at i u)) [
      | inl q ↦ ground (arith, q, kept)
      | inr (c, q) ↦
          let p = value_at-put k (suc i) c (remove i u) in
          let m = value_at-remove k i u in ground (arith, q, kept, p, m)
    ]

shift_archives-on :
    (world : RotationWorld) (i : ℕ) (t : Table Bytes)
    → (shift_one world i t).1 ≡ true
    → shift_archives world (suc i) t ≡ shift_archives world i (shift_one world i t).0
unfolding shift_archives
shift_archives-on world i t e =
    let next : Bool → Table Bytes × Bool = λ b. elim b [
      | true ↦ shift_archives world i (shift_one world i t).0
      | false ↦ shift_one world i t
    ] in
    ap next e

shift_archives-off :
    (world : RotationWorld) (i : ℕ) (t : Table Bytes)
    → (shift_one world i t).1 ≡ false
    → shift_archives world (suc i) t ≡ shift_one world i t
unfolding shift_archives
shift_archives-off world i t e =
    let next : Bool → Table Bytes × Bool = λ b. elim b [
      | true ↦ shift_archives world i (shift_one world i t).0
      | false ↦ shift_one world i t
    ] in
    ap next e

shift_archives-above :
    (world : RotationWorld) (n k : ℕ) (t : Table Bytes)
    → n < k
    → value_at k (shift_archives world n t).0 ≡ value_at k t
unfolding shift_archives
shift_archives-above world zero k t b = refl
shift_archives-above world (suc i) k t b =
    let u : Table Bytes = (shift_one world i t).0 in
    let one = shift_one-others world i k t (inr b) in
    let rest = shift_archives-above world i k u (omega (arith, b)) in
    elim (Bool-cases (shift_one world i t).1) [
      | inl e ↦ ap (λ z. value_at k z.0) (shift_archives-on world i t e) ∙ (rest ∙ one)
      | inr e ↦ ap (λ z. value_at k z.0) (shift_archives-off world i t e) ∙ one
    ]

shift_archives-value_at :
    (world : RotationWorld) (n : ℕ) (t : Table Bytes)
    → (shift_archives world n t).1 ≡ true
    → (k : ℕ) → k < n
    → world.removes (suc k) ≡ true
    → world.looks_up (suc k) ≡ true
    → value_at (suc k) (shift_archives world n t).0 ≡ value_at k t
unfolding shift_archives
shift_archives-value_at world zero t h k b r l = absurd (omega (arith, b))
shift_archives-value_at world (suc i) t h k b r l =
    let u : Table Bytes = (shift_one world i t).0 in
    elim (Bool-cases (shift_one world i t).1) [
      | inr f ↦ absurd (ground (arith, f, h))
      | inl e ↦
          let on = shift_archives-on world i t e in
          elim (nat_cases k i) [
            | inl q ↦ rw q (
                ap (λ z. value_at (suc i) z.0) on
                ∙ (shift_archives-above world i (suc i) u (omega arith)
                    ∙ shift_one-value_at world i t (subst (λ z. world.removes (suc z) ≡ true) q r)
                        (subst (λ z. world.looks_up (suc z) ≡ true) q l) e))
            | inr ne ↦
                ap (λ z. value_at (suc k) z.0) on
                ∙ (shift_archives-value_at world i u (ground (arith, e, h)) k
                      (ground (arith, ne, b)) r l
                    ∙ shift_one-others world i k t (inl (ground (arith, ne, b))))
          ]
    ]
  where
    nat_cases : (a b : ℕ) → (a ≡ b) ⊎ (a ≢ b)
    nat_cases a b = elim (Bool-cases (a == b)) [
      | inl e ↦ inl (ground (arith, nat_eq.same_iff a b))
      | inr e ↦ inr (λ q. ground (arith, nat_eq.same_iff a b))
    ]

-- A rotation that succeeds leaves an open, empty file of the next generation, which wraps at 2^64, and
-- touches no archive beyond the number that is kept. Up to that number, each archive whose old file the
-- system removes and whose new one it looks up without an error (`rotateLocked` ignores both errors) is
-- the file that was the archive before it, and the first one is the file that was current.
pub rotate_keeps_archives :
    (world : RotationWorld) (limits : LogStoreLimits) (f : LogFiles)
    → (rotate world limits f).1 ≡ true
    → (let g = (rotate world limits f).0 in
        (g.opened ≡ true)
        × (g.size ≡ 0)
        × (g.generation ≡ (f.generation + 1) % 2 ^ 64)
        × (value_at 0 g.files ≡ some [])
        × ((k : ℕ) → limits.archives < k → value_at k g.files ≡ value_at k f.files)
        × ((k : ℕ)
            → k < limits.archives
            → world.removes (suc k) ≡ true
            → world.looks_up (suc k) ≡ true
            → value_at (suc k) g.files ≡ value_at k f.files))
unfolding rotate
rotate_keeps_archives world limits f h =
    let t : Table Bytes × Bool = shift_archives world limits.archives f.files in
    let m : t.1 ≡ true = ground arith in
    (
      ground arith,
      ground arith,
      ground arith,
      ground arith,
      λ k b.
          let r = shift_archives-above world limits.archives k f.files b in
          let p = value_at-remove k 0 t.0 in ground (arith, r, p),
      λ k b removed found.
          let r = shift_archives-value_at world limits.archives f.files m k b removed found in
          let p = value_at-remove (suc k) 0 t.0 in ground (arith, r, p),
    )

rotate_size :
    (world : RotationWorld) (limits : LogStoreLimits) (f : LogFiles)
    → ((rotate world limits f).0.size ≡ 0) ⊎ ((rotate world limits f).0.size ≡ f.size)
unfolding rotate
rotate_size world limits f = ground arith

rotate_size_ok :
    (world : RotationWorld) (limits : LogStoreLimits) (f : LogFiles)
    → (rotate world limits f).1 ≡ true
    → (rotate world limits f).0.size ≡ 0
unfolding rotate
rotate_size_ok world limits f h = ground arith

-- Whatever the file system answers and however much of the line it writes: a file within its limit is
-- within it after a line has been written, or has at most that line.
pub write_line_bounds :
    (world : RotationWorld) (n : ℕ) (limits : LogStoreLimits) (line : Bytes) (f : LogFiles)
    → f.size ≤ limits.file_bytes
    → ((write_line world n limits line f).0.size ≤ limits.file_bytes)
      ⊎ ((write_line world n limits line f).0.size ≤ length line)
unfolding write_line
write_line_bounds world n limits line f b =
    let t = length-take-le n line in
    let r = rotate_size world limits f in ground (arith, t, r, rotate_size_ok world limits f)
