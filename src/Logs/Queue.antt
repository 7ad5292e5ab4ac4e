-- ===== src/Logs/Queue.antt =====
-- The accounts of the queue of internal/diag/logstore.go, and its order.
use tunnel_board.Prelude.{
  ℕ, zero, suc, ◌+◌, ◌-◌, ◌≤◌, Bool, true, false, List, [], ◌∷◌, ◌++◌, length, ltb, if◌then◌else◌,
  ◌≡◌, refl, arith, false≢true, ap, sym, subst, ◌∙◌,
}
use tunnel_board.Logs.{
  Bytes, LogSource, LogCommand, line_command, barrier_command, close_command, append, flush_dropped,
  run_one, begin_sync, begin_close, take_dropped,
}

-- the bytes of the lines that wait
abbrev pub waiting : List LogCommand → ℕ
waiting [] = 0
waiting (line_command line ∷ cs) = length line + waiting cs
waiting (_ ∷ cs) = waiting cs

abbrev pub bytes_of : List Bytes → ℕ
bytes_of [] = 0
bytes_of (l ∷ ls) = length l + bytes_of ls

-- The counter is exact and within its limit.
abbrev pub IsCounted : LogSource → Type 0
IsCounted s = (s.queued ≡ waiting s.commands) × (s.queued ≤ s.limits.queue_bytes)

pub data QueueOperation : Type 0 where
  appending : Bytes → QueueOperation
  running_one tailing : QueueOperation
  syncing : ℕ → QueueOperation
  closing : ℕ → Bool → QueueOperation

unfoldable pub operate : (ℕ → Bytes) → QueueOperation → LogSource → LogSource
operate notice (appending line) s = append line s
operate notice running_one s = run_one notice s
operate notice tailing s = (take_dropped s).0
operate notice (syncing b) s = (begin_sync b s).0
operate notice (closing b t) s = (begin_close b t s).0

waiting-append : (xs ys : List LogCommand) → waiting (xs ++ ys) ≡ waiting xs + waiting ys
waiting-append [] ys = omega arith
waiting-append (line_command l ∷ xs) ys = let r = waiting-append xs ys in omega (arith, r)
waiting-append (barrier_command b ∷ xs) ys = waiting-append xs ys
waiting-append (close_command b ∷ xs) ys = waiting-append xs ys

-- Every operation keeps the counter of the waiting bytes exact and within the limit of the queue.
pub operate-IsCounted :
    (notice : ℕ → Bytes) (o : QueueOperation) (s : LogSource)
    → IsCounted s
    → IsCounted (operate notice o s)
unfolding operate append run_one flush_dropped begin_sync begin_close take_dropped
operate-IsCounted notice (appending line) s h =
    ground (arith, waiting-append s.commands (line_command line ∷ []))
operate-IsCounted notice running_one s h = ground arith
operate-IsCounted notice tailing s h = h
operate-IsCounted notice (syncing b) s h =
    ground (arith, waiting-append s.commands (barrier_command b ∷ []))
operate-IsCounted notice (closing b t) s h =
    ground (arith, waiting-append s.commands (close_command b ∷ []))

-- turns of the writer's loop
unfoldable pub run_times : (ℕ → Bytes) → ℕ → LogSource → LogSource
run_times notice zero s = s
run_times notice (suc n) s = run_times notice n (run_one notice s)

abbrev pub IsOpen : List LogCommand → Type 0
IsOpen [] = Unit
IsOpen (close_command b ∷ cs) = false ≡ true
IsOpen (_ ∷ cs) = IsOpen cs

abbrev noted : (ℕ → Bytes) → ℕ → List Bytes → List Bytes
noted notice d w = if ltb 0 d then notice d ∷ w else w

-- the calls of `writeLine` that commands lead to, after bytes were dropped: one notice, then the lines in order
abbrev pub replay : (ℕ → Bytes) → ℕ → List LogCommand → List Bytes → List Bytes
replay notice d [] w = w
replay notice d (line_command l ∷ cs) w = replay notice 0 cs (l ∷ noted notice d w)
replay notice d (barrier_command b ∷ cs) w = replay notice 0 cs (noted notice d w)
replay notice d (close_command b ∷ cs) w = replay notice 0 cs (noted notice d w)

abbrev pub answers : List LogCommand → List ℕ → List ℕ
answers [] a = a
answers (line_command l ∷ cs) a = answers cs a
answers (barrier_command b ∷ cs) a = answers cs (b ∷ a)
answers (close_command b ∷ cs) a = answers cs (b ∷ a)

abbrev Drained : (ℕ → Bytes) → List LogCommand → LogSource → LogSource → Type 0
Drained notice cs s t =
    (t.commands ≡ [])
    × (t.handed ≡ replay notice s.dropped cs s.handed)
    × (t.answered ≡ answers cs s.answered)

run_times-Drained :
    (notice : ℕ → Bytes) (cs : List LogCommand) (s : LogSource)
    → IsOpen cs
    → Drained notice cs s
        (run_times notice (length cs) (record s { commands = cs; finished = false }))
unfolding run_times run_one flush_dropped
run_times-Drained notice [] s o = (refl, refl, refl)
run_times-Drained notice (line_command l ∷ cs) s o =
    run_times-Drained notice cs
      (record s {
        dropped = 0;
        queued = s.queued - length l;
        handed = l ∷ noted notice s.dropped s.handed;
      })
      o
run_times-Drained notice (barrier_command b ∷ cs) s o =
    run_times-Drained notice cs
      (record s {
        dropped = 0;
        handed = noted notice s.dropped s.handed;
        answered = b ∷ s.answered;
      })
      o
run_times-Drained notice (close_command b ∷ cs) s o = absurd (false≢true o)

-- the barrier stands last in the queue of an open source with a running writer
begin_sync-queued :
    (b : ℕ) (s : LogSource)
    → s.closed ≡ false
    → s.finished ≡ false
    → (begin_sync b s).0
      ≡ record s { commands = s.commands ++ (barrier_command b ∷ []); finished = false }
unfolding begin_sync
begin_sync-queued b s c f =
    let cs : List LogCommand = s.commands ++ (barrier_command b ∷ []) in
    let either : LogSource × Bool → LogSource × Bool → Bool → LogSource × Bool =
      λ x y z. if z then x else y in
    ap (λ z. (either (s, false) (record s { commands = cs }, true) z).0) c
    ∙ ap (λ z. record s { commands = cs; finished = z }) f

IsOpen-append : (cs : List LogCommand) (b : ℕ) → IsOpen cs → IsOpen (cs ++ (barrier_command b ∷ []))
IsOpen-append [] b h = tt
IsOpen-append (line_command l ∷ cs) b h = IsOpen-append cs b h
IsOpen-append (barrier_command c ∷ cs) b h = IsOpen-append cs b h
IsOpen-append (close_command c ∷ cs) b h = h

answers-append :
    (cs : List LogCommand) (b : ℕ) (a : List ℕ)
    → answers (cs ++ (barrier_command b ∷ [])) a ≡ b ∷ answers cs a
answers-append [] b a = refl
answers-append (line_command l ∷ cs) b a = answers-append cs b a
answers-append (barrier_command c ∷ cs) b a = answers-append cs b (c ∷ a)
answers-append (close_command c ∷ cs) b a = answers-append cs b (c ∷ a)

-- A sync of a source that is open, whose writer runs and whose queue holds no close, is answered: after
-- as many turns of the writer's loop as there are commands and the barrier, the queue is empty, the
-- barrier is the last answer, and `writeLine` was called with the lines that waited, in their order and
-- after one notice if bytes were dropped. Whether a call brings its line into the file is not said: the
-- loop ignores its error.
pub sync_answered :
    (notice : ℕ → Bytes) (b : ℕ) (s : LogSource)
    → s.closed ≡ false
    → s.finished ≡ false
    → IsOpen s.commands
    → (let t =
          run_times notice (length (s.commands ++ (barrier_command b ∷ []))) (begin_sync b s).0 in
        (t.commands ≡ [])
        × (t.handed ≡ replay notice s.dropped (s.commands ++ (barrier_command b ∷ [])) s.handed)
        × (t.answered ≡ b ∷ answers s.commands s.answered))
sync_answered notice b s c f o =
    let cs : List LogCommand = s.commands ++ (barrier_command b ∷ []) in
    let (e, w, a) =
      subst (λ t. Drained notice cs s (run_times notice (length cs) t))
        (sym (begin_sync-queued b s c f))
        (run_times-Drained notice cs s (IsOpen-append s.commands b o)) in
    (e, w, a ∙ answers-append s.commands b s.answered)
