-- ===== src/Runtime/Stopping.antt =====
-- `Stop`, `Suspend` and `Shutdown` of internal/biz/runtime.go.
use tunnel_board.Prelude.{
  ℕ, String, Bool, true, false, not, ◌==◌, nat_eq, ◌&&◌, Option, none, some, List, [], ◌∷◌, map,
  ltb, Table, value_at, put, update_all, if◌then◌else◌, contains,
}
use tunnel_board.Runtime.{
  Failure, forward_stopping, run_failed, Runtime, RunEntry, starting, active, stopping, stopped,
  error, plain_status, state_of, is_current, finish_run,
}

-- how the first section of `Stop` ends; `stopping_run` carries the generation and the run
pub data StopBegun : Type 0 where
  idle busy : StopBegun
  stopping_run : ℕ → Option ℕ → StopBegun

abbrev pub is_stopping : RunEntry → Bool
is_stopping e = elim e.phase [ starting ↦ false | active ↦ false | stopping ↦ true ]

unfoldable pub begin_stop : ℕ → Runtime → Runtime × StopBegun
begin_stop id r = entered (value_at id r.runs)
  where
    entered : Option RunEntry → Runtime × StopBegun
    entered none = (r, idle)
    entered (some e) = if is_stopping e then (r, busy) else (
      record r { runs = put id (record e { phase = stopping }) r.runs },
      stopping_run e.generation e.run,
    )

-- the section of `Stop` after the run's own stop, with its error
unfoldable pub finish_stop : ℕ → ℕ → Option ℕ → Option String → Runtime → Runtime
finish_stop id generation run stop_error r =
    if not (is_current r id generation run) then r else ended stop_error
  where
    ended : Option String → Runtime
    ended none = finish_run id (plain_status id stopped none) r
    ended (some e) = record r {
      states =
          put id
            (record (state_of r id) {
              forward_id = id;
              status = error;
              last_error = some (run_failed e);
            })
            r.states;
    }

-- `finishStopInBackground`, which tries the stop again without a deadline
unfoldable pub finish_stop_in_background : ℕ → ℕ → Option ℕ → Option String → Runtime → Runtime
finish_stop_in_background id generation run (some e) r = r
finish_stop_in_background id generation run none r =
    if not (is_current r id generation run)
    then r
    else finish_run id (plain_status id stopped none) r

-- `Stop`: what the run's stop answers, and what the other goroutines do while it waits
unfoldable pub stop : Option String → (Runtime → Runtime) → ℕ → Runtime → Runtime × Option Failure
stop stop_error meanwhile id r = begun (begin_stop id r)
  where
    answer : Option String → Option Failure
    answer none = none
    answer (some e) = some (run_failed e)

    begun : Runtime × StopBegun → Runtime × Option Failure
    begun (r, idle) = (r, none)
    begun (r, busy) = (r, some forward_stopping)
    begun (r, stopping_run g none) = (r, none)
    begun (r, stopping_run g (some h)) =
        (finish_stop id g (some h) stop_error (meanwhile r), answer stop_error)

pub record SuspendedForward : Type 0 where
  pub forward_id : ℕ
  pub generation : ℕ

-- an entry that a suspension or a shutdown has taken, with its run
pub record Taken : Type 0 where
  pub forward_id : ℕ
  pub generation : ℕ
  pub run : Option ℕ

-- whom `Suspend` stops: those asked for, or all when none is asked for
abbrev pub is_asked : List ℕ → ℕ → RunEntry → Bool
is_asked [] id e = not (is_stopping e)
is_asked (i ∷ ids) id e = contains id (i ∷ ids) && not (is_stopping e)

abbrev taken_of : (ℕ → RunEntry → Bool) → Table RunEntry → List Taken
taken_of p [] = []
taken_of p ((id, e) ∷ t) =
    let rest = taken_of p t in
    if p id e
    then record { forward_id = id; generation = e.generation; run = e.run } ∷ rest
    else rest

abbrev pub mark_stopping : (ℕ → RunEntry → Bool) → ℕ → RunEntry → RunEntry
mark_stopping p id e = if p id e then record e { phase = stopping } else e

-- `sort.Slice` by the forward's id
abbrev insert_by_id : SuspendedForward → List SuspendedForward → List SuspendedForward
insert_by_id x [] = x ∷ []
insert_by_id x (y ∷ ys) =
    let rest = insert_by_id x ys in if ltb y.forward_id x.forward_id then y ∷ rest else x ∷ y ∷ ys

abbrev pub sort_by_id : List SuspendedForward → List SuspendedForward
sort_by_id [] = []
sort_by_id (x ∷ xs) = insert_by_id x (sort_by_id xs)

abbrev pub plan_of : List Taken → List SuspendedForward
plan_of ts =
    sort_by_id
      (map (λ (t : Taken). record { forward_id = t.forward_id; generation = t.generation }) ts)

-- the first section of `Suspend`
unfoldable pub begin_suspend : List ℕ → Runtime → Runtime × List Taken
begin_suspend ids r = (
  record r { runs = update_all (mark_stopping (is_asked ids)) r.runs },
  taken_of (is_asked ids) r.runs,
)

-- What `Suspend` does with one result. The entry that it holds is the current one just if the
-- generation is the same, since a generation has one entry.
unfoldable pub finish_suspend : Taken → Option String → Runtime → Runtime
finish_suspend t stop_error r = current (value_at t.forward_id r.runs)
  where
    ended : Option String → Runtime
    ended none = finish_run t.forward_id (plain_status t.forward_id stopped none) r
    ended (some e) = record r {
      states = put t.forward_id (plain_status t.forward_id error (some (run_failed e))) r.states;
    }

    current : Option RunEntry → Runtime
    current none = r
    current (some e) = if e.generation == t.generation then ended stop_error else r

-- the stop of an entry that has no run yet succeeds
abbrev pub stop_answer : (ℕ → Option String) → Taken → Option String
stop_answer stops t = answer t.run
  where
    answer : Option ℕ → Option String
    answer none = none
    answer (some h) = stops h

-- The results in the order in which they arrive, with what the other goroutines do before each.
unfoldable pub finish_each :
    (ℕ → Option String)
    → (Taken → Runtime → Runtime)
    → List Taken
    → Runtime
    → Runtime × List (ℕ × String)
finish_each stops meanwhile [] r = (r, [])
finish_each stops meanwhile (t ∷ ts) r =
    let (r', failures) =
      finish_each stops meanwhile ts (finish_suspend t (stop_answer stops t) (meanwhile t r)) in
    (r', failed (stop_answer stops t) failures)
  where
    failed : Option String → List (ℕ × String) → List (ℕ × String)
    failed none fs = fs
    failed (some e) fs = (t.forward_id, e) ∷ fs

-- `Suspend`: the plan, and the failures, whose texts are sorted before they are shown
unfoldable pub suspend :
    (ℕ → Option String)
    → (Taken → Runtime → Runtime)
    → List ℕ
    → Runtime
    → Runtime × List SuspendedForward × List (ℕ × String)
suspend stops meanwhile ids r =
    let (r₁, ts) = begin_suspend ids r in
    let (r₂, failures) = finish_each stops meanwhile ts r₁ in (r₂, plan_of ts, failures)

-- `SuspendAll`
unfoldable pub suspend_all :
    (ℕ → Option String)
    → (Taken → Runtime → Runtime)
    → Runtime
    → Runtime × List SuspendedForward × List (ℕ × String)
suspend_all stops meanwhile r = suspend stops meanwhile [] r

abbrev pub everything : ℕ → RunEntry → Bool
everything id e = true

-- the first section of `Shutdown`
unfoldable pub begin_shutdown : Runtime → Runtime × List Taken
begin_shutdown r = (
  record r { closing = true; runs = update_all (mark_stopping everything) r.runs },
  taken_of everything r.runs,
)

-- what the goroutine of one entry does in `Shutdown`; an entry without a run has none
unfoldable pub finish_shutdown : Taken → Option String → Runtime → Runtime
finish_shutdown t stop_error r = held t.run
  where
    ended : Option String → Runtime
    ended none = finish_run t.forward_id (plain_status t.forward_id stopped none) r
    ended (some e) = record r {
      states = put t.forward_id (plain_status t.forward_id error (some (run_failed e))) r.states;
    }

    held : Option ℕ → Runtime
    held none = r
    held (some h) =
        if not (is_current r t.forward_id t.generation (some h)) then r else ended stop_error
