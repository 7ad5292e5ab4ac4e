-- ===== src/Runtime/Later.antt =====
-- The generations of internal/biz/runtime.go only go up: what comes after a start is later than it.
use tunnel_board.Prelude.{
  ℕ, ◌+◌, ◌<◌, ◌≤◌, ◌^◌, String, Bool, nat_eq, Option, none, some, List, value_at, value_at-remove,
  value_at-update_all, ◌≡◌, arith,
}
use mathlib.Core.Option as O
use tunnel_board.Runtime.{Failure, Runtime, RunEntry, next_after}
use tunnel_board.Runtime.Starting.{
  begun, begin_start, finish_start_failure, publish_start, abandon_start,
}
use tunnel_board.Runtime.Stopping.{
  begin_stop, finish_stop, finish_stop_in_background, Taken, mark_stopping, begin_suspend,
  finish_suspend, begin_shutdown, finish_shutdown, is_asked, everything,
}
use tunnel_board.Runtime.Watching.{EventType, handle_event, finish_watch}
use tunnel_board.Runtime.Invariant.{IsConsistent}
use tunnel_board.Runtime.Steps.{
  ◌⟶◌, Runs, here, step, start_begun, Runs-IsConsistent, shutdown_begun, published, start_failed,
  start_abandoned, stop_begun, stop_finished, stop_finished_later, suspend_begun, suspend_finished,
  shutdown_finished, event_handled, watch_finished,
}

-- every entry of the forward is of a later generation
abbrev pub IsLater : ℕ → Option RunEntry → Type 0
IsLater g none = Unit
IsLater g (some e) = g < e.generation

IsLater-marked :
    (p : ℕ → RunEntry → Bool) (k g : ℕ) (o : Option RunEntry)
    → IsLater g o
    → IsLater g (O.map (mark_stopping p k) o)
IsLater-marked p k g none h = tt
IsLater-marked p k g (some e) h = ground arith

publish_start-IsLater :
    (k g : ℕ) (id generation run : ℕ) (address : String) (latency : Option ℕ) (r : Runtime)
    → IsLater g (value_at k r.runs)
    → IsLater g (value_at k (publish_start id generation run address latency r).0.runs)
unfolding publish_start
publish_start-IsLater k g id generation run address latency r h =
    ground (arith, h, value_at-remove k id r.runs, nat_eq.same_iff id k)

finish_start_failure-IsLater :
    (k g : ℕ) (id generation : ℕ) (e : Failure) (r : Runtime)
    → IsLater g (value_at k r.runs)
    → IsLater g (value_at k (finish_start_failure id generation e r).runs)
unfolding finish_start_failure
finish_start_failure-IsLater k g id generation e r h =
    ground (arith, h, value_at-remove k id r.runs, nat_eq.same_iff id k)

abandon_start-IsLater :
    (k g : ℕ) (id generation : ℕ) (e : Option String) (r : Runtime)
    → IsLater g (value_at k r.runs)
    → IsLater g (value_at k (abandon_start id generation e r).runs)
unfolding abandon_start
abandon_start-IsLater k g id generation e r h =
    ground (arith, h, value_at-remove k id r.runs, nat_eq.same_iff id k)

begin_stop-IsLater :
    (k g : ℕ) (id : ℕ) (r : Runtime)
    → IsLater g (value_at k r.runs)
    → IsLater g (value_at k (begin_stop id r).0.runs)
unfolding begin_stop
begin_stop-IsLater k g id r h = ground (arith, h, value_at-remove k id r.runs, nat_eq.same_iff id k)

finish_stop-IsLater :
    (k g : ℕ) (id generation : ℕ) (run : Option ℕ) (e : Option String) (r : Runtime)
    → IsLater g (value_at k r.runs)
    → IsLater g (value_at k (finish_stop id generation run e r).runs)
unfolding finish_stop
finish_stop-IsLater k g id generation run e r h =
    ground (arith, h, value_at-remove k id r.runs, nat_eq.same_iff id k)

finish_stop_in_background-IsLater :
    (k g : ℕ) (id generation : ℕ) (run : Option ℕ) (e : Option String) (r : Runtime)
    → IsLater g (value_at k r.runs)
    → IsLater g (value_at k (finish_stop_in_background id generation run e r).runs)
unfolding finish_stop_in_background
finish_stop_in_background-IsLater k g id generation run e r h =
    ground (arith, h, value_at-remove k id r.runs, nat_eq.same_iff id k)

finish_suspend-IsLater :
    (k g : ℕ) (t : Taken) (e : Option String) (r : Runtime)
    → IsLater g (value_at k r.runs)
    → IsLater g (value_at k (finish_suspend t e r).runs)
unfolding finish_suspend
finish_suspend-IsLater k g t e r h =
    ground (arith, h, value_at-remove k t.forward_id r.runs, nat_eq.same_iff t.forward_id k)

finish_shutdown-IsLater :
    (k g : ℕ) (t : Taken) (e : Option String) (r : Runtime)
    → IsLater g (value_at k r.runs)
    → IsLater g (value_at k (finish_shutdown t e r).runs)
unfolding finish_shutdown
finish_shutdown-IsLater k g t e r h =
    ground (arith, h, value_at-remove k t.forward_id r.runs, nat_eq.same_iff t.forward_id k)

handle_event-IsLater :
    (k g : ℕ) (id generation run : ℕ) (type : EventType) (e : Option String) (latency : Option ℕ)
    (r : Runtime)
    → IsLater g (value_at k r.runs)
    → IsLater g (value_at k (handle_event id generation run type e latency r).runs)
unfolding handle_event
handle_event-IsLater k g id generation run type e latency r h =
    ground (arith, h, value_at-remove k id r.runs, nat_eq.same_iff id k)

finish_watch-IsLater :
    (k g : ℕ) (id generation run : ℕ) (e : Option String) (r : Runtime)
    → IsLater g (value_at k r.runs)
    → IsLater g (value_at k (finish_watch id generation run e r).runs)
unfolding finish_watch
finish_watch-IsLater k g id generation run e r h =
    ground (arith, h, value_at-remove k id r.runs, nat_eq.same_iff id k)

begin_suspend-IsLater :
    (k g : ℕ) (ids : List ℕ) (r : Runtime)
    → IsLater g (value_at k r.runs)
    → IsLater g (value_at k (begin_suspend ids r).0.runs)
unfolding begin_suspend
begin_suspend-IsLater k g ids r h =
    rw (value_at-update_all (mark_stopping (is_asked ids)) k r.runs)
      (IsLater-marked (is_asked ids) k g (value_at k r.runs) h)

begin_shutdown-IsLater :
    (k g : ℕ) (r : Runtime)
    → IsLater g (value_at k r.runs)
    → IsLater g (value_at k (begin_shutdown r).0.runs)
unfolding begin_shutdown
begin_shutdown-IsLater k g r h =
    rw (value_at-update_all (mark_stopping everything) k r.runs)
      (IsLater-marked everything k g (value_at k r.runs) h)

begin_start-IsLater :
    (k g id : ℕ) (r : Runtime)
    → r.next_generation + 1 < 2 ^ 64
    → g ≤ r.next_generation
    → IsLater g (value_at k r.runs)
    → IsLater g (value_at k (begin_start id r).0.runs)
unfolding begin_start
begin_start-IsLater k g id r b le h =
    let n : next_after r.next_generation ≡ r.next_generation + 1 = omega (arith, b) in
    ground (arith, h, n, value_at-remove k id r.runs, nat_eq.same_iff id k)

Step-IsLater :
    {r t : Runtime}
    → r ⟶ t
    → (k g : ℕ) → IsLater g (value_at k r.runs)
    → IsLater g (value_at k t.runs)
Step-IsLater (published r id v h a l) k g z = publish_start-IsLater k g id v h a l r z
Step-IsLater (start_failed r id v e) k g z = finish_start_failure-IsLater k g id v e r z
Step-IsLater (start_abandoned r id v e) k g z = abandon_start-IsLater k g id v e r z
Step-IsLater (stop_begun r id) k g z = begin_stop-IsLater k g id r z
Step-IsLater (stop_finished r id v h e) k g z = finish_stop-IsLater k g id v h e r z
Step-IsLater (stop_finished_later r id v h e) k g z =
    finish_stop_in_background-IsLater k g id v h e r z
Step-IsLater (suspend_begun r ids) k g z = begin_suspend-IsLater k g ids r z
Step-IsLater (suspend_finished r t e) k g z = finish_suspend-IsLater k g t e r z
Step-IsLater (shutdown_finished r t e) k g z = finish_shutdown-IsLater k g t e r z
Step-IsLater (event_handled r id v h type e l) k g z = handle_event-IsLater k g id v h type e l r z
Step-IsLater (watch_finished r id v h e) k g z = finish_watch-IsLater k g id v h e r z
Step-IsLater (shutdown_begun r) k g z = begin_shutdown-IsLater k g r z

pub Runs-IsLater :
    {n : ℕ} {r t : Runtime}
    → Runs n r t
    → (k g : ℕ) → r.next_generation + n < 2 ^ 64
    → g ≤ r.next_generation
    → IsConsistent r
    → IsLater g (value_at k r.runs)
    → IsLater g (value_at k t.runs)
Runs-IsLater here k g b le c h = h
Runs-IsLater (step m e) k g b le c h = Step-IsLater e k g (Runs-IsLater m k g b le c h)
Runs-IsLater (start_begun {s = s} m id) k g b le c h =
    let all = Runs-IsConsistent m (omega (arith, b)) c in
    begin_start-IsLater k g id s (omega (arith, all.1, b)) (omega (arith, all.2, le))
      (Runs-IsLater m k g (omega (arith, b)) le c h)

pub begun-IsLater :
    (id g g' : ℕ) (r : Runtime)
    → r.next_generation + 1 < 2 ^ 64
    → g ≤ r.next_generation
    → (begin_start id r).1 ≡ begun g'
    → IsLater g (value_at id (begin_start id r).0.runs)
      × ((begin_start id r).0.next_generation ≡ r.next_generation + 1)
unfolding begin_start
begun-IsLater id g g' r b le e =
    let n : next_after r.next_generation ≡ r.next_generation + 1 = omega (arith, b) in
    ground (arith, n, nat_eq.same_iff id id)
