-- ===== src/Runtime/Kept.antt =====
-- What the sections of internal/biz/runtime.go leave as it is.
use tunnel_board.Prelude.{ℕ, String, true, nat_eq, Option, List, ◌≡◌, refl, arith}
use tunnel_board.Runtime.{Failure, Runtime}
use tunnel_board.Runtime.Starting.{finish_start_failure, publish_start, abandon_start}
use tunnel_board.Runtime.Stopping.{
  begin_stop, finish_stop, finish_stop_in_background, Taken, begin_suspend, finish_suspend,
  begin_shutdown, finish_shutdown,
}
use tunnel_board.Runtime.Watching.{EventType, handle_event, finish_watch}

-- what no section but the beginning of a start changes, and what a section never takes back
abbrev pub IsKept : Runtime → Runtime → Type 0
IsKept r r' = (r'.next_generation ≡ r.next_generation) × (r.closing ≡ true → r'.closing ≡ true)

pub publish_start-IsKept :
    (id generation run : ℕ) (address : String) (latency : Option ℕ) (r : Runtime)
    → IsKept r (publish_start id generation run address latency r).0
unfolding publish_start
publish_start-IsKept id generation run address latency r = ground arith

pub finish_start_failure-IsKept :
    (id generation : ℕ) (e : Failure) (r : Runtime)
    → IsKept r (finish_start_failure id generation e r)
unfolding finish_start_failure
finish_start_failure-IsKept id generation e r = ground arith

pub abandon_start-IsKept :
    (id generation : ℕ) (e : Option String) (r : Runtime)
    → IsKept r (abandon_start id generation e r)
unfolding abandon_start
abandon_start-IsKept id generation e r = ground arith

pub begin_stop-IsKept : (id : ℕ) (r : Runtime) → IsKept r (begin_stop id r).0
unfolding begin_stop
begin_stop-IsKept id r = ground arith

pub finish_stop-IsKept :
    (id generation : ℕ) (run : Option ℕ) (e : Option String) (r : Runtime)
    → IsKept r (finish_stop id generation run e r)
unfolding finish_stop
finish_stop-IsKept id generation run e r = ground arith

pub finish_stop_in_background-IsKept :
    (id generation : ℕ) (run : Option ℕ) (e : Option String) (r : Runtime)
    → IsKept r (finish_stop_in_background id generation run e r)
unfolding finish_stop_in_background
finish_stop_in_background-IsKept id generation run e r = ground arith

pub begin_suspend-IsKept : (ids : List ℕ) (r : Runtime) → IsKept r (begin_suspend ids r).0
unfolding begin_suspend
begin_suspend-IsKept ids r = ground arith

pub finish_suspend-IsKept :
    (t : Taken) (e : Option String) (r : Runtime) → IsKept r (finish_suspend t e r)
unfolding finish_suspend
finish_suspend-IsKept t e r = ground arith

pub finish_shutdown-IsKept :
    (t : Taken) (e : Option String) (r : Runtime) → IsKept r (finish_shutdown t e r)
unfolding finish_shutdown
finish_shutdown-IsKept t e r = ground arith

pub handle_event-IsKept :
    (id generation run : ℕ) (type : EventType) (e : Option String) (latency : Option ℕ)
    (r : Runtime)
    → IsKept r (handle_event id generation run type e latency r)
unfolding handle_event
handle_event-IsKept id generation run type e latency r = ground arith

pub finish_watch-IsKept :
    (id generation run : ℕ) (e : Option String) (r : Runtime)
    → IsKept r (finish_watch id generation run e r)
unfolding finish_watch
finish_watch-IsKept id generation run e r = ground arith

pub begin_shutdown-IsKept : (r : Runtime) → IsKept r (begin_shutdown r).0
unfolding begin_shutdown
begin_shutdown-IsKept r = ground arith

pub begin_shutdown_closing : (r : Runtime) → (begin_shutdown r).0.closing ≡ true
unfolding begin_shutdown
begin_shutdown_closing r = refl
