-- ===== src/Tests/Runtime.antt =====
-- Two forwards of the runtime.
use tunnel_board.Prelude.{
  false, Option, ℕ, ◌+◌, ◌≤◌, true, some, ◌≡◌, refl, arith, value_at, String,
}
use tunnel_board.Runtime.{Failure, runtime_closing, Runtime, new_runtime}
use tunnel_board.Runtime.Starting.{
  closed, begun, begin_start, publish_start, finish_start_failure, abandon_start,
}
use tunnel_board.Runtime.Watching.{EventType, finish_watch, handle_event}
use tunnel_board.Runtime.Stopping.{
  begin_shutdown, finish_stop, finish_stop_in_background, finish_suspend, finish_shutdown,
}
use tunnel_board.Runtime.Invariant.{IsConsistent, new_runtime-IsConsistent}
use tunnel_board.Runtime.Sections.{begin_start-IsConsistent, finish_start_failure-IsConsistent}
use tunnel_board.Runtime.Steps.{
  Runs, here, step, start_begun, published, Runs-IsConsistent, AllStopping, shutdown_quiesces,
}
use tunnel_board.Runtime.Stale.{stale_start_inert}

abbrev one : Runtime
one = (begin_start 7 new_runtime).0

abbrev up : Runtime
up = (publish_start 7 1 40 "127.0.0.1:8080" (some 12) one).0

up-Runs : Runs 1 new_runtime up
up-Runs = step (start_begun here 7) (published one 7 1 40 "127.0.0.1:8080" (some 12))

Runs-IsConsistent_example :
    IsConsistent up
    × (up.next_generation ≤ new_runtime.next_generation + 1)
    × (new_runtime.next_generation ≤ up.next_generation)
    × (new_runtime.closing ≡ true → up.closing ≡ true)
Runs-IsConsistent_example = Runs-IsConsistent up-Runs (omega arith) new_runtime-IsConsistent

one-IsConsistent : IsConsistent one
one-IsConsistent = begin_start-IsConsistent 7 new_runtime (omega arith) new_runtime-IsConsistent

up-next : up.next_generation ≡ 1
unfolding begin_start publish_start
up-next = refl

shutdown_quiesces_example :
    ((id : ℕ) → AllStopping (value_at id (begin_start 9 (begin_shutdown up).0).0.runs))
    × ((id : ℕ)
        → begin_start id (begin_start 9 (begin_shutdown up).0).0
          ≡ ((begin_start 9 (begin_shutdown up).0).0, closed))
shutdown_quiesces_example =
    shutdown_quiesces up (begin_start 9 (begin_shutdown up).0).0 1 Runs-IsConsistent_example.0
      (omega (arith, up-next)) (start_begun here 9)

-- the first start of the forward has failed
abbrev failed : Runtime
failed = finish_start_failure 7 1 runtime_closing one

failed-next : failed.next_generation ≡ 1
unfolding begin_start finish_start_failure
failed-next = refl

failed_again : (begin_start 7 failed).1 ≡ begun 2
unfolding begin_start finish_start_failure
failed_again = refl

abbrev again : Runtime
again = (begin_start 7 failed).0

stale_start_inert_example :
    ((run : ℕ) (address : String) (latency : Option ℕ)
      → publish_start 7 1 run address latency again ≡ (again, false))
    × ((e : Failure) → finish_start_failure 7 1 e again ≡ again)
    × ((e : Option String) → abandon_start 7 1 e again ≡ again)
    × ((run : Option ℕ) (e : Option String) → finish_stop 7 1 run e again ≡ again)
    × ((run : Option ℕ) (e : Option String) → finish_stop_in_background 7 1 run e again ≡ again)
    × ((run : Option ℕ) (e : Option String)
        → finish_suspend (record { forward_id = 7; generation = 1; run = run }) e again ≡ again)
    × ((run : Option ℕ) (e : Option String)
        → finish_shutdown (record { forward_id = 7; generation = 1; run = run }) e again ≡ again)
    × ((run : ℕ) (e : Option String) → finish_watch 7 1 run e again ≡ again)
    × ((run : ℕ) (type : EventType) (e : Option String) (latency : Option ℕ)
        → handle_event 7 1 run type e latency again ≡ again)
stale_start_inert_example =
    stale_start_inert 7 1 2 0 failed again
      (finish_start_failure-IsConsistent 7 1 runtime_closing one one-IsConsistent)
      (omega (arith, failed-next)) (omega (arith, failed-next)) failed_again here
