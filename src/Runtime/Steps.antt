-- ===== src/Runtime/Steps.antt =====
-- The interleavings of the goroutines of internal/biz/runtime.go: critical sections one after another,
-- each about any forward, generation and run.
use tunnel_board.Prelude.{
  ℕ, ◌+◌, ◌<◌, ◌≤◌, ◌^◌, String, true, nat_eq, Option, none, some, List, suc, value_at, ◌≡◌, refl,
  arith,
}
use tunnel_board.Runtime.{Failure, Runtime, RunEntry, RuntimeStatus, stopping, next_after}
use tunnel_board.Runtime.Starting.{
  closed, begin_start, finish_start_failure, publish_start, abandon_start,
}
use tunnel_board.Runtime.Stopping.{
  begin_stop, finish_stop, finish_stop_in_background, Taken, begin_suspend, finish_suspend,
  begin_shutdown, finish_shutdown,
}
use tunnel_board.Runtime.Watching.{EventType, handle_event, finish_watch}
use tunnel_board.Runtime.Invariant.{AreEntries, IsConsistent}
use tunnel_board.Runtime.Sections.{
  begin_start-IsConsistent, publish_start-IsConsistent, finish_start_failure-IsConsistent,
  abandon_start-IsConsistent, begin_stop-IsConsistent,
}
use tunnel_board.Runtime.Ends.{
  begin_shutdown-IsConsistent, finish_stop-IsConsistent, finish_stop_in_background-IsConsistent,
  begin_suspend-IsConsistent, finish_suspend-IsConsistent, finish_shutdown-IsConsistent,
  handle_event-IsConsistent, finish_watch-IsConsistent,
}
use tunnel_board.Runtime.Kept.{
  IsKept, publish_start-IsKept, finish_start_failure-IsKept, abandon_start-IsKept,
  begin_stop-IsKept, finish_stop-IsKept, finish_stop_in_background-IsKept, begin_suspend-IsKept,
  finish_suspend-IsKept, finish_shutdown-IsKept, handle_event-IsKept, finish_watch-IsKept,
  begin_shutdown-IsKept, begin_shutdown_closing,
}

infix 40 ◌⟶◌
-- a critical section other than the beginning of a start
pub data ◌⟶◌ : Runtime → Runtime → Type 0 where
  published :
      (r : Runtime) (id generation run : ℕ) (address : String) (latency : Option ℕ)
      → r ⟶ (publish_start id generation run address latency r).0
  start_failed :
      (r : Runtime) (id generation : ℕ) (e : Failure) → r ⟶ (finish_start_failure id generation e r)
  start_abandoned :
      (r : Runtime) (id generation : ℕ) (e : Option String) → r ⟶ (abandon_start id generation e r)
  stop_begun : (r : Runtime) (id : ℕ) → r ⟶ (begin_stop id r).0
  stop_finished :
      (r : Runtime) (id generation : ℕ) (run : Option ℕ) (e : Option String)
      → r ⟶ (finish_stop id generation run e r)
  stop_finished_later :
      (r : Runtime) (id generation : ℕ) (run : Option ℕ) (e : Option String)
      → r ⟶ (finish_stop_in_background id generation run e r)
  suspend_begun : (r : Runtime) (ids : List ℕ) → r ⟶ (begin_suspend ids r).0
  suspend_finished : (r : Runtime) (t : Taken) (e : Option String) → r ⟶ (finish_suspend t e r)
  shutdown_finished : (r : Runtime) (t : Taken) (e : Option String) → r ⟶ (finish_shutdown t e r)
  event_handled :
      (r : Runtime) (id generation run : ℕ) (type : EventType) (e : Option String)
      (latency : Option ℕ)
      → r ⟶ (handle_event id generation run type e latency r)
  watch_finished :
      (r : Runtime) (id generation run : ℕ) (e : Option String)
      → r ⟶ (finish_watch id generation run e r)
  shutdown_begun : (r : Runtime) → r ⟶ (begin_shutdown r).0

abbrev pub AllStopping : Option RunEntry → Type 0
AllStopping none = Unit
AllStopping (some e) = e.phase ≡ stopping

pub Step-IsKept : {r t : Runtime} → r ⟶ t → IsKept r t
Step-IsKept (published r id g h a l) = publish_start-IsKept id g h a l r
Step-IsKept (start_failed r id g e) = finish_start_failure-IsKept id g e r
Step-IsKept (start_abandoned r id g e) = abandon_start-IsKept id g e r
Step-IsKept (stop_begun r id) = begin_stop-IsKept id r
Step-IsKept (stop_finished r id g h e) = finish_stop-IsKept id g h e r
Step-IsKept (stop_finished_later r id g h e) = finish_stop_in_background-IsKept id g h e r
Step-IsKept (suspend_begun r ids) = begin_suspend-IsKept ids r
Step-IsKept (suspend_finished r t e) = finish_suspend-IsKept t e r
Step-IsKept (shutdown_finished r t e) = finish_shutdown-IsKept t e r
Step-IsKept (event_handled r id g h type e l) = handle_event-IsKept id g h type e l r
Step-IsKept (watch_finished r id g h e) = finish_watch-IsKept id g h e r
Step-IsKept (shutdown_begun r) = begin_shutdown-IsKept r

pub Step-IsConsistent : {r t : Runtime} → r ⟶ t → IsConsistent r → IsConsistent t
Step-IsConsistent (published r id g h a l) c = publish_start-IsConsistent id g h a l r c
Step-IsConsistent (start_failed r id g e) c = finish_start_failure-IsConsistent id g e r c
Step-IsConsistent (start_abandoned r id g e) c = abandon_start-IsConsistent id g e r c
Step-IsConsistent (stop_begun r id) c = begin_stop-IsConsistent id r c
Step-IsConsistent (stop_finished r id g h e) c = finish_stop-IsConsistent id g h e r c
Step-IsConsistent (stop_finished_later r id g h e) c =
    finish_stop_in_background-IsConsistent id g h e r c
Step-IsConsistent (suspend_begun r ids) c = begin_suspend-IsConsistent ids r c
Step-IsConsistent (suspend_finished r t e) c = finish_suspend-IsConsistent t e r c
Step-IsConsistent (shutdown_finished r t e) c = finish_shutdown-IsConsistent t e r c
Step-IsConsistent (event_handled r id g h type e l) c =
    handle_event-IsConsistent id g h type e l r c
Step-IsConsistent (watch_finished r id g h e) c = finish_watch-IsConsistent id g h e r c
Step-IsConsistent (shutdown_begun r) c = begin_shutdown-IsConsistent r c

-- `Runs n r t`: from r the goroutines come to t, with n beginnings of a start on the way
pub data Runs : ℕ → Runtime → Runtime → Type 0 where
  here : {r : Runtime} → Runs 0 r r
  step : {n : ℕ} {r s t : Runtime} → Runs n r s → s ⟶ t → Runs n r t
  start_begun :
      {n : ℕ} {r s : Runtime} → Runs n r s → (id : ℕ) → Runs (suc n) r (begin_start id s).0

-- a start takes the next generation at most, and none once the runtime is closing
pub begin_start_next :
    (id : ℕ) (r : Runtime)
    → r.next_generation + 1 < 2 ^ 64
    → (r.next_generation ≤ (begin_start id r).0.next_generation)
      × ((begin_start id r).0.next_generation ≤ r.next_generation + 1)
      × (r.closing ≡ true → (begin_start id r).0 ≡ r)
unfolding begin_start
begin_start_next id r b =
    let n : next_after r.next_generation ≡ r.next_generation + 1 = omega (arith, b) in
    (ground (arith, n), ground (arith, n), λ z. ground arith)

-- Whatever the goroutines do, in any order and about any forward, generation and run: a consistent
-- state stays consistent, the generation counter grows by one at most for each start that was begun,
-- and a runtime that is closing goes on closing; if the counter and the number of the starts stay
-- below 2^64.
pub Runs-IsConsistent :
    {n : ℕ} {r t : Runtime}
    → Runs n r t
    → r.next_generation + n < 2 ^ 64
    → IsConsistent r
    → IsConsistent t
      × (t.next_generation ≤ r.next_generation + n)
      × (r.next_generation ≤ t.next_generation)
      × (r.closing ≡ true → t.closing ≡ true)
Runs-IsConsistent here b h = (h, omega arith, omega arith, λ z. z)
Runs-IsConsistent (step {n = n} {s = s} m e) b h =
    let (c, u, l, z) = Runs-IsConsistent m b h in
    let (k, y) = Step-IsKept e in
    (Step-IsConsistent e c, omega (arith, k, u), omega (arith, k, l), λ q. y (z q))
Runs-IsConsistent (start_begun {n = n} {s = s} m id) b h =
    let (c, u, l, z) = Runs-IsConsistent m (omega (arith, b)) h in
    let small : s.next_generation + 1 < 2 ^ 64 = omega (arith, b, u) in
    let (k, y, same) = begin_start_next id s small in
    (
      begin_start-IsConsistent id s small c,
      omega (arith, y, u),
      omega (arith, k, l),
      λ q. rw (same (z q)) (z q),
    )

-- After `Shutdown` has begun on a consistent state, in every state that the goroutines can reach, with
-- fewer than 2^64 starts, each entry is being stopped and every further start is refused without a
-- change.
pub shutdown_quiesces :
    (r t : Runtime) (n : ℕ)
    → IsConsistent r
    → r.next_generation + n < 2 ^ 64
    → Runs n (begin_shutdown r).0 t
    → ((id : ℕ) → AllStopping (value_at id t.runs)) × ((id : ℕ) → begin_start id t ≡ (t, closed))
unfolding begin_start
shutdown_quiesces r t n h b m =
    let kept = begin_shutdown-IsKept r in
    let closing : (begin_shutdown r).0.closing ≡ true = begin_shutdown_closing r in
    let all = Runs-IsConsistent m (rw kept.0 b) (begin_shutdown-IsConsistent r h) in
    let z = all.3 closing in
    (
      λ id. stops (value_at id t.states) (value_at id t.runs) z (all.0.local id).0,
      λ id. simp z refl,
    )
  where
    stops :
        (s : Option RuntimeStatus) (o : Option RunEntry)
        → t.closing ≡ true
        → AreEntries t.next_generation t.closing s o
        → AllStopping o
    stops s none z l = tt
    stops s (some e) z l = l.5 z
