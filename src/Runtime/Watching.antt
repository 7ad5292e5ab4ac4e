-- ===== src/Runtime/Watching.antt =====
-- `watch` and `handleEvent` of internal/biz/runtime.go.
use tunnel_board.Prelude.{
  ℕ, String, Bool, false, not, ◌||◌, Option, none, some, value_at, put, if◌then◌else◌,
}
use tunnel_board.Runtime.{
  run_failed, Runtime, RunEntry, RuntimeStatus, running, reconnecting, stopped, error, plain_status,
  state_of, is_current, finish_run,
}
use tunnel_board.Runtime.Stopping.{is_stopping}

-- the types of `forward.RuntimeEvent` that the runtime tells apart
pub data EventType : Type 0 where
  disconnected reconnected other_event : EventType

-- `handleEvent`, with the event's error and the run's latency
unfoldable pub handle_event : ℕ → ℕ → ℕ → EventType → Option String → Option ℕ → Runtime → Runtime
handle_event id generation run type e latency r =
    if not (is_current r id generation (some run))
    then r
    else record r { states = put id (seen type) r.states }
  where
    st : RuntimeStatus
    st = record (state_of r id) { forward_id = id }

    with_error : Option String → RuntimeStatus → RuntimeStatus
    with_error none s = s
    with_error (some e) s = record s { last_error = some (run_failed e) }

    with_latency : Option ℕ → RuntimeStatus → RuntimeStatus
    with_latency none s = s
    with_latency (some n) s = record s { latency_ms = n }

    seen : EventType → RuntimeStatus
    seen disconnected = with_error e (record st { status = reconnecting })
    seen reconnected = with_latency latency (record st { status = running; last_error = none })
    seen other_event = st

-- the end of `watch`, when the run is done, with the run's error
unfoldable pub finish_watch : ℕ → ℕ → ℕ → Option String → Runtime → Runtime
finish_watch id generation run e r =
    if not (is_current r id generation (some run)) || being_stopped (value_at id r.runs)
    then r
    else ended e
  where
    being_stopped : Option RunEntry → Bool
    being_stopped none = false
    being_stopped (some e) = is_stopping e

    ended : Option String → Runtime
    ended none = finish_run id (plain_status id stopped none) r
    ended (some e) =
        finish_run id
          (record (state_of r id) {
            forward_id = id;
            status = error;
            last_error = some (run_failed e);
          })
          r
