-- ===== src/Logs.antt =====
-- internal/diag/logstore.go: the queue in front of one log file. A line comes prepared: redacted, cut
-- to its limit and ended by a newline (`prepareLogLine`, which is not modelled).
pub mod Queue
pub mod Rotation
pub mod Tail
use tunnel_board.Prelude.{
  ℕ, ◌+◌, ◌-◌, String, Bool, true, false, not, ◌&&◌, ◌||◌, Option, none, some, List, [], ◌∷◌, ◌++◌,
  length, ltb, if◌then◌else◌,
}

abbrev pub Bytes : Type 0
Bytes = List ℕ

pub record LogStoreLimits : Type 0 where
  pub file_bytes : ℕ
  pub archives : ℕ
  pub line_bytes : ℕ
  pub queue_bytes : ℕ
  pub tail_bytes : ℕ
  pub tail_lines : ℕ

abbrev pub default_log_store_limits : LogStoreLimits
default_log_store_limits = record {
  file_bytes = 5242880;
  archives = 3;
  line_bytes = 65536;
  queue_bytes = 1048576;
  tail_bytes = 262144;
  tail_lines = 500;
}

-- the channel's capacity
abbrev pub command_slots : ℕ
command_slots = 4096

-- a barrier and a close carry the channel on which they are answered, here a number
pub data LogCommand : Type 0 where
  line_command : Bytes → LogCommand
  barrier_command close_command : ℕ → LogCommand

-- `logSourceState`: what its queue lock and its channel hold, the lines with which the loop has
-- called `writeLine`, the latest first, and the barriers and closes that were answered. The loop ignores
-- what `writeLine` (Logs/Rotation) answers, so a call is recorded whether or not its line gets to the file
pub record LogSource : Type 0 where
  pub limits : LogStoreLimits
  pub commands : List LogCommand
  pub queued : ℕ
  pub dropped : ℕ
  pub dropped_since_tail : ℕ
  pub closed : Bool
  pub finished : Bool
  pub handed : List Bytes
  pub answered : List ℕ

abbrev pub drop_line : Bytes → LogSource → LogSource
drop_line line s = record s {
  dropped = s.dropped + length line;
  dropped_since_tail = s.dropped_since_tail + length line;
}

-- `append`, of a prepared line
unfoldable pub append : Bytes → LogSource → LogSource
append line s =
    if s.closed || ltb s.limits.queue_bytes (s.queued + length line)
    then drop_line line s
    else if ltb (length s.commands) command_slots
    then record s {
      queued = s.queued + length line;
      commands = s.commands ++ (line_command line ∷ []);
    }
    else drop_line line s

-- the line `dropped N bytes`, prepared
module _ (notice : ℕ → Bytes) where
  -- `flushDropped`, and the same in the writer's loop
  unfoldable pub flush_dropped : LogSource → LogSource
  flush_dropped s = record s {
    dropped = 0;
    handed = if ltb 0 s.dropped then notice s.dropped ∷ s.handed else s.handed;
  }

  -- one turn of the loop of `run`, which ends after a close
  unfoldable pub run_one : LogSource → LogSource
  run_one s = if s.finished then s else received s.commands
    where
      received : List LogCommand → LogSource
      received [] = s
      received (line_command line ∷ cs) =
          let s₁ = flush_dropped (record s { commands = cs; queued = s.queued - length line }) in
          record s₁ { handed = line ∷ s₁.handed }
      received (barrier_command b ∷ cs) =
          let s₁ = flush_dropped (record s { commands = cs }) in
          record s₁ { answered = b ∷ s₁.answered }
      received (close_command b ∷ cs) =
          let s₁ = flush_dropped (record s { commands = cs }) in
          record s₁ { answered = b ∷ s₁.answered; finished = true }

-- the part of `sync` before it waits: the barrier, unless the source is closed
unfoldable pub begin_sync : ℕ → LogSource → LogSource × Bool
begin_sync b s =
    if s.closed
    then (s, false)
    else (record s { commands = s.commands ++ (barrier_command b ∷ []) }, true)

-- the part of `close` before it waits; with no place in the channel it gives up in time
unfoldable pub begin_close : ℕ → Bool → LogSource → LogSource × Bool
begin_close b in_time s =
    if s.closed
    then (s, true)
    else if in_time
    then (record s { closed = true; commands = s.commands ++ (close_command b ∷ []) }, true)
    else (record s { closed = true }, false)

-- what `Tail` adds to its answer: the bytes dropped since the tail before
unfoldable pub take_dropped : LogSource → LogSource × ℕ
take_dropped s = (record s { dropped_since_tail = 0 }, s.dropped_since_tail)
