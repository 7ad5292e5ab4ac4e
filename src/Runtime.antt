-- ===== src/Runtime.antt =====
-- internal/biz/runtime.go: which forwards run, and what is shown of them. The program's goroutines
-- share the state under one lock; each function of the modules below is one critical section, so the
-- goroutines interleave between them.
pub mod Starting
pub mod Stopping
pub mod Watching
pub mod Queries
pub mod Invariant
pub mod Sections
pub mod Ends
pub mod Kept
pub mod Steps
pub mod Later
pub mod Stale
use tunnel_board.Prelude.{
  ℕ, ◌+◌, ◌%◌, ◌^◌, String, Bool, true, false, ◌&&◌, ◌==◌, nat_eq, Option, none, some, [], Table,
  value_at, put, remove, ◌≡◌, refl, ◌⊎◌, inl, inr,
}
use tunnel_board.Result.{Error}

-- the error of a run is the text that the run gave
pub data Failure : Type 0 where
  runtime_closing forward_stopping caller_gone : Failure
  forward_not_found host_not_found : ℕ → Failure
  vault_failed : Error → Failure
  run_failed : String → Failure

pub data RuntimeState : Type 0 where
  running reconnecting stopped error : RuntimeState

-- `last_error` is none where the source has the empty text
pub record RuntimeStatus : Type 0 where
  pub forward_id : ℕ
  pub status : RuntimeState
  pub last_error : Option Failure
  pub latency_ms : ℕ

pub data RunPhase : Type 0 where
  starting active stopping : RunPhase

pub phase_cases : (p : RunPhase) → (p ≡ starting) ⊎ (p ≡ active) ⊎ (p ≡ stopping)
phase_cases starting = inl refl
phase_cases active = inr (inl refl)
phase_cases stopping = inr (inr refl)

-- `run` stands for the pointer to the run: runs are numbered
pub record RunEntry : Type 0 where
  pub generation : ℕ
  pub phase : RunPhase
  pub run : Option ℕ
  pub listener_address : String

-- the part of `RuntimeBiz` that its lock guards
pub record Runtime : Type 0 where
  pub runs : Table RunEntry
  pub states : Table RuntimeStatus
  pub next_generation : ℕ
  pub closing : Bool

abbrev pub new_runtime : Runtime
new_runtime = record { runs = []; states = []; next_generation = 0; closing = false }

-- `b.nextGeneration++` on a `uint64`
abbrev pub next_after : ℕ → ℕ
next_after n = (n + 1) % 2 ^ 64

abbrev pub plain_status : ℕ → RuntimeState → Option Failure → RuntimeStatus
plain_status id state e = record { forward_id = id; status = state; last_error = e; latency_ms = 0 }

-- `b.states[id]`, whose missing value is all zero; the empty status text is never shown, since each
-- caller sets it or the entry was there
abbrev pub state_of : Runtime → ℕ → RuntimeStatus
state_of r id = state_or (value_at id r.states)
  where
    state_or : Option RuntimeStatus → RuntimeStatus
    state_or none = plain_status 0 stopped none
    state_or (some s) = s

abbrev pub same_run : Option ℕ → Option ℕ → Bool
same_run none none = true
same_run (some a) (some b) = a == b
same_run _ _ = false

-- `isCurrentLocked`
unfoldable pub is_current : Runtime → ℕ → ℕ → Option ℕ → Bool
is_current r id generation run = matches (value_at id r.runs)
  where
    matches : Option RunEntry → Bool
    matches none = false
    matches (some e) = (e.generation == generation) && same_run e.run run

-- the end of a run: its entry goes, and a status is left
abbrev pub finish_run : ℕ → RuntimeStatus → Runtime → Runtime
finish_run id s r = record r { runs = remove id r.runs; states = put id s r.states }
