-- ===== src/PoolEntry.antt =====
-- `poolEntry` of internal/forward/conn_pool.go: one shared connection of the pool, with what its
-- methods and those of the pool do to it under its lock. A client is known by a number; `closed`
-- lists the clients that were closed. Dialling is an argument: the new client, or none.
pub mod Leases
pub mod Pool
use tunnel_board.Prelude.{
  ℤ, pos, negsuc, add_one, sub_one, is_zero, ◌%◌, ◌^◌, ℕ, zero, suc, ◌+◌, Bool, true, false, ◌&&◌,
  ◌||◌, not, ◌==◌, nat_eq, List, [], ◌∷◌, Option, none, some, if◌then◌else◌,
}

pub record PoolEntry : Type 0 where
  pub client : Option ℕ
  pub dead : Bool
  pub refs : ℤ
  pub generation : ℕ

-- the entry, with the pool's `nextGeneration` and the clients that were closed
pub record Shared : Type 0 where
  pub entry : PoolEntry
  pub next_generation : ℕ
  pub closed : List ℕ

-- `closeAll` of a generation, where there is one
abbrev pub close_client : Option ℕ → List ℕ → List ℕ
close_client none closed = closed
close_client (some c) closed = c ∷ closed

abbrev pub is_client : Option ℕ → ℕ → Bool
is_client none c = false
is_client (some d) c = d == c

abbrev pub is_missing : Option ℕ → Bool
is_missing none = true
is_missing (some c) = false

abbrev pub redial : Option ℕ → Shared → Shared × Option ℕ
redial none s = (s, none)
redial (some c) s = (
  record {
    entry = record {
      client = some c;
      dead = false;
      refs = add_one (pos 0);
      generation = (s.next_generation + 1) % 2 ^ 64;
    };
    next_generation = (s.next_generation + 1) % 2 ^ 64;
    closed = close_client s.entry.client s.closed;
  },
  some c,
)

abbrev pub one_more : Shared → Shared × Option ℕ
one_more s = (record s { entry = record s.entry { refs = add_one s.entry.refs } }, s.entry.client)

-- `acquire`, on the entry of the host
unfoldable pub acquire : Option ℕ → Shared → Shared × Option ℕ
acquire dialled s =
    if is_missing s.entry.client || s.entry.dead then redial dialled s else one_more s

-- `release`
unfoldable pub release : ℕ → Shared → Shared
release c s =
    if not (is_client s.entry.client c)
    then s
    else if not (is_zero (sub_one s.entry.refs))
    then record s { entry = record s.entry { refs = sub_one s.entry.refs } }
    else record s {
      entry = record s.entry { refs = sub_one s.entry.refs; dead = true };
      closed = close_client s.entry.client s.closed;
    }

-- `watch`, the keep-alive loop after a failed probe, and the abort of `captureGenerationAbort`: all
-- three mark the generation that they know.
unfoldable pub mark_dead : ℕ → ℕ → Shared → Shared
mark_dead c generation s =
    if is_client s.entry.client c && s.entry.generation == generation
    then record s {
      entry = record s.entry { dead = true };
      closed = close_client s.entry.client s.closed;
    }
    else s

-- the loop's body of `CloseAll` and `RetireHost`
unfoldable pub close_entry : Shared → Shared
close_entry s = record s {
  entry = record s.entry { dead = true };
  closed = close_client s.entry.client s.closed;
}
