-- ===== src/Runtime/Starting.antt =====
-- `Start` of internal/biz/runtime.go and what starts many.
use tunnel_board.Prelude.{
  ℕ, String, Bool, true, false, not, ◌==◌, nat_eq, text_eq, ◌&&◌, ◌||◌, Option, none, some, List,
  [], ◌∷◌, Table, value_at, put, put_under, if◌then◌else◌, trim_space, map, filter,
}
use tunnel_board.Result.{Result, ok, err}
use tunnel_board.Model.{VaultData, Forward, SshHost}
use tunnel_board.Runtime.{
  Failure, runtime_closing, forward_stopping, forward_not_found, vault_failed, run_failed, Runtime,
  RunEntry, RuntimeStatus, starting, active, stopping, running, stopped, error, next_after,
  plain_status, finish_run,
}

-- how the first section of `Start` ends
pub data Begun : Type 0 where
  closed busy present : Begun
  begun : ℕ → Begun

abbrev pub fresh_entry : ℕ → RunEntry
fresh_entry g = record { generation = g; phase = starting; run = none; listener_address = "" }

unfoldable pub begin_start : ℕ → Runtime → Runtime × Begun
begin_start id r = if r.closing then (r, closed) else entered (value_at id r.runs)
  where
    entered : Option RunEntry → Runtime × Begun
    entered (some e) = elim e.phase [
      | stopping ↦ (r, busy)
      | starting ↦ (r, present)
      | active ↦ (r, present)
    ]
    entered none =
        let g = next_after r.next_generation in
        (record r { next_generation = g; runs = put id (fresh_entry g) r.runs }, begun g)

-- `finishStartFailure`
unfoldable pub finish_start_failure : ℕ → ℕ → Failure → Runtime → Runtime
finish_start_failure id generation e r = ended (value_at id r.runs)
  where
    ended : Option RunEntry → Runtime
    ended none = r
    ended (some entry) =
        if entry.generation == generation
        then finish_run id (plain_status id error (some e)) r
        else r

abbrev pub is_starting : RunEntry → Bool
is_starting e = elim e.phase [ starting ↦ true | active ↦ false | stopping ↦ false ]

-- The section of `Start` after the run has started: the run is entered, unless the entry is gone,
-- another start's or being stopped, or the runtime is closing.
unfoldable pub publish_start : ℕ → ℕ → ℕ → String → Option ℕ → Runtime → Runtime × Bool
publish_start id generation run address latency r = entered (value_at id r.runs)
  where
    milliseconds : Option ℕ → ℕ
    milliseconds none = 0
    milliseconds (some n) = n

    entered : Option RunEntry → Runtime × Bool
    entered none = (r, false)
    entered (some e) =
        if not (e.generation == generation) || not (is_starting e) || r.closing
        then (r, false)
        else (
          record r {
            runs =
                put id (record e { run = some run; phase = active; listener_address = address })
                  r.runs;
            states =
                put id (record (plain_status id running none) { latency_ms = milliseconds latency })
                  r.states;
          },
          true,
        )

-- its last section, after the run that was not entered has been stopped, with the error of that
unfoldable pub abandon_start : ℕ → ℕ → Option String → Runtime → Runtime
abandon_start id generation stop_error r = ended (value_at id r.runs)
  where
    left : Option String → RuntimeStatus
    left none = plain_status id stopped none
    left (some e) = plain_status id error (some (run_failed e))

    unset : Option ℕ → Bool
    unset none = true
    unset (some h) = false

    ended : Option RunEntry → Runtime
    ended none = r
    ended (some e) =
        if (e.generation == generation) && unset e.run then finish_run id (left stop_error) r else r

-- `net.JoinHostPort` with `strconv.Itoa`, given from outside
module _ (join_host_port : String → ℕ → String) where
  -- `localListenerAddress`
  unfoldable pub local_listener_address : Forward → String
  local_listener_address fw =
      if trim_space fw.mode == "remote"
      then ""
      else join_host_port
          (if trim_space fw.local_host == "" then "127.0.0.1" else trim_space fw.local_host)
          fw.local_port

-- `findForwardByID`
unfoldable pub find_forward_by_id : List Forward → ℕ → Option Forward
find_forward_by_id [] id = none
find_forward_by_id (fw ∷ fws) id =
    let rest = find_forward_by_id fws id in if fw.id == id then some fw else rest

-- What `Start` meets: the loaded vault, the resolved chain, the run that it makes, how the run's
-- start and, if it comes to that, its stop end, and what the other goroutines do between the sections.
pub record StartWorld : Type 0 where
  pub load : Result VaultData
  pub resolve : Forward → Result (List SshHost)
  pub join_host_port : String → ℕ → String
  pub run : ℕ
  pub start_error : Option String
  pub latency : Option ℕ
  pub stop_error : Option String
  pub meanwhile : Runtime → Runtime

-- `Start`
unfoldable pub start : StartWorld → ℕ → Runtime → Runtime × Option Failure
start world id r = began (begin_start id r)
  where
    fail : ℕ → Failure → Runtime → Runtime × Option Failure
    fail g e r = (finish_start_failure id g e (world.meanwhile r), some e)

    published : ℕ → Runtime × Bool → Runtime × Option Failure
    published g (r, true) = (r, none)
    published g (r, false) =
        (abandon_start id g world.stop_error (world.meanwhile r), some forward_stopping)

    made : ℕ → Runtime → Forward → Option String → Runtime × Option Failure
    made g r fw (some e) = fail g (run_failed e) r
    made g r fw none = published g (
        publish_start id g world.run (local_listener_address world.join_host_port fw) world.latency
          (world.meanwhile r))

    resolved : ℕ → Runtime → Forward → Result (List SshHost) → Runtime × Option Failure
    resolved g r fw (err e) = fail g (vault_failed e) r
    resolved g r fw (ok hosts) = made g r fw world.start_error

    found : ℕ → Runtime → Option Forward → Runtime × Option Failure
    found g r none = fail g (forward_not_found id) r
    found g r (some fw) = resolved g r fw (world.resolve fw)

    loaded : ℕ → Runtime → Result VaultData → Runtime × Option Failure
    loaded g r (err e) = fail g (vault_failed e) r
    loaded g r (ok d) = found g r (find_forward_by_id d.forwards id)

    began : Runtime × Begun → Runtime × Option Failure
    began (r, closed) = (r, some runtime_closing)
    began (r, busy) = (r, some forward_stopping)
    began (r, present) = (r, none)
    began (r, begun g) = loaded g r world.load

-- `StartMany`: one world for each start
unfoldable pub start_many : (ℕ → StartWorld) → List ℕ → Runtime → Runtime × Table Failure
start_many worlds [] r = (r, [])
start_many worlds (id ∷ ids) r =
    let (r₁, e) = start (worlds id) id r in
    let (r₂, errs) = start_many worlds ids r₁ in (r₂, noted e errs)
  where
    noted : Option Failure → Table Failure → Table Failure
    noted none errs = errs
    noted (some e) errs = put_under id e errs

-- `StartAutoStart`
unfoldable pub start_auto_start :
    (ℕ → StartWorld) → Result VaultData → Runtime → Result (Runtime × Table Failure)
start_auto_start worlds (err e) r = err e
start_auto_start worlds (ok d) r = ok (
    start_many worlds
      (map (λ (fw : Forward). fw.id) (filter (λ (fw : Forward). fw.auto_start) d.forwards)) r)
