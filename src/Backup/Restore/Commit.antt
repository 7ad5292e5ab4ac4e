-- ===== src/Backup/Restore/Commit.antt =====
-- `CommitRestore` of internal/biz/backup_restore.go, from its package on: each function is the part of
-- the body that begins with the effect it is named for.
use tunnel_board.Prelude.{
  ℕ, String, Bool, true, false, text_eq, Option, none, some, List, [], ◌∷◌, if◌then◌else◌,
  Bool-cases, inl, inr,
}
use tunnel_board.Model.{VaultData}
use tunnel_board.Backup.{no_random, step_failed, StagedBackup}
use tunnel_board.Backup.Restore.{
  RestoreFacts, RestoreJournal, RestoreCompensation, Call, RestoreEffects, CommitOutcome,
  storage_revision, capture_running, write_journal, prepare_candidate, clear_key_files, suspend_all,
  neutralize_routes, replace_vault, enter_quarantine, commit_journal, compensate_call, planned,
  candidate_prepared, runtime_suspending, runtime_suspended, routes_neutralized, replacing_vault,
  vault_replaced, quarantined, stop, pending,
}

module _ (world : RestoreEffects) where
  -- `compensate`
  unfoldable pub compensate : List Call → RestoreCompensation → String → CommitOutcome
  compensate calls state operation =
      if world.compensated calls state
      then stop (compensate_call state true ∷ calls) (step_failed operation)
      else pending (compensate_call state false ∷ calls) state.transaction_id false operation

  -- writes the journal, and goes on or to the error
  unfoldable pub journaled :
      List Call
      → RestoreJournal
      → (List Call → CommitOutcome)
      → (List Call → CommitOutcome)
      → CommitOutcome
  journaled calls j failed next =
      if world.journal_written calls j
      then next (write_journal j true ∷ calls)
      else failed (write_journal j false ∷ calls)

  -- `CommitRestore` from the quarantine on
  unfoldable pub finish_restore : RestoreJournal → List Call → CommitOutcome
  finish_restore journal calls =
      if world.quarantine_entered calls
      then journaled (enter_quarantine true ∷ calls) (record journal { phase = quarantined })
          (λ c. pending c journal.transaction_id true "persist restore quarantine")
          (λ c.
            if world.journal_committed c journal.transaction_id
            then record {
              calls = commit_journal journal.transaction_id true ∷ c;
              result = record {
                transaction_id = journal.transaction_id;
                quarantined = true;
                journal_pending = false;
              };
              problem = none;
            }
            else pending (commit_journal journal.transaction_id false ∷ c) journal.transaction_id
                true "commit restore journal")
      else pending (enter_quarantine false ∷ calls) journal.transaction_id false
          "enter restore quarantine"

  -- from the intent to replace the vault on
  unfoldable pub replace_stage : RestoreJournal → RestoreCompensation → List Call → CommitOutcome
  replace_stage journal state calls =
      let j = record journal { phase = replacing_vault } in
      journaled calls j (λ c. compensate c state "persist vault replacement intent")
        (λ c.
          if world.replaced c state.candidate_id
          then journaled (replace_vault state.candidate_id true ∷ c)
              (record j { vault_replaced = true; phase = vault_replaced })
              (λ c. pending c j.transaction_id false "persist replaced vault")
              (finish_restore (record j { vault_replaced = true; phase = vault_replaced }))
          else compensate (replace_vault state.candidate_id false ∷ c) state "replace vault")

  -- from the neutral routes on
  unfoldable pub routes_stage : RestoreJournal → RestoreCompensation → List Call → CommitOutcome
  routes_stage journal state calls =
      if world.neutralized calls
      then (let j = record journal { routes_neutralized = true; phase = routes_neutralized } in
          let s = record state { routes_neutralized = true } in
          journaled (neutralize_routes true ∷ calls) j
            (λ c. compensate c s "persist neutralized routes") (replace_stage j s))
      else compensate (neutralize_routes false ∷ calls) state "neutralize routes"

  -- from the suspension of the runtime on
  unfoldable pub suspend_stage : RestoreJournal → RestoreCompensation → List Call → CommitOutcome
  suspend_stage journal state calls = suspended (world.suspension calls)
    where
      suspended : List ℕ × Bool → CommitOutcome
      suspended (plan, false) =
          compensate (suspend_all false ∷ calls) (record state { suspend_plan = plan })
            "suspend runtime"
      suspended (plan, true) =
          let j = record journal { running_forward_ids = plan; phase = runtime_suspended } in
          let s = record state { suspend_plan = plan } in
          journaled (suspend_all true ∷ calls) j (λ c. compensate c s "persist suspended runtime")
            (routes_stage j s)

  -- from the candidate of the new vault on
  unfoldable pub candidate_stage :
      VaultData → RestoreJournal → RestoreCompensation → List Call → CommitOutcome
  candidate_stage d journal state calls = prepared (world.candidate calls d)
    where
      prepared : Option String → CommitOutcome
      prepared none =
          compensate (clear_key_files ∷ prepare_candidate d false ∷ calls) state
            "prepare restore candidate"
      prepared (some id) =
          let s = record state { candidate_id = id } in
          let j = record journal { candidate_id = id; phase = candidate_prepared } in
          let j' = record j { phase = runtime_suspending } in
          journaled (clear_key_files ∷ prepare_candidate d true ∷ calls) j
            (λ c. compensate c s "persist prepared restore candidate")
            (λ c.
              journaled c j' (λ c. compensate c s "persist runtime suspension intent")
                (suspend_stage j' s))

  -- from the first journal on
  unfoldable pub journal_stage :
      StagedBackup → RestoreFacts → String → String → List ℕ → List Call → CommitOutcome
  journal_stage b current id revision ids calls =
      let journal : RestoreJournal = record {
        transaction_id = id;
        file_digest = b.file_digest;
        before = current;
        before_vault_storage_revision = revision;
        phase = planned;
        candidate_id = "";
        running_forward_ids = ids;
        routes_neutralized = false;
        vault_replaced = false;
      } in
      let state : RestoreCompensation = record {
        transaction_id = id;
        before = current;
        candidate_id = "";
        suspend_plan = [];
        routes_neutralized = false;
        replaced_vault = false;
      } in
      journaled calls journal
        (λ c. stop (clear_key_files ∷ c) (step_failed "write restore journal"))
        (candidate_stage b.vault journal state)

-- what holds after either answer of a journal's write holds after it
pub journaled_keeps :
    (Q : CommitOutcome → Type 0) (world : RestoreEffects) (c : List Call) (j : RestoreJournal)
    (failed next : List Call → CommitOutcome)
    → Q (failed (write_journal j false ∷ c))
    → Q (next (write_journal j true ∷ c))
    → Q (journaled world c j failed next)
unfolding journaled
journaled_keeps Q world c j failed next f n = elim (Bool-cases (world.journal_written c j)) [
  | inl e ↦ rw e n
  | inr e ↦ rw e f
]

-- what `CommitRestore` reads beside the effects: the time, whether the caller has gone, and the new
-- transaction id
pub record CommitInput : Type 0 where
  pub now : ℕ
  pub gone : Bool
  pub fresh_id : Option String

-- the part of `CommitRestore` that owns the taken package; the trusted CA is not restored
unfoldable pub commit_taken :
    RestoreEffects → CommitInput → StagedBackup → RestoreFacts → List Call → CommitOutcome
commit_taken world input b current calls = identified input.fresh_id
  where
    data_of : VaultData
    data_of = record b.vault { prefs = record b.vault.prefs { ca_trusted_sha256 = "" } }

    captured : String → String → List Call → Option (List ℕ) → CommitOutcome
    captured id revision calls none =
        stop (clear_key_files ∷ capture_running false ∷ calls)
          (step_failed "capture restore runtime plan")
    captured id revision calls (some ids) =
        journal_stage world (record b { vault = data_of }) current id revision ids
          (capture_running true ∷ calls)

    revised : String → Option String → CommitOutcome
    revised id none =
        stop (clear_key_files ∷ storage_revision false ∷ calls)
          (step_failed "capture restore vault storage revision")
    revised id (some revision) =
        let c = storage_revision true ∷ calls in captured id revision c (world.running c)

    identified : Option String → CommitOutcome
    identified none = stop (clear_key_files ∷ calls) no_random
    identified (some id) = revised id (world.storage calls)
