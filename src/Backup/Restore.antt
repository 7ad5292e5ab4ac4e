-- ===== src/Backup/Restore.antt =====
-- internal/biz/backup_restore.go: the coordinator that replaces the vault by a staged backup. What
-- the effects answer is up to the world, which sees every call made before; the calls are recorded
-- with their answers, the latest first.
pub mod Commit
pub mod Coordinator
pub mod Fate
pub mod Phases
pub mod Once
pub mod Candidates
use tunnel_board.Prelude.{
  ℕ, String, Bool, true, false, not, ◌==◌, text_eq, ◌&&◌, ◌||◌, Option, none, some, List, [], ◌∷◌,
  if◌then◌else◌,
}
use tunnel_board.Model.{VaultData}
use tunnel_board.Backup.{
  Problem, stage_token, restore_not_confirmed, preview_stale, no_random, step_failed, StagedBackup,
  Answer, gave, refused,
}
use tunnel_board.Backup.Package.{
  BackupPackage, StageWorld, StagePreview, BackupEntityCounts, stage, take_staged, cancel,
  purpose_restore,
}

pub record RestoreFacts : Type 0 where
  pub vault_revision : String
  pub runtime_revision : String
  pub route_revision : String

pub record RestorePreview : Type 0 where
  pub token : String
  pub expires_at : ℕ
  pub counts : BackupEntityCounts
  pub file_digest : String
  pub facts : RestoreFacts

pub record RestoreCommitRequest : Type 0 where
  pub token : String
  pub confirmed : Bool

pub record RestoreCommitResult : Type 0 where
  pub transaction_id : String
  pub quarantined : Bool
  pub journal_pending : Bool

pub data RestorePhase : Type 0 where
  planned candidate_prepared runtime_suspending runtime_suspended : RestorePhase
  routes_neutralized replacing_vault vault_replaced quarantined : RestorePhase

pub record RestoreJournal : Type 0 where
  pub transaction_id : String
  pub file_digest : String
  pub before : RestoreFacts
  pub before_vault_storage_revision : String
  pub phase : RestorePhase
  pub candidate_id : String
  pub running_forward_ids : List ℕ
  pub routes_neutralized : Bool
  pub vault_replaced : Bool

pub record RestoreCompensation : Type 0 where
  pub transaction_id : String
  pub before : RestoreFacts
  pub candidate_id : String
  pub suspend_plan : List ℕ
  pub routes_neutralized : Bool
  pub replaced_vault : Bool

-- a call of an effect; a `Bool` at the end says whether it succeeded
pub data Call : Type 0 where
  snapshot : Call
  take_package : String → Bool → Call
  storage_revision : Bool → Call
  capture_running : Bool → Call
  write_journal : RestoreJournal → Bool → Call
  prepare_candidate : VaultData → Bool → Call
  clear_key_files : Call
  suspend_all : Bool → Call
  neutralize_routes : Bool → Call
  replace_vault : String → Bool → Call
  enter_quarantine : Bool → Call
  commit_journal : String → Bool → Call
  compensate_call : RestoreCompensation → Bool → Call

-- `RestoreEffects`: each answer may depend on the calls before it
pub record RestoreEffects : Type 0 where
  pub facts : List Call → Option RestoreFacts
  pub storage : List Call → Option String
  pub running : List Call → Option (List ℕ)
  pub candidate : List Call → VaultData → Option String
  pub journal_written : List Call → RestoreJournal → Bool
  -- the plan comes with the error too
  pub suspension : List Call → List ℕ × Bool
  pub neutralized : List Call → Bool
  pub replaced : List Call → String → Bool
  pub quarantine_entered : List Call → Bool
  pub journal_committed : List Call → String → Bool
  pub compensated : List Call → RestoreCompensation → Bool

pub record CommitOutcome : Type 0 where
  pub calls : List Call
  pub result : RestoreCommitResult
  pub problem : Option Problem

abbrev pub no_result : RestoreCommitResult
no_result = record { transaction_id = ""; quarantined = false; journal_pending = false }

abbrev pub stop : List Call → Problem → CommitOutcome
stop calls e = record { calls = calls; result = no_result; problem = some e }

-- an error after the replacement, which leaves the journal for the next start
abbrev pub pending : List Call → String → Bool → String → CommitOutcome
pending calls id isolated operation = record {
  calls = calls;
  result = record { transaction_id = id; quarantined = isolated; journal_pending = true };
  problem = some (step_failed operation);
}
