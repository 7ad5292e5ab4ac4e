-- ===== src/Backup/Restore/Candidates.antt =====
-- The vaults that `CommitRestore` of internal/biz/backup_restore.go prepares.
use tunnel_board.Prelude.{
  ℕ, String, true, List, [], ◌∷◌, ◌≡◌, refl, inl, inr, arith, Option-cases, Bool-cases, text_eq,
}
use tunnel_board.Model.{VaultData}
use tunnel_board.Model.Validate.{validate, validate_untrusted}
use tunnel_board.Result.{ok}
use tunnel_board.Backup.{StagedBackup, answer_cases}
use tunnel_board.Backup.Package.{StageWorld, stage, purpose_restore}
use tunnel_board.Backup.Package.Tokens.{
  IsChecked, take_staged_checked, take_staged-IsChecked, cancel-IsChecked, stage-IsChecked,
}
use tunnel_board.Backup.Restore.{
  Call, RestoreEffects, RestoreJournal, RestoreCompensation, RestoreFacts, RestoreCommitRequest,
  CommitOutcome, storage_revision, write_journal, prepare_candidate, replacing_vault,
}
use tunnel_board.Backup.Restore.Commit.{
  compensate, journaled, journaled_keeps, finish_restore, replace_stage, routes_stage,
  suspend_stage, candidate_stage, journal_stage, commit_taken, CommitInput,
}
use tunnel_board.Backup.Restore.Coordinator.{
  RestoreCoordinator, stage_restore, commit_restore, commit_restore_keeps,
}

abbrev pub IsRestorable : VaultData → Type 0
IsRestorable d = (validate d ≡ ok tt) × (d.prefs.ca_trusted_sha256 ≡ "")

-- every vault that was prepared may be restored
abbrev pub ArePrepared : List Call → Type 0
ArePrepared [] = Unit
ArePrepared (prepare_candidate d b ∷ cs) = IsRestorable d × ArePrepared cs
ArePrepared (_ ∷ cs) = ArePrepared cs

abbrev ArePreparedAfter : CommitOutcome → Type 0
ArePreparedAfter o = ArePrepared o.calls

module _ (world : RestoreEffects) where
  compensate-ArePrepared :
      (s : RestoreCompensation) (operation : String) (c : List Call)
      → ArePrepared c
      → ArePreparedAfter (compensate world c s operation)
  unfolding compensate
  compensate-ArePrepared s operation c h = ground arith

  finish_restore-ArePrepared :
      (j : RestoreJournal) (c : List Call)
      → ArePrepared c
      → ArePreparedAfter (finish_restore world j c)
  unfolding finish_restore journaled
  finish_restore-ArePrepared j c h = ground arith

  replace_stage-ArePrepared :
      (j : RestoreJournal) (s : RestoreCompensation) (c : List Call)
      → ArePrepared c
      → ArePreparedAfter (replace_stage world j s c)
  unfolding replace_stage
  replace_stage-ArePrepared j s c h =
      journaled_keeps ArePreparedAfter world _ _ _ _ (compensate-ArePrepared s _ _ h)
        (elim (Bool-cases (
          world.replaced (write_journal (record j { phase = replacing_vault }) true ∷ c)
            s.candidate_id)) [
              | inl e ↦ rw e (
                  journaled_keeps ArePreparedAfter world _ _ _ _ h
                    (finish_restore-ArePrepared _ _ h))
              | inr e ↦ rw e (compensate-ArePrepared s _ _ h)
            ])

  routes_stage-ArePrepared :
      (j : RestoreJournal) (s : RestoreCompensation) (c : List Call)
      → ArePrepared c
      → ArePreparedAfter (routes_stage world j s c)
  unfolding routes_stage
  routes_stage-ArePrepared j s c h = elim (Bool-cases (world.neutralized c)) [
    | inl e ↦ rw e (
        journaled_keeps ArePreparedAfter world _ _ _ _ (compensate-ArePrepared _ _ _ h)
          (replace_stage-ArePrepared _ _ _ h))
    | inr e ↦ rw e (compensate-ArePrepared s _ _ h)
  ]

  suspend_stage-ArePrepared :
      (j : RestoreJournal) (s : RestoreCompensation) (c : List Call)
      → ArePrepared c
      → ArePreparedAfter (suspend_stage world j s c)
  unfolding suspend_stage
  suspend_stage-ArePrepared j s c h = elim (Bool-cases (world.suspension c).1) [
    | inl e ↦ rw e (
        journaled_keeps ArePreparedAfter world _ _ _ _ (compensate-ArePrepared _ _ _ h)
          (routes_stage-ArePrepared _ _ _ h))
    | inr e ↦ rw e (compensate-ArePrepared _ _ _ h)
  ]

  candidate_stage-ArePrepared :
      (d : VaultData) (j : RestoreJournal) (s : RestoreCompensation) (c : List Call)
      → IsRestorable d × ArePrepared c
      → ArePreparedAfter (candidate_stage world d j s c)
  unfolding candidate_stage
  candidate_stage-ArePrepared d j s c h = elim (Option-cases (world.candidate c d)) [
    | inl e ↦ rw e (compensate-ArePrepared s _ _ h)
    | inr (id, e) ↦ rw e (
        journaled_keeps ArePreparedAfter world _ _ _ _ (compensate-ArePrepared _ _ _ h) (
          journaled_keeps ArePreparedAfter world _ _ _ _ (compensate-ArePrepared _ _ _ h)
            (suspend_stage-ArePrepared _ _ _ h)))
  ]

  journal_stage-ArePrepared :
      (b : StagedBackup) (current : RestoreFacts) (id revision : String) (ids : List ℕ)
      (c : List Call)
      → IsRestorable b.vault × ArePrepared c
      → ArePreparedAfter (journal_stage world b current id revision ids c)
  unfolding journal_stage
  journal_stage-ArePrepared b current id revision ids c h =
      journaled_keeps ArePreparedAfter world _ _ _ _ h.1 (candidate_stage-ArePrepared _ _ _ _ h)

  commit_taken-ArePrepared :
      (input : CommitInput) (b : StagedBackup) (current : RestoreFacts) (c : List Call)
      → validate b.vault ≡ ok tt
      → ArePrepared c
      → ArePreparedAfter (commit_taken world input b current c)
  unfolding commit_taken
  commit_taken-ArePrepared input b current c v h = elim (Option-cases input.fresh_id) [
    | inl e ↦ rw e h
    | inr (id, e) ↦ elim (Option-cases (world.storage c)) [
      | inl f ↦ rw e (rw f h)
      | inr (revision, f) ↦ elim (Option-cases (world.running (storage_revision true ∷ c))) [
        | inl g ↦ rw e (rw f (rw g h))
        | inr (ids, g) ↦ rw e (
            rw f (rw g (journal_stage-ArePrepared _ _ _ _ _ _ ((validate_untrusted _ v, refl), h))))
      ]
    ]
  ]

-- what waits was validated, and so was what was prepared
abbrev pub AreValid : RestoreCoordinator → Type 0
AreValid c = IsChecked c.packages × ArePrepared c.calls

-- When the package that waits was validated and every vault prepared so far passes the validation
-- and trusts no CA, the same holds after a commit.
pub commit_restore-AreValid :
    (world : RestoreEffects) (input : CommitInput) (request : RestoreCommitRequest)
    (c : RestoreCoordinator)
    → AreValid c
    → AreValid (commit_restore world input request c).0
commit_restore-AreValid world input request c (waits, h) =
    commit_restore_keeps AreValid world input request c (waits, h) (waits, h)
      (λ e. (cancel-IsChecked _ _ waits, h)) (λ current e. (take_staged-IsChecked _ _ _ _ waits, h))
      (λ current b e. (
        take_staged-IsChecked _ _ _ _ waits,
        commit_taken-ArePrepared world input b current _ (take_staged_checked _ _ _ _ b waits e) h,
      ))

pub stage_restore-AreValid :
    (world : RestoreEffects) (machine : StageWorld) (path password : String)
    (c : RestoreCoordinator)
    → AreValid c
    → AreValid (stage_restore world machine path password c).0
unfolding stage_restore
stage_restore-AreValid world machine path password c (waits, h) =
    elim (Option-cases (world.facts c.calls)) [
      | inl e ↦ rw e (waits, h)
      | inr (facts, e) ↦
          elim (answer_cases
            (stage machine
              (record {
                path = path;
                password = password;
                purpose = purpose_restore;
                vault_revision = facts.vault_revision;
              })
              c.packages).1) [
                | inl (p, a) ↦ rw e (rw a (stage-IsChecked machine _ _ waits, h))
                | inr (v, a) ↦ rw e (rw a (stage-IsChecked machine _ _ waits, h))
              ]
    ]
