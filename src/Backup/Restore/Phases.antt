-- ===== src/Backup/Restore/Phases.antt =====
-- The order of the effects of `CommitRestore` of internal/biz/backup_restore.go against its journal.
use tunnel_board.Prelude.{
  ℕ, String, true, Option, none, some, List, [], ◌∷◌, ◌≡◌, refl, ◌⊎◌, inl, inr, arith, Option-cases,
  Bool-cases, suc, subst, sym, text_eq,
}
use tunnel_board.Model.{VaultData}
use tunnel_board.Backup.{StagedBackup}
use tunnel_board.Backup.Package.{StageWorld}
use tunnel_board.Backup.Restore.{
  Call, RestoreEffects, RestoreJournal, RestoreCompensation, RestoreFacts, RestorePhase,
  RestoreCommitRequest, CommitOutcome, storage_revision, write_journal, prepare_candidate,
  suspend_all, neutralize_routes, replace_vault, enter_quarantine, commit_journal, planned,
  candidate_prepared, runtime_suspending, runtime_suspended, routes_neutralized, replacing_vault,
  vault_replaced, quarantined,
}
use tunnel_board.Backup.Restore.Commit.{
  compensate, journaled, journaled_keeps, finish_restore, replace_stage, routes_stage,
  suspend_stage, candidate_stage, journal_stage, commit_taken, CommitInput,
}
use tunnel_board.Backup.Restore.Coordinator.{
  RestoreCoordinator, stage_restore, commit_restore, commit_restore_keeps,
}

abbrev pub rank : RestorePhase → ℕ
rank planned = 0
rank candidate_prepared = 1
rank runtime_suspending = 2
rank runtime_suspended = 3
rank routes_neutralized = 4
rank replacing_vault = 5
rank vault_replaced = 6
rank quarantined = 7

-- the phase of the journal that was written last
abbrev pub latest : List Call → Option RestorePhase
latest [] = none
latest (write_journal j true ∷ cs) = some j.phase
latest (_ ∷ cs) = latest cs

-- a transaction begins with its plan, and goes on phase by phase
abbrev pub Follows : Option RestorePhase → RestorePhase → Type 0
Follows none q = q ≡ planned
Follows (some p) q = (q ≡ planned) ⊎ (rank q ≡ suc (rank p))

-- Each phase is written in its turn, and each effect is called while the journal says so. The
-- candidate is prepared under the plan.
abbrev pub IsOrdered : List Call → Type 0
IsOrdered [] = Unit
IsOrdered (write_journal j b ∷ cs) = Follows (latest cs) j.phase × IsOrdered cs
IsOrdered (prepare_candidate d b ∷ cs) = (latest cs ≡ some planned) × IsOrdered cs
IsOrdered (suspend_all b ∷ cs) = (latest cs ≡ some runtime_suspending) × IsOrdered cs
IsOrdered (neutralize_routes b ∷ cs) = (latest cs ≡ some runtime_suspended) × IsOrdered cs
IsOrdered (replace_vault id b ∷ cs) = (latest cs ≡ some replacing_vault) × IsOrdered cs
IsOrdered (enter_quarantine b ∷ cs) = (latest cs ≡ some vault_replaced) × IsOrdered cs
IsOrdered (commit_journal id b ∷ cs) = (latest cs ≡ some quarantined) × IsOrdered cs
IsOrdered (_ ∷ cs) = IsOrdered cs

-- a record of calls at a phase
abbrev At : RestorePhase → List Call → Type 0
At p c = (latest c ≡ some p) × IsOrdered c

abbrev IsOrderedAfter : CommitOutcome → Type 0
IsOrderedAfter o = IsOrdered o.calls

module _ (world : RestoreEffects) where
  finish_restore-IsOrdered :
      (j : RestoreJournal) (c : List Call)
      → At vault_replaced c
      → IsOrderedAfter (finish_restore world j c)
  unfolding finish_restore journaled
  finish_restore-IsOrdered j c h = ground arith

  compensate-IsOrdered :
      (s : RestoreCompensation) (operation : String) (c : List Call)
      → IsOrdered c
      → IsOrderedAfter (compensate world c s operation)
  unfolding compensate
  compensate-IsOrdered s operation c h = ground arith

  -- the write of the next phase, which does not go on unless it succeeded
  next_phase :
      (p : RestorePhase) (j : RestoreJournal) (failed next : List Call → CommitOutcome)
      (c : List Call)
      → At p c
      → rank j.phase ≡ suc (rank p)
      → ((c : List Call) → IsOrdered c → IsOrderedAfter (failed c))
      → ((c : List Call) → At j.phase c → IsOrderedAfter (next c))
      → IsOrderedAfter (journaled world c j failed next)
  next_phase p j failed next c h r f n =
      journaled_keeps IsOrderedAfter world c j failed next
        (f _ (subst (λ o. Follows o j.phase) (sym h.0) (inr r), h.1))
        (n _ (refl, (subst (λ o. Follows o j.phase) (sym h.0) (inr r), h.1)))

  replace_stage-IsOrdered :
      (j : RestoreJournal) (s : RestoreCompensation) (c : List Call)
      → At routes_neutralized c
      → IsOrderedAfter (replace_stage world j s c)
  unfolding replace_stage
  replace_stage-IsOrdered j s c h =
      next_phase routes_neutralized _ _ _ c h refl (compensate-IsOrdered s _) (λ c g.
        elim (Bool-cases (world.replaced c s.candidate_id)) [
          | inl e ↦ rw e (
              next_phase replacing_vault _ _ _ _ (g.0, g) refl (λ c g. g)
                (finish_restore-IsOrdered _))
          | inr e ↦ rw e (compensate-IsOrdered s _ _ g)
        ])

  routes_stage-IsOrdered :
      (j : RestoreJournal) (s : RestoreCompensation) (c : List Call)
      → At runtime_suspended c
      → IsOrderedAfter (routes_stage world j s c)
  unfolding routes_stage
  routes_stage-IsOrdered j s c h = elim (Bool-cases (world.neutralized c)) [
    | inl e ↦ rw e (
        next_phase runtime_suspended _ _ _ _ (h.0, h) refl (compensate-IsOrdered _ _)
          (replace_stage-IsOrdered _ _))
    | inr e ↦ rw e (compensate-IsOrdered s _ _ h)
  ]

  suspend_stage-IsOrdered :
      (j : RestoreJournal) (s : RestoreCompensation) (c : List Call)
      → At runtime_suspending c
      → IsOrderedAfter (suspend_stage world j s c)
  unfolding suspend_stage
  suspend_stage-IsOrdered j s c h = elim (Bool-cases (world.suspension c).1) [
    | inl e ↦ rw e (
        next_phase runtime_suspending _ _ _ _ (h.0, h) refl (compensate-IsOrdered _ _)
          (routes_stage-IsOrdered _ _))
    | inr e ↦ rw e (compensate-IsOrdered _ _ _ h)
  ]

  candidate_stage-IsOrdered :
      (d : VaultData) (j : RestoreJournal) (s : RestoreCompensation) (c : List Call)
      → At planned c
      → IsOrderedAfter (candidate_stage world d j s c)
  unfolding candidate_stage
  candidate_stage-IsOrdered d j s c h = elim (Option-cases (world.candidate c d)) [
    | inl e ↦ rw e (compensate-IsOrdered s _ _ h)
    | inr (id, e) ↦ rw e (
        next_phase planned _ _ _ _ (h.0, h) refl (compensate-IsOrdered _ _)
          (λ c g.
            next_phase candidate_prepared _ _ _ c g refl (compensate-IsOrdered _ _)
              (suspend_stage-IsOrdered _ _)))
  ]

  Follows-planned : (o : Option RestorePhase) → Follows o planned
  Follows-planned none = refl
  Follows-planned (some p) = inl refl

  journal_stage-IsOrdered :
      (b : StagedBackup) (current : RestoreFacts) (id revision : String) (ids : List ℕ)
      (c : List Call)
      → IsOrdered c
      → IsOrderedAfter (journal_stage world b current id revision ids c)
  unfolding journal_stage
  journal_stage-IsOrdered b current id revision ids c h =
      journaled_keeps IsOrderedAfter world _ _ _ _ (Follows-planned (latest c), h)
        (candidate_stage-IsOrdered _ _ _ _ (refl, (Follows-planned (latest c), h)))

  commit_taken-IsOrdered :
      (input : CommitInput) (b : StagedBackup) (current : RestoreFacts) (c : List Call)
      → IsOrdered c
      → IsOrderedAfter (commit_taken world input b current c)
  unfolding commit_taken
  commit_taken-IsOrdered input b current c h = elim (Option-cases input.fresh_id) [
    | inl e ↦ rw e h
    | inr (id, e) ↦ elim (Option-cases (world.storage c)) [
      | inl f ↦ rw e (rw f h)
      | inr (revision, f) ↦ elim (Option-cases (world.running (storage_revision true ∷ c))) [
        | inl g ↦ rw e (rw f (rw g h))
        | inr (ids, g) ↦ rw e (rw f (rw g (journal_stage-IsOrdered _ _ _ _ _ _ h)))
      ]
    ]
  ]

-- Commits keep the order of all the calls so far. Each journal that a commit writes begins a
-- transaction with its plan or has the next phase after the one written last; a candidate is prepared
-- only while the last written phase is the plan, the runtime is suspended only while it is the intent
-- to suspend, the routes are made neutral only after the suspension was written, the vault is replaced
-- only while it is the intent to replace, the quarantine is entered only after the replacement was
-- written, and the journal is closed only after the quarantine was.
pub commit_restore-IsOrdered :
    (world : RestoreEffects) (input : CommitInput) (request : RestoreCommitRequest)
    (c : RestoreCoordinator)
    → IsOrdered c.calls
    → IsOrdered (commit_restore world input request c).0.calls
commit_restore-IsOrdered world input request c h =
    commit_restore_keeps (λ c. IsOrdered c.calls) world input request c h h (λ e. h)
      (λ current e. h) (λ current b e. commit_taken-IsOrdered world input b current _ h)

pub stage_restore-IsOrdered :
    (world : RestoreEffects) (machine : StageWorld) (path password : String)
    (c : RestoreCoordinator)
    → IsOrdered c.calls
    → IsOrdered (stage_restore world machine path password c).0.calls
unfolding stage_restore
stage_restore-IsOrdered world machine path password c h = ground arith
