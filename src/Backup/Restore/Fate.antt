-- ===== src/Backup/Restore/Fate.antt =====
-- How `CommitRestore` of internal/biz/backup_restore.go can end.
use tunnel_board.Prelude.{
  ℕ, String, Bool, true, false, not, Option, none, some, List, [], ◌∷◌, ◌≡◌, refl, ap, ◌⊎◌, inl,
  inr, arith, Option-cases, Bool-cases, suc,
}
use tunnel_board.Model.{VaultData}
use tunnel_board.Backup.{Problem, StagedBackup}
use tunnel_board.Backup.Restore.{
  RestoreFacts, RestoreJournal, RestoreCompensation, Call, RestoreEffects, CommitOutcome,
  storage_revision, write_journal, suspend_all, replace_vault, compensate_call, replacing_vault,
  vault_replaced, no_result,
}
use tunnel_board.Backup.Restore.Commit.{
  compensate, journaled, journaled_keeps, finish_restore, replace_stage, routes_stage,
  suspend_stage, candidate_stage, journal_stage, commit_taken, CommitInput,
}

-- how often the vault was replaced, and how often the effects were told to compensate
abbrev pub replacements : List Call → ℕ
replacements [] = 0
replacements (replace_vault id true ∷ cs) = suc (replacements cs)
replacements (_ ∷ cs) = replacements cs

abbrev pub compensations : List Call → ℕ
compensations [] = 0
compensations (compensate_call s b ∷ cs) = suc (compensations cs)
compensations (_ ∷ cs) = compensations cs

-- what the latest call answered, when it was a compensation
abbrev pub undo_answer : List Call → Option Bool
undo_answer (compensate_call s b ∷ cs) = some b
undo_answer _ = none

abbrev pub suspensions : List Call → ℕ
suspensions [] = 0
suspensions (suspend_all b ∷ cs) = suc (suspensions cs)
suspensions (_ ∷ cs) = suspensions cs

abbrev pub is_none : Option Problem → Bool
is_none none = true
is_none (some e) = false

-- counted from the calls that were made before
module _ (calls : List Call) (o : CommitOutcome) where
  abbrev pub IsRestored : Type 0
  IsRestored =
      (o.problem ≡ none)
      × (replacements o.calls ≡ suc (replacements calls))
      × (compensations o.calls ≡ compensations calls)
      × (o.result.quarantined ≡ true)
      × (o.result.journal_pending ≡ false)

  abbrev pub IsHalfway : Type 0
  IsHalfway =
      (is_none o.problem ≡ false)
      × (replacements o.calls ≡ suc (replacements calls))
      × (compensations o.calls ≡ compensations calls)
      × (o.result.journal_pending ≡ true)

  abbrev pub IsUndone : Type 0
  IsUndone =
      (is_none o.problem ≡ false)
      × (replacements o.calls ≡ replacements calls)
      × (compensations o.calls ≡ suc (compensations calls))
      × (undo_answer o.calls ≡ some (not o.result.journal_pending))
      × (o.result.quarantined ≡ false)

  abbrev pub IsUntouched : Type 0
  IsUntouched =
      (is_none o.problem ≡ false)
      × (replacements o.calls ≡ replacements calls)
      × (compensations o.calls ≡ compensations calls)
      × (suspensions o.calls ≡ suspensions calls)
      × (o.result ≡ no_result)

  abbrev pub Fate : Type 0
  Fate = IsRestored ⊎ IsHalfway ⊎ IsUndone

-- nothing was replaced and nothing undone since
abbrev IsEven : List Call → List Call → Type 0
IsEven calls c = (replacements c ≡ replacements calls) × (compensations c ≡ compensations calls)

module _ (world : RestoreEffects) (calls : List Call) where
  finish_restore-Fate :
      (j : RestoreJournal) (c : List Call)
      → (replacements c ≡ suc (replacements calls)) × (compensations c ≡ compensations calls)
      → Fate calls (finish_restore world j c)
  unfolding finish_restore journaled
  finish_restore-Fate j c h = ground arith

  compensate-Fate :
      (s : RestoreCompensation) (operation : String) (c : List Call)
      → IsEven calls c
      → Fate calls (compensate world c s operation)
  unfolding compensate
  compensate-Fate s operation c h = ground arith

  journaled-Fate :
      (j : RestoreJournal) (failed next : List Call → CommitOutcome)
      → ((c : List Call) → IsEven calls c → Fate calls (failed c))
      → ((c : List Call) → IsEven calls c → Fate calls (next c))
      → (c : List Call) → IsEven calls c
      → Fate calls (journaled world c j failed next)
  unfolding journaled
  journaled-Fate j failed next f n c h =
      ground (arith, n (write_journal j true ∷ c) h, f (write_journal j false ∷ c) h)

  replace_stage-Fate :
      (j : RestoreJournal) (s : RestoreCompensation) (c : List Call)
      → IsEven calls c
      → Fate calls (replace_stage world j s c)
  unfolding replace_stage journaled compensate
  replace_stage-Fate j s c h =
      let j₁ : RestoreJournal = record j { phase = replacing_vault } in
      let j₂ : RestoreJournal = record j₁ { vault_replaced = true; phase = vault_replaced } in
      ground (
        arith,
        finish_restore-Fate j₂
            (write_journal j₂ true ∷ replace_vault s.candidate_id true ∷ write_journal j₁ true ∷ c)
            (ap suc h.0, h.1),
      )

  routes_stage-Fate :
      (j : RestoreJournal) (s : RestoreCompensation) (c : List Call)
      → IsEven calls c
      → Fate calls (routes_stage world j s c)
  unfolding routes_stage
  routes_stage-Fate j s c h = elim (Bool-cases (world.neutralized c)) [
    | inl e ↦ rw e (journaled-Fate _ _ _ (compensate-Fate _ _) (replace_stage-Fate _ _) _ h)
    | inr e ↦ rw e (compensate-Fate s _ _ h)
  ]

  suspend_stage-Fate :
      (j : RestoreJournal) (s : RestoreCompensation) (c : List Call)
      → IsEven calls c
      → Fate calls (suspend_stage world j s c)
  unfolding suspend_stage
  suspend_stage-Fate j s c h = elim (Bool-cases (world.suspension c).1) [
    | inl e ↦ rw e (journaled-Fate _ _ _ (compensate-Fate _ _) (routes_stage-Fate _ _) _ h)
    | inr e ↦ rw e (compensate-Fate _ _ _ h)
  ]

  candidate_stage-Fate :
      (d : VaultData) (j : RestoreJournal) (s : RestoreCompensation) (c : List Call)
      → IsEven calls c
      → Fate calls (candidate_stage world d j s c)
  unfolding candidate_stage
  candidate_stage-Fate d j s c h = elim (Option-cases (world.candidate c d)) [
    | inl e ↦ rw e (compensate-Fate s _ _ h)
    | inr (id, e) ↦ rw e (
        journaled-Fate _ _ _ (compensate-Fate _ _)
          (journaled-Fate _ _ _ (compensate-Fate _ _) (suspend_stage-Fate _ _)) _ h)
  ]

  journal_stage-Fate :
      (b : StagedBackup) (current : RestoreFacts) (id revision : String) (ids : List ℕ)
      (c : List Call)
      → IsEven calls c × (suspensions c ≡ suspensions calls)
      → Fate calls (journal_stage world b current id revision ids c)
        ⊎ IsUntouched calls (journal_stage world b current id revision ids c)
  unfolding journal_stage
  journal_stage-Fate b current id revision ids c h =
      journaled_keeps (λ o. Fate calls o ⊎ IsUntouched calls o) world _ _ _ _ (inr (ground arith))
        (inl (candidate_stage-Fate _ _ _ _ h.0))

-- A commit that has taken its package ends in one of four ways. It replaces the vault once,
-- compensates nothing and ends in quarantine without an error; or it replaces the vault once,
-- compensates nothing and reports an error that leaves the journal pending; or it reports an error,
-- has not replaced the vault, and has compensated exactly once, as its last call, with the journal
-- pending just if that failed; or it reports an error with an empty result, and has neither
-- suspended, replaced nor compensated anything.
pub commit_taken_fate :
    (world : RestoreEffects) (input : CommitInput) (b : StagedBackup) (current : RestoreFacts)
    (calls : List Call)
    → Fate calls (commit_taken world input b current calls)
      ⊎ IsUntouched calls (commit_taken world input b current calls)
unfolding commit_taken
commit_taken_fate world input b current calls = elim (Option-cases input.fresh_id) [
  | inl e ↦ ground arith
  | inr (id, e) ↦ elim (Option-cases (world.storage calls)) [
    | inl f ↦ ground arith
    | inr (revision, f) ↦ elim (Option-cases (world.running (storage_revision true ∷ calls))) [
      | inl g ↦ ground arith
      | inr (ids, g) ↦
          rw e (rw f (rw g (journal_stage-Fate world calls _ _ _ _ _ _ ((refl, refl), refl))))
    ]
  ]
]
