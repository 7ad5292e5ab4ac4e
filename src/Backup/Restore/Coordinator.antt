-- ===== src/Backup/Restore/Coordinator.antt =====
-- `StageRestore` and `CommitRestore` of internal/biz/backup_restore.go.
use tunnel_board.Prelude.{
  String, Bool, true, false, not, ◌==◌, text_eq, ◌&&◌, ◌||◌, Option, none, some, List, ◌∷◌,
  if◌then◌else◌, ◌≡◌, inl, inr, Bool-cases, Option-cases,
}
use tunnel_board.Backup.{
  Problem, stage_token, restore_not_confirmed, preview_stale, step_failed, StagedBackup, Answer,
  gave, refused, answer_cases,
}
use tunnel_board.Backup.Package.{
  BackupPackage, TakeStageRequest, StageWorld, StagePreview, stage, take_staged, cancel,
  purpose_restore,
}
use tunnel_board.Backup.Restore.{
  RestoreFacts, RestorePreview, RestoreCommitRequest, RestoreCommitResult, Call, RestoreEffects,
  CommitOutcome, snapshot, take_package, no_result, stop,
}
use tunnel_board.Backup.Restore.Commit.{CommitInput, commit_taken}

-- `RestoreCoordinator`, with the record of the calls of its effects
pub record RestoreCoordinator : Type 0 where
  pub packages : BackupPackage
  pub staged : Option (String × RestoreFacts)
  pub calls : List Call

unfoldable pub same_facts : RestoreFacts → RestoreFacts → Bool
same_facts a b =
    (a.vault_revision == b.vault_revision)
    && (a.runtime_revision == b.runtime_revision)
    && (a.route_revision == b.route_revision)

-- `StageRestore`: the request's purpose and vault revision are the coordinator's own
unfoldable pub stage_restore :
    RestoreEffects
    → StageWorld
    → String
    → String
    → RestoreCoordinator
    → RestoreCoordinator × Answer RestorePreview
stage_restore world machine path password c = seen (world.facts c.calls)
  where
    staged_with :
        RestoreFacts
        → BackupPackage × Answer StagePreview
        → RestoreCoordinator × Answer RestorePreview
    staged_with facts (p, refused e) =
        (record { packages = p; staged = none; calls = snapshot ∷ c.calls }, refused e)
    staged_with facts (p, gave v) = (
      record { packages = p; staged = some (v.token, facts); calls = snapshot ∷ c.calls },
      gave (record {
        token = v.token;
        expires_at = v.expires_at;
        counts = v.counts;
        file_digest = v.file_digest;
        facts = facts;
      }),
    )

    seen : Option RestoreFacts → RestoreCoordinator × Answer RestorePreview
    seen none =
        (record c { staged = none; calls = snapshot ∷ c.calls }, refused (step_failed "snapshot"))
    seen (some facts) = staged_with facts (
        stage machine
          (record {
            path = path;
            password = password;
            purpose = purpose_restore;
            vault_revision = facts.vault_revision;
          })
          c.packages)

abbrev restore_request : String → RestoreFacts → TakeStageRequest
restore_request token current = record {
  token = token;
  purpose = purpose_restore;
  vault_revision = current.vault_revision;
}

-- `CommitRestore`
unfoldable pub commit_restore :
    RestoreEffects
    → CommitInput
    → RestoreCommitRequest
    → RestoreCoordinator
    → RestoreCoordinator × RestoreCommitResult × Option Problem
commit_restore world input request c =
    if not request.confirmed then (c, no_result, some restore_not_confirmed) else matched c.staged
  where
    ran : BackupPackage → CommitOutcome → RestoreCoordinator × RestoreCommitResult × Option Problem
    ran p o = (record { packages = p; staged = none; calls = o.calls }, o.result, o.problem)

    taken :
        RestoreFacts
        → BackupPackage × Answer StagedBackup
        → RestoreCoordinator × RestoreCommitResult × Option Problem
    taken current (p, refused e) =
        ran p (stop (take_package request.token false ∷ snapshot ∷ c.calls) e)
    taken current (p, gave b) =
        ran p (
          commit_taken world input b current (take_package request.token true ∷ snapshot ∷ c.calls))

    compared :
        RestoreFacts
        → Option RestoreFacts
        → RestoreCoordinator × RestoreCommitResult × Option Problem
    compared facts none =
        (record c { calls = snapshot ∷ c.calls }, no_result, some (step_failed "snapshot"))
    compared facts (some current) =
        if not (same_facts current facts)
        then ran (cancel request.token c.packages) (stop (snapshot ∷ c.calls) preview_stale)
        else taken current
            (take_staged input.now input.gone (restore_request request.token current) c.packages)

    matched :
        Option (String × RestoreFacts) → RestoreCoordinator × RestoreCommitResult × Option Problem
    matched none = (c, no_result, some stage_token)
    matched (some (token, facts)) =
        if (request.token == "") || not (request.token == token)
        then (c, no_result, some stage_token)
        else compared facts (world.facts c.calls)

-- the five ways of `CommitRestore`, as far as the coordinator they leave goes
pub commit_restore_keeps :
    (Q : RestoreCoordinator → Type 0) (world : RestoreEffects) (input : CommitInput)
    (request : RestoreCommitRequest) (c : RestoreCoordinator)
    → Q c
    → Q (record c { calls = snapshot ∷ c.calls })
    → (Problem
        → Q (record {
          packages = cancel request.token c.packages;
          staged = none;
          calls = snapshot ∷ c.calls;
        }))
    → ((current : RestoreFacts)
        → Problem
        → Q (record {
          packages =
              (take_staged input.now input.gone
                (restore_request request.token current)
                c.packages).0;
          staged = none;
          calls = take_package request.token false ∷ snapshot ∷ c.calls;
        }))
    → ((current : RestoreFacts) (b : StagedBackup)
        → (take_staged input.now input.gone (restore_request request.token current) c.packages).1
          ≡ gave b
        → Q (record {
          packages =
              (take_staged input.now input.gone
                (restore_request request.token current)
                c.packages).0;
          staged = none;
          calls =
              (commit_taken world input b current
                (take_package request.token true ∷ snapshot ∷ c.calls)).calls;
        }))
    → Q (commit_restore world input request c).0
unfolding commit_restore
commit_restore_keeps Q world input request c same seen stale refusal taken =
    elim (Bool-cases request.confirmed) [
      | inr n ↦ simp n same
      | inl y ↦ elim (Option-cases c.staged) [
        | inl e ↦ simp (y, e) same
        | inr ((token, facts), e) ↦
            elim (Bool-cases ((request.token == "") || not (request.token == token))) [
              | inl t ↦ simp (y, e, t) same
              | inr t ↦ elim (Option-cases (world.facts c.calls)) [
                | inl f ↦ simp (y, e, t, f) (rw e at seen)
                | inr (current, f) ↦ elim (Bool-cases (not (same_facts current facts))) [
                  | inl d ↦ simp (y, e, t, f, d) (stale preview_stale)
                  | inr d ↦
                      elim (answer_cases
                        (take_staged input.now input.gone (restore_request request.token current)
                          c.packages).1) [
                            | inl (p, a) ↦ simp (y, e, t, f) (rw d (rw a (refusal current p)))
                            | inr (b, a) ↦ simp (y, e, t, f) (rw d (rw a (taken current b a)))
                          ]
                ]
              ]
            ]
      ]
    ]
