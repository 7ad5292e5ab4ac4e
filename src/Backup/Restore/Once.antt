-- ===== src/Backup/Restore/Once.antt =====
-- `CommitRestore` of internal/biz/backup_restore.go uses up what `StageRestore` staged.
use tunnel_board.Prelude.{◌≤◌, none, List, [], ◌∷◌, ◌≡◌, refl, ◌⊎◌, inl, inr, arith, suc, text_eq}
use tunnel_board.Backup.{StagedBackup}
use tunnel_board.Backup.Restore.{Call, RestoreEffects, RestoreFacts, RestoreCommitRequest}
use tunnel_board.Backup.Restore.Commit.{commit_taken, CommitInput}
use tunnel_board.Backup.Restore.Coordinator.{
  RestoreCoordinator, commit_restore, commit_restore_keeps,
}
use tunnel_board.Backup.Restore.Fate.{replacements, commit_taken_fate}

-- one call of `CommitRestore`, with what the machine does during it
pub record Commit : Type 1 where
  pub world : RestoreEffects
  pub input : CommitInput
  pub request : RestoreCommitRequest

-- calls of `CommitRestore`, one after another
unfoldable pub commit_each : List Commit → RestoreCoordinator → RestoreCoordinator
commit_each [] c = c
commit_each (m ∷ ms) c = commit_each ms (commit_restore m.world m.input m.request c).0

commit_restore-unstaged :
    (m : Commit) (c : RestoreCoordinator)
    → c.staged ≡ none
    → (commit_restore m.world m.input m.request c).0 ≡ c
unfolding commit_restore
commit_restore-unstaged m c e = ground arith

commit_each-unstaged :
    (ms : List Commit) (c : RestoreCoordinator) → c.staged ≡ none → commit_each ms c ≡ c
unfolding commit_each
commit_each-unstaged [] c e = refl
commit_each-unstaged (m ∷ ms) c e = rw (commit_restore-unstaged m c e) (commit_each-unstaged ms c e)

-- the replacements grow by one at most, and by none while the staged token is kept
abbrev IsUsed : RestoreCoordinator → RestoreCoordinator → Type 0
IsUsed c c' =
    (replacements c'.calls ≤ suc (replacements c.calls))
    × ((c'.staged ≡ none) ⊎ (replacements c'.calls ≡ replacements c.calls))

commit_taken_replaces :
    (world : RestoreEffects) (input : CommitInput) (b : StagedBackup) (current : RestoreFacts)
    (calls : List Call)
    → replacements (commit_taken world input b current calls).calls ≤ suc (replacements calls)
commit_taken_replaces world input b current calls =
    elim (commit_taken_fate world input b current calls) [
      | inl (inl h) ↦ ground arith
      | inl (inr (inl h)) ↦ ground arith
      | inl (inr (inr h)) ↦ ground arith
      | inr h ↦ ground arith
    ]

commit_restore-IsUsed :
    (m : Commit) (c : RestoreCoordinator) → IsUsed c (commit_restore m.world m.input m.request c).0
commit_restore-IsUsed m c =
    commit_restore_keeps (IsUsed c) m.world m.input m.request c (omega arith, inr refl)
      (omega arith, inr refl) (λ e. (omega arith, inr refl)) (λ current e. (omega arith, inr refl))
      (λ current b e. (commit_taken_replaces m.world m.input b current _, inl refl))

-- However often `CommitRestore` is called after one staging, with whatever requests and whatever the
-- effects answer, the vault is replaced at most once.
pub commit_each_replaces_once :
    (ms : List Commit) (c : RestoreCoordinator)
    → replacements (commit_each ms c).calls ≤ suc (replacements c.calls)
unfolding commit_each
commit_each_replaces_once [] c = omega arith
commit_each_replaces_once (m ∷ ms) c =
    let (few, used) = commit_restore-IsUsed m c in
    let c' : RestoreCoordinator = (commit_restore m.world m.input m.request c).0 in
    elim used [
      | inl e ↦ rw (commit_each-unstaged ms c' e) few
      | inr e ↦ let rest = commit_each_replaces_once ms c' in omega (arith, rest, e)
    ]
