-- ===== src/Tests/Restore.antt =====
-- A restore of the small vault, with effects that succeed or fail.
use tunnel_board.Prelude.{
  length, All, ℕ, ◌+◌, String, ◌≤◌, Bool, true, false, none, some, List, [], ◌∷◌, ◌≡◌, ◌≢◌, refl,
  arith, ◌⊎◌, ◌↔◌, suc,
}
use tunnel_board.Backup.{StagedBackup, gave}
use tunnel_board.Backup.Package.{
  BackupPackage, StageWorld, StageRequest, StagePreview, stage, take_staged, cancel, clear_locked,
  parse_staged, check_staged, keep_staged,
}
use tunnel_board.Backup.Package.Tokens.{Taken, retake, stage-take_staged}
use tunnel_board.Backup.Limits.{
  validate_backup_payload, check_all, check_entities, check_key_files, byte_length, check_depth,
  max_json_depth,
}
use tunnel_board.Backup.Limits.Bounds.{validate_backup_payload_bounds}
use tunnel_board.Backup.Limits.Sizes.{
  IsFolderBounded, IsHostBounded, IsForwardBounded, IsRouteBounded, IsHostKeyBounded, IsPathBounded,
  IsContentBounded, total, content_bytes, text_bytes,
}
use tunnel_board.Backup.Limits.Depth.{
  JsonValues, nil, single, compound, depth, tokens_before, check_depth_iff,
}
use tunnel_board.Backup.Restore.{RestoreEffects, RestoreFacts, RestoreCommitRequest}
use tunnel_board.Backup.Restore.Commit.{CommitInput, commit_taken}
use tunnel_board.Backup.Restore.Coordinator.{RestoreCoordinator, stage_restore, commit_restore}
use tunnel_board.Backup.Restore.Fate.{Fate, IsUntouched, commit_taken_fate, replacements}
use tunnel_board.Backup.Restore.Phases.{
  IsOrdered, commit_restore-IsOrdered, stage_restore-IsOrdered,
}
use tunnel_board.Backup.Restore.Once.{Commit, commit_each, commit_each_replaces_once}
use tunnel_board.Backup.Restore.Candidates.{
  AreValid, commit_restore-AreValid, stage_restore-AreValid,
}
use tunnel_board.Tests.Vault.{small, small-valid}

abbrev facts : RestoreFacts
facts = record { vault_revision = "v1"; runtime_revision = "r1"; route_revision = "w1" }

-- the replacement of the vault succeeds or not
abbrev effects : Bool → RestoreEffects
effects replaces = record {
  facts = λ c. some facts;
  storage = λ c. some "s1";
  running = λ c. some (1 ∷ []);
  candidate = λ c d. some "new.tbv";
  journal_written = λ c j. true;
  suspension = λ c. (1 ∷ [], true);
  neutralized = λ c. true;
  replaced = λ c id. replaces;
  quarantine_entered = λ c. true;
  journal_committed = λ c id. true;
  compensated = λ c s. true;
}

abbrev machine : StageWorld
machine = record {
  read_package = λ path. some (1 ∷ 2 ∷ []);
  digest = λ raw. "d1";
  parse_backup = λ raw password. some (small, []);
  fresh_token = some "t1";
  now = 100;
  cancelled_before = false;
  cancelled_after = false;
}

abbrev no_package : BackupPackage
no_package = record { app_generation = "g1"; staged = none }

abbrev request : StageRequest
request = record { path = "a.tbb"; password = "p"; purpose = "restore"; vault_revision = "v1" }

abbrev preview : StagePreview
preview = record {
  token = "t1";
  expires_at = 700;
  counts = record {
    folders = 2;
    ssh_hosts = 1;
    forwards = 2;
    web_routes = 1;
    host_keys = 1;
    key_files = 0;
  };
  file_digest = "d1";
}

staged_preview : (stage machine request no_package).1 ≡ gave preview
unfolding stage cancel clear_locked parse_staged check_staged keep_staged
staged_preview = simp small-valid refl

named_token : preview.token ≢ ""
named_token e = cc

stage-take_staged_example :
    Taken preview
      (take_staged 650 false (retake request preview) (stage machine request no_package).0)
stage-take_staged_example =
    stage-take_staged machine request no_package preview 650 staged_preview named_token
      (omega arith)

abbrev backup : StagedBackup
backup = record { vault = small; key_files = []; file_digest = "d1" }

abbrev input : CommitInput
input = record { now = 650; gone = false; fresh_id = some "tx1" }

commit_taken_fate_example :
    Fate [] (commit_taken (effects false) input backup facts [])
    ⊎ IsUntouched [] (commit_taken (effects false) input backup facts [])
commit_taken_fate_example = commit_taken_fate (effects false) input backup facts []

abbrev begun : RestoreCoordinator
begun = record { packages = no_package; staged = none; calls = [] }

abbrev staged : RestoreCoordinator
staged = (stage_restore (effects true) machine "a.tbb" "p" begun).0

staged-IsOrdered : IsOrdered staged.calls
staged-IsOrdered = stage_restore-IsOrdered (effects true) machine "a.tbb" "p" begun tt

staged-AreValid : AreValid staged
staged-AreValid = stage_restore-AreValid (effects true) machine "a.tbb" "p" begun (tt, tt)

abbrev confirmed : RestoreCommitRequest
confirmed = record { token = "t1"; confirmed = true }

commit_restore-IsOrdered_example :
    IsOrdered (commit_restore (effects true) input confirmed staged).0.calls
commit_restore-IsOrdered_example =
    commit_restore-IsOrdered (effects true) input confirmed staged staged-IsOrdered

commit_restore-AreValid_example : AreValid (commit_restore (effects true) input confirmed staged).0
commit_restore-AreValid_example =
    commit_restore-AreValid (effects true) input confirmed staged staged-AreValid

abbrev twice : List Commit
twice =
    record { world = effects false; input = input; request = confirmed }
    ∷ record { world = effects true; input = input; request = confirmed }
    ∷ []

commit_each_replaces_once_example :
    replacements (commit_each twice staged).calls ≤ suc (replacements staged.calls)
commit_each_replaces_once_example = commit_each_replaces_once twice staged

abbrev key_file : String × List ℕ
key_file = ("keys/gate", 45 ∷ 45 ∷ [])

small_fits : validate_backup_payload small (key_file ∷ []) ≡ gave tt
unfolding validate_backup_payload check_all check_entities check_key_files byte_length
small_fits = refl

validate_backup_payload_bounds_example :
    ((length small.folders ≤ 500)
      × (length small.ssh_hosts ≤ 1000)
      × (length small.forwards ≤ 5000)
      × (length small.web_routes ≤ 2000)
      × (length small.host_keys ≤ 5000)
      × (1 ≤ 64)
      × (length small.folders
            + length small.ssh_hosts
            + length small.forwards
            + length small.web_routes
            + length small.host_keys
          ≤ 10000))
    × (All IsFolderBounded small.folders
        × All IsHostBounded small.ssh_hosts
        × All IsForwardBounded small.forwards
        × All IsRouteBounded small.web_routes
        × All IsHostKeyBounded small.host_keys
        × (byte_length small.prefs.ui_locale ≤ 256)
        × All IsPathBounded (key_file ∷ []))
    × (text_bytes small (key_file ∷ []) ≤ 8388608)
    × All (λ fw. length fw.chain_host_ids ≤ 16) small.forwards
    × All IsContentBounded (key_file ∷ [])
    × (total content_bytes (key_file ∷ []) ≤ 16777216)
validate_backup_payload_bounds_example =
    validate_backup_payload_bounds small (key_file ∷ []) small_fits

-- `{"a": [1]}`
abbrev object : JsonValues
object = compound (single (compound (single nil) nil)) nil

check_depth_iff_example :
    (check_depth (tokens_before object []) 0 ≡ gave tt) ↔ (depth object ≤ max_json_depth)
check_depth_iff_example = check_depth_iff object
