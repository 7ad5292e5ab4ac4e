-- ===== src/Backup/Package.antt =====
-- internal/biz/backup_package.go: one decrypted package waits in memory under a token.
pub mod Tokens
use tunnel_board.Prelude.{
  ℕ, ◌+◌, ◌<◌, String, Bool, true, false, not, ◌==◌, text_eq, ◌&&◌, ◌||◌, ◌≡◌, ◌≢◌, refl, Option,
  none, some, List, ltb, length, if◌then◌else◌, arith,
}
use tunnel_board.Model.{VaultData}
use tunnel_board.Model.Validate.{validate}
use tunnel_board.Result.{Result, ok, err}
use tunnel_board.Backup.{
  Problem, stage_purpose, stage_token, stage_expired, stage_stale, package_unreadable, no_random,
  cancelled, content_invalid, StagedBackup, Answer, gave, refused,
}

abbrev pub purpose_import : String
purpose_import = "import"

abbrev pub purpose_restore : String
purpose_restore = "restore"

-- ten minutes
abbrev pub backup_stage_ttl : ℕ
backup_stage_ttl = 600

pub record StageRequest : Type 0 where
  pub path : String
  pub password : String
  pub purpose : String
  pub vault_revision : String

pub record BackupEntityCounts : Type 0 where
  pub folders : ℕ
  pub ssh_hosts : ℕ
  pub forwards : ℕ
  pub web_routes : ℕ
  pub host_keys : ℕ
  pub key_files : ℕ

pub record StagePreview : Type 0 where
  pub token : String
  pub expires_at : ℕ
  pub counts : BackupEntityCounts
  pub file_digest : String

pub record TakeStageRequest : Type 0 where
  pub token : String
  pub purpose : String
  pub vault_revision : String

pub record StagedPackage : Type 0 where
  pub token : String
  pub purpose : String
  pub vault_revision : String
  pub app_generation : String
  pub expires_at : ℕ
  pub file_digest : String
  pub vault : VaultData
  pub key_files : List (String × List ℕ)

-- `backupPackage`, less its lock and its clock: the time is an argument of the operations
pub record BackupPackage : Type 0 where
  pub app_generation : String
  pub staged : Option StagedPackage

unfoldable pub clear_locked : BackupPackage → BackupPackage
clear_locked p = record p { staged = none }

unfoldable pub cancel : String → BackupPackage → BackupPackage
cancel token p = cancel_staged token p.staged
  where
    cancel_staged : String → Option StagedPackage → BackupPackage
    cancel_staged token none = p
    cancel_staged token (some s) = if (token == "") || (token == s.token) then clear_locked p else p

-- What the machine does during one call of `Stage`: the bytes at a path, unless a read fails or they
-- are too many; their digest; what they decrypt to with a password; the new token; whether the
-- caller has gone before the parse and after it.
pub record StageWorld : Type 0 where
  pub read_package : String → Option (List ℕ)
  pub digest : List ℕ → String
  pub parse_backup : List ℕ → String → Option (VaultData × List (String × List ℕ))
  pub fresh_token : Option String
  pub now : ℕ
  pub cancelled_before : Bool
  pub cancelled_after : Bool

-- the token, and the entry that replaces the one kept before
unfoldable pub keep_staged :
    StageWorld → StageRequest → StagedBackup → BackupPackage → BackupPackage × Answer StagePreview
keep_staged world request backup p = kept world.fresh_token
  where
    kept : Option String → BackupPackage × Answer StagePreview
    kept none = (p, refused no_random)
    kept (some token) = (
      record (clear_locked p) {
        staged = some (record {
          token = token;
          purpose = request.purpose;
          vault_revision = request.vault_revision;
          app_generation = p.app_generation;
          expires_at = world.now + backup_stage_ttl;
          file_digest = backup.file_digest;
          vault = backup.vault;
          key_files = backup.key_files;
        });
      },
      gave (record {
        token = token;
        expires_at = world.now + backup_stage_ttl;
        counts = record {
          folders = length backup.vault.folders;
          ssh_hosts = length backup.vault.ssh_hosts;
          forwards = length backup.vault.forwards;
          web_routes = length backup.vault.web_routes;
          host_keys = length backup.vault.host_keys;
          key_files = length backup.key_files;
        };
        file_digest = backup.file_digest;
      }),
    )

-- from the parsed package on
unfoldable pub check_staged :
    StageWorld → StageRequest → StagedBackup → BackupPackage → BackupPackage × Answer StagePreview
check_staged world request backup p = checked (validate backup.vault)
  where
    checked : Result (Unit {0}) → BackupPackage × Answer StagePreview
    checked (err e) = (p, refused (content_invalid e))
    checked (ok _) =
        if world.cancelled_after then (p, refused cancelled) else keep_staged world request backup p

-- from the bytes of the package on
unfoldable pub parse_staged :
    StageWorld → StageRequest → List ℕ → BackupPackage → BackupPackage × Answer StagePreview
parse_staged world request raw p =
    if world.cancelled_before
    then (p, refused cancelled)
    else parsed (world.parse_backup raw request.password)
  where
    parsed : Option (VaultData × List (String × List ℕ)) → BackupPackage × Answer StagePreview
    parsed none = (p, refused package_unreadable)
    parsed (some (d, files)) =
        check_staged world request
          (record { vault = d; key_files = files; file_digest = world.digest raw }) p

-- `Stage`
unfoldable pub stage :
    StageWorld → StageRequest → BackupPackage → BackupPackage × Answer StagePreview
stage world request p =
    if not (request.purpose == purpose_import) && not (request.purpose == purpose_restore)
    then (p, refused stage_purpose)
    else read (cancel "" p) (world.read_package request.path)
  where
    read : BackupPackage → Option (List ℕ) → BackupPackage × Answer StagePreview
    read p none = (p, refused package_unreadable)
    read p (some raw) = parse_staged world request raw p

-- `Take`, with the time and whether the caller has gone
unfoldable pub take_staged :
    ℕ → Bool → TakeStageRequest → BackupPackage → BackupPackage × Answer StagedBackup
take_staged now gone request p = if gone then (p, refused cancelled) else taken p.staged
  where
    taken : Option StagedPackage → BackupPackage × Answer StagedBackup
    taken none = (p, refused stage_token)
    taken (some s) =
        if (request.token == "")
          || not (request.token == s.token)
          || not (s.app_generation == p.app_generation)
        then (p, refused stage_token)
        else if ltb s.expires_at now
        then (clear_locked p, refused stage_expired)
        else if not (request.purpose == s.purpose)
        then (p, refused stage_purpose)
        else if not (request.vault_revision == s.vault_revision)
        then (clear_locked p, refused stage_stale)
        else (
          record p { staged = none },
          gave (record { vault = s.vault; key_files = s.key_files; file_digest = s.file_digest }),
        )
