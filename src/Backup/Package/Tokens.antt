-- ===== src/Backup/Package/Tokens.antt =====
-- The life of a token of internal/biz/backup_package.go.
use tunnel_board.Prelude.{
  ℕ, ◌≤◌, String, Bool, true, false, text_eq, ◌≡◌, ◌≢◌, Option, none, some, List, arith,
  Option-cases, inl, inr, eq_iff,
}
use tunnel_board.Model.Validate.{validate}
use tunnel_board.Result.{ok}
use tunnel_board.Backup.{StagedBackup, Answer, gave, refused}
use tunnel_board.Backup.Package.{
  BackupPackage, StagedPackage, StageWorld, StageRequest, StagePreview, TakeStageRequest, stage,
  take_staged, cancel, check_staged, parse_staged, keep_staged, clear_locked,
}

-- a package that waits has passed the validation
abbrev pub IsValidated : Option StagedPackage → Type 0
IsValidated none = Unit
IsValidated (some s) = validate s.vault ≡ ok tt

abbrev pub IsChecked : BackupPackage → Type 0
IsChecked p = IsValidated p.staged

pub cancel-IsChecked :
    (token : String) (p : BackupPackage) → IsChecked p → IsChecked (cancel token p)
unfolding cancel clear_locked
cancel-IsChecked token p h = elim (Option-cases p.staged) [
  | inl e ↦ ground arith
  | inr (s, e) ↦ ground arith
]

pub take_staged-IsChecked :
    (now : ℕ) (gone : Bool) (r : TakeStageRequest) (p : BackupPackage)
    → IsChecked p
    → IsChecked (take_staged now gone r p).0
unfolding take_staged clear_locked
take_staged-IsChecked now gone r p h = ground arith

pub take_staged_checked :
    (now : ℕ) (gone : Bool) (r : TakeStageRequest) (p : BackupPackage) (b : StagedBackup)
    → IsChecked p
    → (take_staged now gone r p).1 ≡ gave b
    → validate b.vault ≡ ok tt
unfolding take_staged clear_locked
take_staged_checked now gone r p b h e = ground arith

pub take_staged_once :
    (now : ℕ) (gone : Bool) (r : TakeStageRequest) (p : BackupPackage) (b : StagedBackup)
    → (take_staged now gone r p).1 ≡ gave b
    → (take_staged now gone r p).0.staged ≡ none
unfolding take_staged clear_locked
take_staged_once now gone r p b e = ground arith

check_staged-IsChecked :
    (world : StageWorld) (request : StageRequest) (b : StagedBackup) (p : BackupPackage)
    → IsChecked p
    → IsChecked (check_staged world request b p).0
unfolding check_staged keep_staged
check_staged-IsChecked world request b p h = ground arith

parse_staged-IsChecked :
    (world : StageWorld) (request : StageRequest) (raw : List ℕ) (p : BackupPackage)
    → IsChecked p
    → IsChecked (parse_staged world request raw p).0
unfolding parse_staged
parse_staged-IsChecked world request raw p h =
    elim (Option-cases (world.parse_backup raw request.password)) [
      | inl e ↦ ground arith
      | inr ((d, files), e) ↦ ground (
        arith,
        check_staged-IsChecked world request
            (record { vault = d; key_files = files; file_digest = world.digest raw }) p h,
      )
    ]

pub stage-IsChecked :
    (world : StageWorld) (request : StageRequest) (p : BackupPackage)
    → IsChecked p
    → IsChecked (stage world request p).0
unfolding stage
stage-IsChecked world request p h =
    let h' = cancel-IsChecked "" p h in
    elim (Option-cases (world.read_package request.path)) [
      | inl e ↦ ground arith
      | inr (raw, e) ↦ ground (arith, parse_staged-IsChecked world request raw (cancel "" p) h')
    ]

-- what waits is what the preview described
abbrev Waits : StageRequest → String → StagePreview → Option StagedPackage → Type 0
Waits request generation v none = false ≡ true
Waits request generation v (some s) =
    (s.token ≡ v.token)
    × (s.expires_at ≡ v.expires_at)
    × (s.file_digest ≡ v.file_digest)
    × (s.purpose ≡ request.purpose)
    × (s.vault_revision ≡ request.vault_revision)
    × (s.app_generation ≡ generation)
    × (validate s.vault ≡ ok tt)

check_staged-Waits :
    (world : StageWorld) (request : StageRequest) (b : StagedBackup) (p : BackupPackage)
    (v : StagePreview)
    → (check_staged world request b p).1 ≡ gave v
    → (let q = (check_staged world request b p).0 in Waits request q.app_generation v q.staged)
unfolding check_staged keep_staged clear_locked
check_staged-Waits world request b p v e = ground arith

parse_staged-Waits :
    (world : StageWorld) (request : StageRequest) (raw : List ℕ) (p : BackupPackage)
    (v : StagePreview)
    → (parse_staged world request raw p).1 ≡ gave v
    → (let q = (parse_staged world request raw p).0 in Waits request q.app_generation v q.staged)
unfolding parse_staged
parse_staged-Waits world request raw p v h =
    elim (Option-cases (world.parse_backup raw request.password)) [
      | inl e ↦ ground arith
      | inr ((d, files), e) ↦ ground (
        arith,
        check_staged-Waits world request
            (record { vault = d; key_files = files; file_digest = world.digest raw }) p v,
      )
    ]

stage-Waits :
    (world : StageWorld) (request : StageRequest) (p : BackupPackage) (v : StagePreview)
    → (stage world request p).1 ≡ gave v
    → (let q = (stage world request p).0 in Waits request q.app_generation v q.staged)
unfolding stage
stage-Waits world request p v h = elim (Option-cases (world.read_package request.path)) [
  | inl e ↦ ground arith
  | inr (raw, e) ↦ ground (arith, parse_staged-Waits world request raw (cancel "" p) v)
]

abbrev pub retake : StageRequest → StagePreview → TakeStageRequest
retake request v = record {
  token = v.token;
  purpose = request.purpose;
  vault_revision = request.vault_revision;
}

-- the package was given, is no longer kept, is the previewed one and was validated
abbrev pub Taken : StagePreview → BackupPackage × Answer StagedBackup → Type 0
Taken v (p, refused e) = false ≡ true
Taken v (p, gave b) =
    (p.staged ≡ none) × (b.file_digest ≡ v.file_digest) × (validate b.vault ≡ ok tt)

take_staged-Waits :
    (request : StageRequest) (p : BackupPackage) (v : StagePreview) (now : ℕ)
    → Waits request p.app_generation v p.staged
    → v.token ≢ ""
    → now ≤ v.expires_at
    → Taken v (take_staged now false (retake request v) p)
unfolding take_staged
take_staged-Waits request p v now w t h = elim (Option-cases p.staged) [
  | inl e ↦ ground arith
  | inr (s, e) ↦ ground (
    arith,
    eq_iff v.token "",
    eq_iff v.token s.token,
    eq_iff request.purpose s.purpose,
    eq_iff request.vault_revision s.vault_revision,
    eq_iff s.app_generation p.app_generation,
  )
]

-- A package that `Stage` has shown is given to the first `Take` with its token, which is not empty, its
-- purpose and its vault revision, until it expires: it has the digest of the preview, it has passed
-- the validation of the vault, and it is not kept.
pub stage-take_staged :
    (world : StageWorld) (request : StageRequest) (p : BackupPackage) (v : StagePreview) (now : ℕ)
    → (stage world request p).1 ≡ gave v
    → v.token ≢ ""
    → now ≤ v.expires_at
    → Taken v (take_staged now false (retake request v) (stage world request p).0)
stage-take_staged world request p v now e t h =
    take_staged-Waits request (stage world request p).0 v now (stage-Waits world request p v e) t h
