-- ===== src/Backup.antt =====
-- Full backups: internal/biz/backup_package.go reads and stages a package, and
-- internal/biz/backup_restore.go replaces the vault by it. Times are seconds.
pub mod Package
pub mod Limits
pub mod Restore
use tunnel_board.Prelude.{ℕ, String, List, ◌≡◌, refl, ◌⊎◌, inl, inr}
use tunnel_board.Model.{VaultData}
use tunnel_board.Result.{Error}

-- the errors of both files; `step_failed` names the operation that a wrapped error names
pub data Problem : Type 0 where
  stage_purpose stage_token stage_expired stage_stale : Problem
  package_unreadable no_random cancelled : Problem
  content_invalid : Error → Problem
  resource_limit : String → ℕ → ℕ → Problem
  password_required payload_undecodable : Problem
  restore_not_confirmed preview_stale : Problem
  step_failed : String → Problem

-- `StagedBackup`: what a package holds, given to the caller of `Take`
pub record StagedBackup : Type 0 where
  pub vault : VaultData
  pub key_files : List (String × List ℕ)
  pub file_digest : String

pub data Answer {ℓ} (A : Type ℓ) : Type ℓ where
  gave : A → Answer A
  refused : Problem → Answer A

pub answer_cases {ℓ} :
    {A : Type ℓ} (a : Answer A) → ((e : Problem) × (a ≡ refused e)) ⊎ ((x : A) × (a ≡ gave x))
answer_cases (gave x) = inr (x, refl)
answer_cases (refused e) = inl (e, refl)

infixl 5 ◌>>=◌
abbrev pub ◌>>=◌ {ℓ κ} : {A : Type ℓ} {B : Type κ} → Answer A → (A → Answer B) → Answer B
refused e >>= next = refused e
gave x >>= next = next x

pub >>=-eq-gave {ℓ κ} :
    {A : Type ℓ} {B : Type κ} (first : Answer A) (next : A → Answer B) {y : B}
    → (first >>= next) ≡ gave y
    → (x : A) × (first ≡ gave x) × (next x ≡ gave y)
>>=-eq-gave (refused e) next h = cc
>>=-eq-gave (gave x) next h = (x, refl, h)
