-- ===== src/Catalog.antt =====
-- internal/biz/catalog.go: what the operations of `CatalogBiz` share. An operation is a mutation of
-- the vault's data, run by the store's `update`; its answer is what the closure assigns to the
-- variables that it captures.
pub mod Lists
pub mod Ids
pub mod Folders
pub mod Hosts
pub mod Routes
pub mod Forwards
pub mod Delete
pub mod HostKeys
pub mod Operations
use tunnel_board.Prelude.{ℕ, ◌+◌, List, [], ◌∷◌, ltb, if◌then◌else◌}
use tunnel_board.Result.{Result, ok, err, ◌>>=◌, ◌>>◌}
use tunnel_board.Model.{VaultData}
use tunnel_board.Model.Validate.{validate}
use tunnel_board.VaultStore.{VaultStore}

-- the loop of `nextID`
unfoldable pub max_from : ℕ → List ℕ → ℕ
max_from m [] = m
max_from m (id ∷ ids) = max_from (if ltb m id then id else m) ids

-- `nextID`
unfoldable pub next_id : List ℕ → ℕ
next_id ids = max_from 0 ids + 1

-- `return d.Validate()` at a mutation's end
unfoldable pub commit : {A : Type 0} → A → VaultData → Result (A × VaultData)
commit a d = do validate d; ok (a, d)

-- the caller's `if err != nil { return … }` after `Update`, which drops the snapshot
abbrev pub answer_of : {A : Type 0} → Result (A × VaultData) → Result A
answer_of (ok (a, d)) = ok a
answer_of (err e) = err e

unfoldable pub run :
    {A : Type 0} (v : VaultStore)
    → (VaultData → Result (A × VaultData))
    → v.State
    → v.State × Result A
run {A} v m s = let (s', r) = v.update A m s in (s', answer_of r)
