-- ===== src/VaultStore.antt =====
-- The interface `VaultStore` of internal/biz/catalog.go, through which every other part reads and
-- writes the vault.
use tunnel_board.Prelude.{ℕ, ◌≡◌, ◌⊎◌, ◌≤◌}
use tunnel_board.Result.{Error, Result, ok, err, save_failed}
use tunnel_board.Model.{VaultData}

-- What a reader gets back of data that was written: the trusted CA is a fact of the machine, marked
-- `json:"-"`, and is not stored.
unfoldable pub stored : VaultData → VaultData
stored d = record d { prefs = record d.prefs { ca_trusted_sha256 = "" } }

abbrev pub payload_version : ℕ
payload_version = 1

-- `update` hands the loaded data to a mutation, which answers with a value for its caller and the
-- data to write, or refuses.
pub record VaultStore : Type 1 where
  pub State : Type 0
  pub load : State → Result VaultData
  pub update :
      (A : Type 0) → (VaultData → Result (A × VaultData)) → State → State × Result (A × VaultData)
  -- a vault of a later version is not read
  pub load-version : (s : State) (d : VaultData) → load s ≡ ok d → d.version ≤ payload_version
  -- a vault that cannot be read is not written
  pub update-load_err :
      (A : Type 0) (m : VaultData → Result (A × VaultData)) (s : State) (e : Error)
      → load s ≡ err e
      → update A m s ≡ (s, err e)
  -- a mutation that refuses is not written
  pub update-rejected :
      (A : Type 0) (m : VaultData → Result (A × VaultData)) (s : State) (d : VaultData) (e : Error)
      → load s ≡ ok d
      → m d ≡ err e
      → update A m s ≡ (s, err e)
  -- otherwise the data is written; a write may fail, before or after the file was replaced
  pub update-written :
      (A : Type 0) (m : VaultData → Result (A × VaultData)) (s : State) (d d' : VaultData) (a : A)
      → load s ≡ ok d
      → m d ≡ ok (a, d')
      → d'.version ≤ payload_version
      → ((update A m s).1 ≡ ok (a, d')) × (load (update A m s).0 ≡ ok (stored d'))
        ⊎ ((update A m s).1 ≡ err save_failed)
          × ((load (update A m s).0 ≡ ok d) ⊎ (load (update A m s).0 ≡ ok (stored d')))
