-- ===== src/Vault.antt =====
-- internal/vault/vault.go: the store behind `VaultStore`, an encrypted file. AES-GCM, the system's
-- random bytes and Go's JSON are parameters. Bytes are lists of numbers.
pub mod Store
use tunnel_board.Prelude.{
  ℕ, ◌+◌, ◌≡◌, Bool, true, false, ◌&&◌, ◌||◌, not, ltb, ◌==◌, nat_eq, List, [], ◌∷◌, ◌++◌, Option,
  none, some, length, take, drop, if◌then◌else◌,
}
use tunnel_board.Result.{Result, ok, err, ◌>>=◌, load_failed, save_failed}
use tunnel_board.Model.{VaultData}
use tunnel_board.VaultStore.{stored, payload_version}

abbrev pub nonce_size : ℕ
nonce_size = 12

-- What the store relies on: bytes can be compared, decryption undoes encryption, and decoding undoes
-- encoding up to the field that is marked `json:"-"`. `magic` is the text "TBVAULT1".
pub record Codec : Type 1 where
  pub Byte : Type 0
  pub same : Byte → Byte → Bool
  pub same_refl : (b : Byte) → same b b ≡ true
  pub magic : List Byte
  pub encrypt : List Byte → List Byte → List Byte
  pub decrypt : List Byte → List Byte → Option (List Byte)
  pub marshal : VaultData → List Byte
  pub unmarshal : List Byte → Option VaultData
  pub decrypt-encrypt :
      (nonce payload : List Byte) → decrypt nonce (encrypt nonce payload) ≡ some payload
  pub unmarshal-marshal : (d : VaultData) → unmarshal (marshal d) ≡ some (stored d)

abbrev pub Bytes : Codec → Type 0
Bytes c = List c.Byte

-- what `rand.Reader` gives
pub record Nonce (c : Codec) : Type 0 where
  pub bytes : Bytes c
  pub size : length bytes ≡ nonce_size

-- The ends of `writeFileAtomic`; the mode is changed after the file was replaced.
pub data FileWrite : Type 0 where
  goes_through fails_before fails_after : FileWrite

-- the system's part in one save
pub record Attempt (c : Codec) : Type 0 where
  pub nonce : Option (Nonce c)
  pub write : FileWrite

-- what `vault.dat` holds, and how the next saves will go
pub record VaultFile (c : Codec) : Type 0 where
  pub content : Option (Bytes c)
  pub attempts : List (Attempt c)

module _ (c : Codec) where
  abbrev pub same_bytes : Bytes c → Bytes c → Bool
  same_bytes [] [] = true
  same_bytes (x ∷ xs) (y ∷ ys) = c.same x y && same_bytes xs ys
  same_bytes _ _ = false

  unfoldable pub seal : Nonce c → Bytes c → Bytes c
  seal n payload = c.magic ++ (n.bytes ++ c.encrypt n.bytes payload)

  abbrev opened : Option (Bytes c) → Result (Bytes c)
  opened none = err load_failed
  opened (some payload) = ok payload

  unfoldable pub open_sealed : Bytes c → Result (Bytes c)
  open_sealed raw =
      if ltb (length raw) (length c.magic + nonce_size)
        || not (same_bytes (take (length c.magic) raw) c.magic)
      then err load_failed
      else opened (
          c.decrypt (take nonce_size (drop (length c.magic) raw))
            (drop nonce_size (drop (length c.magic) raw)))

  abbrev decoded : Option VaultData → Result VaultData
  decoded none = err load_failed
  decoded (some d) = if ltb payload_version d.version then err load_failed else ok d

  abbrev read_content : Option (Bytes c) → Result (Bytes c)
  read_content none = err load_failed
  read_content (some raw) = ok raw

  -- `loadLocked`
  unfoldable pub load_locked : VaultFile c → Result VaultData
  unfolding open_sealed
  load_locked s = do
    raw ← read_content s.content
    payload ← open_sealed raw
    decoded (c.unmarshal payload)

  -- `writeFileAtomic`
  abbrev write_file_atomic : FileWrite → Bytes c → VaultFile c → VaultFile c × Result (Unit {0})
  write_file_atomic goes_through raw s = (record s { content = some raw }, ok tt)
  write_file_atomic fails_before raw s = (s, err save_failed)
  write_file_atomic fails_after raw s = (record s { content = some raw }, err save_failed)

  abbrev save_with :
      Option (Nonce c) → FileWrite → VaultData → VaultFile c → VaultFile c × Result (Unit {0})
  save_with none w d s = (s, err save_failed)
  save_with (some n) w d s = write_file_atomic w (seal n (c.marshal d)) s

  abbrev next_save : List (Attempt c) → VaultData → VaultFile c → VaultFile c × Result (Unit {0})
  next_save [] d s = (s, err save_failed)
  next_save (a ∷ later) d s = save_with a.nonce a.write d (record s { attempts = later })

  -- `saveLocked`
  unfoldable pub save_locked : VaultData → VaultFile c → VaultFile c × Result (Unit {0})
  unfolding seal
  save_locked d s = next_save s.attempts d s

  module _ {A : Type 0} where
    abbrev answer_saved :
        A × VaultData → VaultFile c × Result (Unit {0}) → VaultFile c × Result (A × VaultData)
    answer_saved r (s, ok _) = (s, ok r)
    answer_saved r (s, err e) = (s, err e)

    abbrev save_mutated :
        Result (A × VaultData) → VaultFile c → VaultFile c × Result (A × VaultData)
    save_mutated (err e) s = (s, err e)
    save_mutated (ok r) s = answer_saved r (save_locked r.1 s)

    abbrev mutate_loaded :
        Result VaultData
        → (VaultData → Result (A × VaultData))
        → VaultFile c
        → VaultFile c × Result (A × VaultData)
    mutate_loaded (err e) mutate s = (s, err e)
    mutate_loaded (ok d) mutate s = save_mutated (mutate d) s

    -- `Update`
    unfoldable pub update :
        (VaultData → Result (A × VaultData)) → VaultFile c → VaultFile c × Result (A × VaultData)
    unfolding load_locked save_locked
    update mutate s = mutate_loaded (load_locked s) mutate s
