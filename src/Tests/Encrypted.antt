-- ===== src/Tests/Encrypted.antt =====
-- The encrypted store, with a codec that stands in for AES-GCM and JSON.
use tunnel_board.Prelude.{
  ℕ, ◌≡◌, refl, Bool, true, false, ◌==◌, nat_eq, beq_refl, List, [], ◌∷◌, Option, none, some, arith,
}
use tunnel_board.Result.{Result, ok}
use tunnel_board.Model.{VaultData}
use tunnel_board.VaultStore.{stored}
use tunnel_board.Vault.{Codec, Nonce, fails_after, Attempt, VaultFile, seal, load_locked, update}
use tunnel_board.Vault.Store.{load_locked-sealed, Updated, update-saved}
use tunnel_board.Tests.Vault.{small}

-- a byte, or data in one piece
data Symbol : Type 0 where
  byte : ℕ → Symbol
  whole : VaultData → Symbol

abbrev same_symbol : Symbol → Symbol → Bool
same_symbol (byte m) (byte n) = m == n
same_symbol (whole d) (whole e) = true
same_symbol _ _ = false

same_symbol_refl : (s : Symbol) → same_symbol s s ≡ true
same_symbol_refl (byte n) = beq_refl n
same_symbol_refl (whole d) = refl

abbrev decode : List Symbol → Option VaultData
decode (whole d ∷ []) = some d
decode _ = none

abbrev plain : Codec
plain = record {
  Byte = Symbol;
  same = same_symbol;
  same_refl = same_symbol_refl;
  magic = byte 84 ∷ byte 66 ∷ [];
  encrypt = λ nonce payload. payload;
  decrypt = λ nonce payload. some payload;
  marshal = λ d. whole (stored d) ∷ [];
  unmarshal = decode;
  decrypt-encrypt = λ nonce payload. refl;
  unmarshal-marshal = λ d. refl;
}

abbrev zeros : List Symbol
zeros =
    byte 0
    ∷ byte 0
    ∷ byte 0
    ∷ byte 0
    ∷ byte 0
    ∷ byte 0
    ∷ byte 0
    ∷ byte 0
    ∷ byte 0
    ∷ byte 0
    ∷ byte 0
    ∷ byte 0
    ∷ []

abbrev nonce : Nonce plain
nonce = record { bytes = zeros; size = omega arith }

abbrev no_file : List (Attempt plain)
no_file = record { nonce = some nonce; write = fails_after } ∷ []

abbrev file : VaultFile plain
file = record { content = some (seal plain nonce (plain.marshal small)); attempts = no_file }

loaded : load_locked plain file ≡ ok (stored small)
loaded = load_locked-sealed plain nonce small no_file (omega arith)

abbrev emptied : VaultData → Result (ℕ × VaultData)
emptied d = ok (0, record d { web_routes = [] })

update-saved_example :
    Updated plain emptied file
      (stored small)
      (record (stored small) { web_routes = [] })
      0
      (update plain emptied file)
unfolding stored
update-saved_example =
    update-saved plain emptied file (stored small) (record (stored small) { web_routes = [] }) 0
      loaded refl (omega arith)
