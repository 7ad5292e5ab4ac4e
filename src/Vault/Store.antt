-- ===== src/Vault/Store.antt =====
-- The encrypted file is a `VaultStore` (internal/vault/vault.go).
use tunnel_board.Prelude.{
  ℕ, ◌+◌, ◌≡◌, ◌≤◌, refl, ap, sym, ◌∙◌, true, false, ltb, nat_eq, ◌⊎◌, inl, inr, List, [], ◌∷◌,
  ◌++◌, Option, none, some, length, length-append, take, drop, take-append, drop-append, Bool-cases,
  subst, arith,
}
use tunnel_board.Result.{Error, Result, ok, err, ◌>>=◌, save_failed}
use tunnel_board.Model.{VaultData}
use tunnel_board.VaultStore.{VaultStore, stored, payload_version}
use tunnel_board.Vault.{
  Bytes, nonce_size, Codec, Nonce, FileWrite, goes_through, fails_before, fails_after, Attempt,
  VaultFile, same_bytes, seal, open_sealed, decoded, read_content, load_locked, save_with,
  next_save, save_locked, answer_saved, save_mutated, mutate_loaded, update,
}

sealed_parts :
    (c : Codec) (n : Nonce c) (payload : Bytes c)
    → (take nonce_size (drop (length c.magic) (seal c n payload)) ≡ n.bytes)
      × (drop nonce_size (drop (length c.magic) (seal c n payload)) ≡ c.encrypt n.bytes payload)
unfolding seal
sealed_parts c n payload = (
  ap (take nonce_size) (drop-append c.magic _)
      ∙ subst (λ k. take k (n.bytes ++ c.encrypt n.bytes payload) ≡ n.bytes) n.size
          (take-append n.bytes _),
  ap (drop nonce_size) (drop-append c.magic _)
      ∙ subst (λ k. drop k (n.bytes ++ c.encrypt n.bytes payload) ≡ c.encrypt n.bytes payload)
          n.size (drop-append n.bytes _),
)

seal-long :
    (c : Codec) (n : Nonce c) (payload : Bytes c)
    → ltb (length (seal c n payload)) (length c.magic + nonce_size) ≡ false
unfolding seal
seal-long c n payload = ground (
  arith,
  n.size,
  length-append c.magic (n.bytes ++ c.encrypt n.bytes payload),
  length-append n.bytes (c.encrypt n.bytes payload),
)

same_bytes_refl : (c : Codec) (bs : Bytes c) → same_bytes c bs bs ≡ true
same_bytes_refl c [] = refl
same_bytes_refl c (b ∷ bs) = rw (c.same_refl b) (same_bytes_refl c bs)

seal-magic :
    (c : Codec) (n : Nonce c) (payload : Bytes c)
    → same_bytes c (take (length c.magic) (seal c n payload)) c.magic ≡ true
unfolding seal
seal-magic c n payload =
    ap (λ bs. same_bytes c bs c.magic) (take-append c.magic _) ∙ same_bytes_refl c c.magic

-- `open` gives back what `seal` was given, under any nonce.
open_sealed-seal :
    (c : Codec) (n : Nonce c) (payload : Bytes c) → open_sealed c (seal c n payload) ≡ ok payload
unfolding open_sealed
open_sealed-seal c n payload =
    let (nonce, rest) = sealed_parts c n payload in
    rw
      (
        open_sealed,
        seal-long c n payload,
        seal-magic c n payload,
        nonce,
        rest,
        c.decrypt-encrypt n.bytes payload,
      )
      refl

module _ (c : Codec) where
  decoded-stored :
      (d : VaultData) → d.version ≤ payload_version → decoded c (some (stored d)) ≡ ok (stored d)
  unfolding stored
  decoded-stored d v =
      let current : ltb payload_version d.version ≡ false = ground (arith, v) in rw current refl

  -- A file that holds the sealed data is loaded, if the data's version is one that the program reads.
  pub load_locked-sealed :
      (n : Nonce c) (d : VaultData) (later : List (Attempt c))
      → d.version ≤ payload_version
      → load_locked c (record { content = some (seal c n (c.marshal d)); attempts = later })
        ≡ ok (stored d)
  unfolding load_locked
  load_locked-sealed n d later v =
      rw (load_locked, open_sealed-seal c n (c.marshal d), c.unmarshal-marshal d)
        (decoded-stored d v)

  load_locked-content :
      (s : VaultFile c) (later : List (Attempt c))
      → load_locked c (record s { attempts = later }) ≡ load_locked c s
  unfolding load_locked
  load_locked-content s later = refl

  -- what a save may come to
  abbrev pub Saved : VaultData → VaultData → VaultFile c × Result (Unit {0}) → Type 0
  Saved old new (s, ok _) = load_locked c s ≡ ok (stored new)
  Saved old new (s, err e) =
      (e ≡ save_failed) × ((load_locked c s ≡ ok old) ⊎ (load_locked c s ≡ ok (stored new)))

  save_locked-Saved :
      (s : VaultFile c) (d d' : VaultData)
      → load_locked c s ≡ ok d
      → d'.version ≤ payload_version
      → Saved d d' (save_locked c d' s)
  unfolding save_locked
  save_locked-Saved s d d' h v = go s.attempts
    where
      after :
          (later : List (Attempt c)) (n : Option (Nonce c)) (w : FileWrite)
          → Saved d d' (save_with c n w d' (record s { attempts = later }))
      after later none w = (refl, inl (load_locked-content s later ∙ h))
      after later (some n) goes_through = load_locked-sealed n d' later v
      after later (some n) fails_before = (refl, inl (load_locked-content s later ∙ h))
      after later (some n) fails_after = (refl, inr (load_locked-sealed n d' later v))

      go : (later : List (Attempt c)) → Saved d d' (next_save c later d' s)
      go [] = (refl, inl h)
      go (a ∷ later) = after later a.nonce a.write

  module _ {A : Type 0} (m : VaultData → Result (A × VaultData)) (s : VaultFile c) where
    pub update-load_failed : (e : Error) → load_locked c s ≡ err e → update c m s ≡ (s, err e)
    unfolding update
    update-load_failed e h = ap (λ r. mutate_loaded c r m s) h

    -- A mutation that refuses leaves the file as it is.
    pub update-refused :
        (d : VaultData) (e : Error)
        → load_locked c s ≡ ok d
        → m d ≡ err e
        → update c m s ≡ (s, err e)
    unfolding update
    update-refused d e h k = ap (λ r. mutate_loaded c r m s) h ∙ ap (λ r. save_mutated c r s) k

    abbrev pub Updated : VaultData → VaultData → A → VaultFile c × Result (A × VaultData) → Type 0
    Updated d d' a r =
        (r.1 ≡ ok (a, d')) × (load_locked c r.0 ≡ ok (stored d'))
        ⊎ (r.1 ≡ err save_failed)
          × ((load_locked c r.0 ≡ ok d) ⊎ (load_locked c r.0 ≡ ok (stored d')))

    answer_saved-Updated :
        (d d' : VaultData) (a : A) (r : VaultFile c × Result (Unit {0}))
        → Saved d d' r
        → Updated d d' a (answer_saved c (a, d') r)
    answer_saved-Updated d d' a (t, ok _) h = inl (refl, h)
    answer_saved-Updated d d' a (t, err e) h = inr (ap err h.0, h.1)

    -- `Update` of a file that can be loaded, with a mutation that accepts and whose data have a
    -- version that the program reads: it answers with the new data, and they are loaded from then
    -- on, but for the field that is not stored; or it reports that the save failed, and either
    -- the old data are still loaded or the new ones are.
    pub update-saved :
        (d d' : VaultData) (a : A)
        → load_locked c s ≡ ok d
        → m d ≡ ok (a, d')
        → d'.version ≤ payload_version
        → Updated d d' a (update c m s)
    unfolding update
    update-saved d d' a h k v =
        subst (Updated d d' a)
          (sym (ap (λ r. mutate_loaded c r m s) h ∙ ap (λ r. save_mutated c r s) k))
          (answer_saved-Updated d d' a (save_locked c d' s) (save_locked-Saved s d d' h v))

  abbrev loaded_version : Result VaultData → ℕ
  loaded_version (ok d) = d.version
  loaded_version (err e) = 0

  decoded-version : (o : Option VaultData) → loaded_version (decoded c o) ≤ payload_version
  decoded-version none = omega arith
  decoded-version (some d) = elim (Bool-cases (ltb payload_version d.version)) [
    | inl e ↦ rw e (omega arith)
    | inr e ↦ rw e (ground (arith, e))
  ]

  >>=-version :
      {B : Type 0} (r : Result B) (k : B → Result VaultData)
      → ((b : B) → loaded_version (k b) ≤ payload_version)
      → loaded_version (r >>= k) ≤ payload_version
  >>=-version (ok b) k h = h b
  >>=-version (err e) k h = omega arith

  load_locked-version :
      (s : VaultFile c) (d : VaultData) → load_locked c s ≡ ok d → d.version ≤ payload_version
  unfolding load_locked
  load_locked-version s d h =
      subst (λ r. loaded_version r ≤ payload_version) h
        (>>=-version (read_content c s.content) _ (λ raw.
          >>=-version (open_sealed c raw) _ (λ payload. decoded-version (c.unmarshal payload))))

  -- the store that the program runs on
  pub vault_file : VaultStore
  vault_file = record {
    State = VaultFile c;
    load = load_locked c;
    update = λ A m s. update c m s;
    load-version = load_locked-version;
    update-load_err = λ A m s e h. update-load_failed m s e h;
    update-rejected = λ A m s d e h k. update-refused m s d e h k;
    update-written = λ A m s d d' a h k v. update-saved m s d d' a h k v;
  }
