-- ===== src/Catalog/HostKeys/Tofu.antt =====
-- Trust on first use: what a check of a host key answers after an operation of internal/biz/trust.go.
use tunnel_board.Prelude.{
  ℕ, String, ◌≡◌, ◌≢◌, refl, ◌==◌, nat_eq, text_eq, List, [], ◌∷◌, ◌++◌, none, some, if◌then◌else◌,
  eq_iff, arith, Bool-cases, Option-cases, inl, inr,
}
use tunnel_board.Result.{ok, err, duplicate_host_key}
use tunnel_board.Model.{HostKey, VaultData}
use tunnel_board.Model.Trust.{TrustStatus, unknown, trusted, mismatch, is_for, check_host_key}
use tunnel_board.Catalog.{commit}
use tunnel_board.Catalog.HostKeys.{
  Offer, new_host_key, append_host_key, enroll_host_key_in, renewed, replace_first,
  replace_host_key_in,
}

abbrev pub status : VaultData → String → ℕ → String → TrustStatus
status d host port fp = (check_host_key d.host_keys host port fp).1

-- An entry behind the others decides only for an endpoint that has none.
check_host_key-append :
    (ks : List HostKey) (k : HostKey) (host : String) (port : ℕ) (fp : String)
    → (check_host_key (ks ++ k ∷ []) host port fp).1 ≡ (elim (check_host_key ks host port fp).1 [
      | unknown ↦ (check_host_key (k ∷ []) host port fp).1
      | trusted ↦ trusted
      | mismatch ↦ mismatch
    ])
unfolding check_host_key
check_host_key-append [] k host port fp = refl
check_host_key-append (j ∷ ks) k host port fp =
    ground (arith, check_host_key-append ks k host port fp)

-- the answer for an endpoint does not change its kind with the fingerprint
unknown-any :
    (ks : List HostKey) (host : String) (port : ℕ) (fp fq : String)
    → (check_host_key ks host port fp).1 ≡ unknown
    → (check_host_key ks host port fq).1 ≡ unknown
unfolding check_host_key
unknown-any [] host port fp fq h = refl
unknown-any (k ∷ ks) host port fp fq h = ground (arith, unknown-any ks host port fp fq)

module _ (o : Offer) (d : VaultData) where
  abbrev appended : VaultData
  appended = record d { host_keys = d.host_keys ++ new_host_key o d.host_keys ∷ [] }

  append-eq-ok :
      (d' : VaultData) (k : HostKey)
      → append_host_key o d ≡ ok (k, d')
      → (k ≡ new_host_key o d.host_keys) × (d' ≡ appended)
  unfolding append_host_key commit
  append-eq-ok d' k h = ground arith

  enroll-eq-ok :
      (d' : VaultData) (k : HostKey)
      → enroll_host_key_in o d ≡ ok (k, d')
      → (status d o.host o.port o.fingerprint ≡ unknown) × (append_host_key o d ≡ ok (k, d'))
  unfolding enroll_host_key_in
  enroll-eq-ok d' k h = ground arith

  -- what an appended entry for an endpoint without one does to every answer
  appended_self :
      (fp : String)
      → status d o.host o.port o.fingerprint ≡ unknown
      → status appended o.host o.port fp ≡ (if o.fingerprint == fp then trusted else mismatch)
  unfolding check_host_key new_host_key
  appended_self fp h = ground (
    arith,
    check_host_key-append d.host_keys (new_host_key o d.host_keys) o.host o.port fp,
    unknown-any d.host_keys o.host o.port o.fingerprint fp h,
    eq_iff o.host o.host,
  )

  appended_other :
      (host : String) (port : ℕ) (fp : String)
      → (host ≡ o.host → port ≢ o.port)
      → status appended host port fp ≡ status d host port fp
  unfolding check_host_key new_host_key
  appended_other host port fp ne = ground (
    arith,
    check_host_key-append d.host_keys (new_host_key o d.host_keys) host port fp,
    eq_iff o.host host,
  )

-- Enrolling a key succeeds only for an endpoint without one. From then on this fingerprint is
-- trusted there, every other one is a mismatch, and no other endpoint's answer has changed.
pub enroll_host_key_in-trusts :
    (o : Offer) (d d' : VaultData) (k : HostKey)
    → enroll_host_key_in o d ≡ ok (k, d')
    → (status d o.host o.port o.fingerprint ≡ unknown)
      × ((fp : String)
          → status d' o.host o.port fp ≡ (if o.fingerprint == fp then trusted else mismatch))
      × ((host : String) (port : ℕ) (fp : String)
          → (host ≡ o.host → port ≢ o.port)
          → status d' host port fp ≡ status d host port fp)
enroll_host_key_in-trusts o d d' k h =
    let (free, added) = enroll-eq-ok o d d' k h in
    let (_, same) = append-eq-ok o d d' k added in
    (
      free,
      λ fp. rw same (appended_self o d fp free),
      λ host port fp ne. rw same (appended_other o d host port fp ne),
    )

-- An endpoint that has a key is not enrolled again, whatever the fingerprint.
enroll_known :
    (o : Offer) (d : VaultData)
    → status d o.host o.port o.fingerprint ≢ unknown
    → enroll_host_key_in o d ≡ err (duplicate_host_key o.host o.port)
unfolding enroll_host_key_in
enroll_known o d ne = ground arith

module _ (o : Offer) where
  replace_first-found :
      (ks ks' : List HostKey) (k : HostKey)
      → replace_first o ks ≡ some (k, ks')
      → ((fp : String)
          → (check_host_key ks' o.host o.port fp).1
            ≡ (if o.fingerprint == fp then trusted else mismatch))
        × ((host : String) (port : ℕ) (fp : String)
            → (host ≡ o.host → port ≢ o.port)
            → (check_host_key ks' host port fp).1 ≡ (check_host_key ks host port fp).1)
  unfolding replace_first check_host_key renewed
  replace_first-found [] ks' k h = cc
  replace_first-found (j ∷ ks) ks' k h = elim (Bool-cases (is_for o.host o.port j)) [
    | inl here ↦ (
      λ fp. ground (arith, eq_iff j.host o.host),
      λ host port fp ne. ground (arith, eq_iff j.host o.host, eq_iff j.host host),
    )
    | inr other ↦ elim (Option-cases (replace_first o ks)) [
      | inl e ↦ ground arith
      | inr ((r, rest), e) ↦
          let (self, others) = replace_first-found ks rest r e in
          (λ fp. ground (arith, self fp), λ host port fp ne. ground (arith, others host port fp ne))
    ]
  ]

  -- the entry that is replaced keeps its id and the time when it was first seen
  replace_first-keeps :
      (ks ks' : List HostKey) (k : HostKey) (fp : String)
      → replace_first o ks ≡ some (k, ks')
      → (old : HostKey) × ((check_host_key ks o.host o.port fp).0 ≡ some old)
        × (k.id ≡ old.id)
        × (k.first_seen_at ≡ old.first_seen_at)
  unfolding replace_first check_host_key renewed
  replace_first-keeps [] ks' k fp h = cc
  replace_first-keeps (j ∷ ks) ks' k fp h = elim (Bool-cases (is_for o.host o.port j)) [
    | inl here ↦ (j, ground arith, ground arith, ground arith)
    | inr other ↦ elim (Option-cases (replace_first o ks)) [
      | inl e ↦ ground arith
      | inr ((r, rest), e) ↦
          let (old, found, id, seen) = replace_first-keeps ks rest r fp e in
          (old, ground arith, ground arith, ground arith)
    ]
  ]

  replace_first-none :
      (ks : List HostKey) (fp : String)
      → replace_first o ks ≡ none
      → (check_host_key ks o.host o.port fp).1 ≡ unknown
  unfolding replace_first check_host_key
  replace_first-none [] fp h = refl
  replace_first-none (j ∷ ks) fp h = ground (arith, replace_first-none ks fp)

-- After a confirmed replacement the new fingerprint is the endpoint's only trusted one, whether it
-- had a key before or not, and no other endpoint's answer has changed. A key that was there keeps
-- its id and the time when it was first seen.
pub replace_host_key_in-trusts :
    (o : Offer) (d d' : VaultData) (k : HostKey)
    → replace_host_key_in o d ≡ ok (k, d')
    → ((fp : String)
        → status d' o.host o.port fp ≡ (if o.fingerprint == fp then trusted else mismatch))
      × ((host : String) (port : ℕ) (fp : String)
          → (host ≡ o.host → port ≢ o.port)
          → status d' host port fp ≡ status d host port fp)
      × ((status d o.host o.port o.fingerprint ≢ unknown)
          → (old : HostKey) × ((check_host_key d.host_keys o.host o.port o.fingerprint).0
              ≡ some old)
            × (k.id ≡ old.id)
            × (k.first_seen_at ≡ old.first_seen_at))
unfolding replace_host_key_in commit
replace_host_key_in-trusts o d d' k h = elim (Option-cases (replace_first o d.host_keys)) [
  | inl none_there ↦
      let free = replace_first-none o d.host_keys o.fingerprint none_there in
      let (_, same) = append-eq-ok o d d' k (ground arith) in
      (
        λ fp. rw same (appended_self o d fp free),
        λ host port fp ne. rw same (appended_other o d host port fp ne),
        λ known. absurd (known free),
      )
  | inr ((r, rest), e) ↦
      let same : d' ≡ record d { host_keys = rest } = ground arith in
      let new : k ≡ r = ground arith in
      let (self, others) = replace_first-found o d.host_keys rest r e in
      (
        λ fp. rw same (self fp),
        λ host port fp ne. rw same (others host port fp ne),
        λ _. rw new (replace_first-keeps o d.host_keys rest r o.fingerprint e),
      )
]
