-- ===== src/PoolEntry/Pool.antt =====
-- The table of shared connections of internal/forward/conn_pool.go. An entry stays where it is, at its
-- number, after its host was retired: leases of it are still given back.
use tunnel_board.Prelude.{
  pos, ℕ, ◌+◌, Bool, true, false, ◌==◌, nat_eq, text_eq, ◌&&◌, Option, none, some, List, [], ◌∷◌,
  if◌then◌else◌, ◌≡◌, ◌≢◌, refl, arith, Table, value_at, put, remove, value_at-remove, CaseMap,
  contains, inl, inr, Bool-cases, false≢true, ◌++◌, ap, ◌∙◌,
}
use tunnel_board.Model.{SshHost}
use tunnel_board.Catalog.Hosts.{ConnectionIdentity, ssh_connection_identity, same_identity}
use tunnel_board.PoolEntry.{PoolEntry, Shared, acquire, release, close_entry}

-- `SSHConnPool`: the entries by number, the table of the hosts' rows, and the clients that were closed
pub record SshConnPool : Type 0 where
  pub heap : Table PoolEntry
  pub entries : Table (List (ConnectionIdentity × ℕ))
  pub next_entry : ℕ
  pub next_generation : ℕ
  pub closed : List ℕ

abbrev pub new_entry : PoolEntry
new_entry = record { client = none; dead = false; refs = pos 0; generation = 0 }

abbrev pub entry_at : SshConnPool → ℕ → PoolEntry
entry_at p i = present (value_at i p.heap)
  where
    present : Option PoolEntry → PoolEntry
    present none = new_entry
    present (some e) = e

-- an operation on one entry, under its lock
abbrev pub on_entry : ℕ → (Shared → Shared) → SshConnPool → SshConnPool
on_entry i f p =
    let s : Shared =
      f (record { entry = entry_at p i; next_generation = p.next_generation; closed = p.closed }) in
    record p { heap = put i s.entry p.heap; next_generation = s.next_generation; closed = s.closed }

abbrev pub row_of : SshConnPool → ℕ → List (ConnectionIdentity × ℕ)
row_of p id = present (value_at id p.entries)
  where
    present : Option (List (ConnectionIdentity × ℕ)) → List (ConnectionIdentity × ℕ)
    present none = []
    present (some row) = row

abbrev pub find_entry : ConnectionIdentity → List (ConnectionIdentity × ℕ) → Option ℕ
find_entry k [] = none
find_entry k ((j, i) ∷ row) =
    let rest = find_entry k row in if same_identity j k then some i else rest

-- the part of `acquire` under the pool's lock: the entry's number
unfoldable pub pool_entry_for : ℕ → ConnectionIdentity → SshConnPool → SshConnPool × ℕ
pool_entry_for id k p = found (find_entry k (row_of p id))
  where
    found : Option ℕ → SshConnPool × ℕ
    found (some i) = (p, i)
    found none = (
      record p {
        heap = put p.next_entry new_entry p.heap;
        entries = put id ((k, p.next_entry) ∷ row_of p id) p.entries;
        next_entry = p.next_entry + 1;
      },
      p.next_entry,
    )

-- `acquire`, with what dialling gives if it comes to that: the entry's number and the client
unfoldable pub pool_acquire :
    ⦃m : CaseMap⦄ → Option ℕ → SshHost → SshConnPool → SshConnPool × ℕ × Option ℕ
pool_acquire dialled h p =
    let (q, i) = pool_entry_for h.id (ssh_connection_identity h) p in
    let s : Shared = record {
      entry = entry_at q i;
      next_generation = q.next_generation;
      closed = q.closed;
    } in
    (on_entry i (λ s. (acquire dialled s).0) q, i, (acquire dialled s).1)

-- the release of a lease
unfoldable pub pool_release : ℕ → ℕ → SshConnPool → SshConnPool
pool_release i client p = on_entry i (release client) p

-- `captureGenerationAbort`: what it captures, and what the function does that it gives
unfoldable pub capture_generation_abort :
    ⦃m : CaseMap⦄ → SshHost → SshConnPool → Option (ℕ × Option ℕ × ℕ)
capture_generation_abort h p = found (find_entry (ssh_connection_identity h) (row_of p h.id))
  where
    found : Option ℕ → Option (ℕ × Option ℕ × ℕ)
    found none = none
    found (some i) = some (i, (entry_at p i).client, (entry_at p i).generation)

abbrev same_client : Option ℕ → Option ℕ → Bool
same_client none none = true
same_client (some a) (some b) = a == b
same_client _ _ = false

unfoldable pub abort_generation : Option (ℕ × Option ℕ × ℕ) → SshConnPool → SshConnPool
abort_generation none p = p
abort_generation (some (i, c, g)) p = on_entry i aborted p
  where
    aborted : Shared → Shared
    aborted s = if same_client s.entry.client c && s.entry.generation == g then close_entry s else s

unfoldable pub close_each : List (ConnectionIdentity × ℕ) → SshConnPool → SshConnPool
close_each [] p = p
close_each ((k, i) ∷ row) p = close_each row (on_entry i close_entry p)

abbrev all_rows : Table (List (ConnectionIdentity × ℕ)) → List (ConnectionIdentity × ℕ)
all_rows [] = []
all_rows ((id, row) ∷ t) = row ++ all_rows t

-- `CloseAll`
unfoldable pub close_all : SshConnPool → SshConnPool
close_all p = close_each (all_rows p.entries) p

-- `RetireHost`
unfoldable pub retire_host : ℕ → SshConnPool → SshConnPool
retire_host id p = close_each (row_of p id) (record p { entries = remove id p.entries })

close_one :
    (j i : ℕ) (p : SshConnPool)
    → ((j == i) ≡ true → (entry_at (on_entry j close_entry p) i).dead ≡ true)
      × ((j == i) ≡ false → entry_at (on_entry j close_entry p) i ≡ entry_at p i)
      × ((entry_at p i).dead ≡ true → (entry_at (on_entry j close_entry p) i).dead ≡ true)
unfolding close_entry
close_one j i p =
    let r = value_at-remove i j p.heap in
    (λ h. ground (arith, r), λ h. ground (arith, r), λ h. ground (arith, r))

close_each-dead :
    (row : List (ConnectionIdentity × ℕ)) (i : ℕ) (p : SshConnPool)
    → (entry_at p i).dead ≡ true
    → (entry_at (close_each row p) i).dead ≡ true
unfolding close_each
close_each-dead [] i p h = h
close_each-dead ((k, j) ∷ row) i p h =
    close_each-dead row i (on_entry j close_entry p) ((close_one j i p).2 h)

-- the entries of a row, by number
abbrev pub entry_numbers : List (ConnectionIdentity × ℕ) → List ℕ
entry_numbers [] = []
entry_numbers ((k, i) ∷ row) = i ∷ entry_numbers row

-- what closing some entries does to each
close_each-entry :
    (row : List (ConnectionIdentity × ℕ)) (i : ℕ) (p : SshConnPool)
    → (contains i (entry_numbers row) ≡ true → (entry_at (close_each row p) i).dead ≡ true)
      × (contains i (entry_numbers row) ≡ false → entry_at (close_each row p) i ≡ entry_at p i)
unfolding close_each
close_each-entry [] i p = (λ h. absurd (false≢true h), λ h. refl)
close_each-entry ((k, j) ∷ row) i p =
    let q = on_entry j close_entry p in
    let (inside, outside) = close_each-entry row i q in
    let one = close_one j i p in
    elim (Bool-cases (j == i)) [
      | inl e ↦ (λ h. close_each-dead row i q (one.0 e), λ h. absurd (ground (arith, e)))
      | inr e ↦ (λ h. inside (ground (arith, e)), λ h. outside (ground (arith, e)) ∙ one.1 e)
    ]

close_each-entries :
    (row : List (ConnectionIdentity × ℕ)) (p : SshConnPool)
    → ((close_each row p).entries ≡ p.entries) × ((close_each row p).next_entry ≡ p.next_entry)
unfolding close_each
close_each-entries [] p = (refl, refl)
close_each-entries ((k, i) ∷ row) p = close_each-entries row (on_entry i close_entry p)

pool_entry_for-missing :
    (id : ℕ) (k : ConnectionIdentity) (p : SshConnPool)
    → value_at id p.entries ≡ none
    → (pool_entry_for id k p).1 ≡ p.next_entry
unfolding pool_entry_for
pool_entry_for-missing id k p e = ground arith

-- After a host was retired, each of its connections is dead and every other connection is as it was;
-- the rows of the other hosts are as they were; and whoever acquires a connection of the host gets a
-- new entry.
pub retire_host-retired :
    (id : ℕ) (k : ConnectionIdentity) (p : SshConnPool)
    → ((i : ℕ)
        → contains i (entry_numbers (row_of p id)) ≡ true
        → (entry_at (retire_host id p) i).dead ≡ true)
      × ((i : ℕ)
          → contains i (entry_numbers (row_of p id)) ≡ false
          → entry_at (retire_host id p) i ≡ entry_at p i)
      × ((other : ℕ)
          → other ≢ id
          → value_at other (retire_host id p).entries ≡ value_at other p.entries)
      × ((pool_entry_for id k (retire_host id p)).1 ≡ p.next_entry)
unfolding retire_host
retire_host-retired id k p =
    let q : SshConnPool = record p { entries = remove id p.entries } in
    let (same, next) = close_each-entries (row_of p id) q in
    (
      λ i h. (close_each-entry (row_of p id) i q).0 h,
      λ i h. (close_each-entry (row_of p id) i q).1 h,
      λ other ne.
          let r = value_at-remove other id p.entries in
          ap (value_at other) same ∙ ground (arith, r, ne, nat_eq.same_iff id other),
      pool_entry_for-missing id k (retire_host id p) (
            ap (value_at id) same
            ∙ (let r = value_at-remove id id p.entries in ground (arith, r, nat_eq.same_iff id id)))
          ∙ next,
    )
