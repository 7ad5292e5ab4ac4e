-- ===== src/Tests/Pool.antt =====
-- A shared connection with two leases, and a pool of two hosts.
use tunnel_board.Prelude.{
  pos, refl, true, false, [], ◌∷◌, some, ℕ, ◌≡◌, ◌≢◌, contains, nat_eq, value_at,
}
use tunnel_board.Catalog.Hosts.{ConnectionIdentity}
use tunnel_board.PoolEntry.{Shared, close_entry}
use tunnel_board.PoolEntry.Pool.{
  SshConnPool, entry_at, row_of, entry_numbers, retire_host, close_each, pool_entry_for,
  retire_host-retired,
}
use tunnel_board.PoolEntry.Leases.{Counted, releases, after, after-Counted}

abbrev twice : Shared
twice = record {
  entry = record { client = some 7; dead = false; refs = pos 2; generation = 3 };
  next_generation = 3;
  closed = 5 ∷ [];
}

after-Counted_example :
    Counted
      (after (releases 7) (twice, 7 ∷ 5 ∷ 7 ∷ [])).0
      (after (releases 7) (twice, 7 ∷ 5 ∷ 7 ∷ [])).1
after-Counted_example = after-Counted (releases 7) twice (7 ∷ 5 ∷ 7 ∷ []) (1, refl) refl

abbrev identity : ConnectionIdentity
identity = record {
  host = "10.0.0.1";
  port = 22;
  user = "ops";
  auth_type = "ssh_key";
  key_path = "";
  agent_socket_path = "";
  keep_alive_interval = 5000;
  timeout = 5000;
  host_key_algorithms = "";
  credential_revision = 1;
}

abbrev pool : SshConnPool
pool = record {
  heap = (0, twice.entry) ∷ (1, twice.entry) ∷ [];
  entries = (4, (identity, 0) ∷ []) ∷ (9, (identity, 1) ∷ []) ∷ [];
  next_entry = 2;
  next_generation = 3;
  closed = [];
}

retired :
    ((entry_at (retire_host 4 pool) 0).dead ≡ true)
    × ((entry_at (retire_host 4 pool) 1).dead ≡ false)
    × ((retire_host 4 pool).closed ≡ 7 ∷ [])
unfolding retire_host close_each close_entry
retired = (refl, refl, refl)

retire_host-retired_example :
    ((i : ℕ)
      → contains i (entry_numbers (row_of pool 4)) ≡ true
      → (entry_at (retire_host 4 pool) i).dead ≡ true)
    × ((i : ℕ)
        → contains i (entry_numbers (row_of pool 4)) ≡ false
        → entry_at (retire_host 4 pool) i ≡ entry_at pool i)
    × ((other : ℕ)
        → other ≢ 4
        → value_at other (retire_host 4 pool).entries ≡ value_at other pool.entries)
    × ((pool_entry_for 4 identity (retire_host 4 pool)).1 ≡ pool.next_entry)
retire_host-retired_example = retire_host-retired 4 identity pool
