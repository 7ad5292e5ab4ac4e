-- ===== src/Lib.antt =====
-- TunnelBoard: a verification library of the desktop program's core (Go, directory internal/).
--
-- The program keeps its data in one encrypted file, the vault. Every other part reads the data through
-- `Load` and changes them through `Update`, which hands them to a mutation and writes the result if
-- the mutation accepts. The catalog is the part that changes folders, SSH hosts, forwards, web routes
-- and host keys; each of its mutations ends in `VaultData.Validate`. From the data, the route package
-- plans entries for the system's hosts file and a configuration for Caddy. A privileged helper
-- writes the entries into a managed block of the hosts file. The application layer remembers recent
-- commands by their ids. A backup is staged and then replaces the vault in a journaled transaction;
-- the runtime starts and stops forwards; the log store keeps the last lines of each log.
--
-- Files and sources:
-- - Prelude and its children: equality tests, lists, texts; `is_space` and `trim_space` are Go's
--   `unicode.IsSpace` and `strings.TrimSpace`. `CaseMap` stands for the table of `unicode.ToLower`.
-- - Result: the sentinel and plain errors of internal/model/validate.go and internal/biz/catalog.go.
-- - Model, Model/Validate, Model/Trust: internal/model/vault.go, validate.go and trust.go.
--   Model/WellFormed says without loops what `Validate` checks.
-- - VaultStore: the interface of internal/biz/catalog.go, as a record of `load` and `update` with laws.
-- - Vault: its implementation in internal/vault/vault.go. AES-GCM, JSON and random bytes are the
--   parameter `Codec`; which write of the system fails is data of the state, and a state whose list
--   of attempts is used up fails to save. `vault_file` in Vault/Store fills the interface.
-- - Catalog and its children: internal/biz/catalog.go and internal/biz/trust.go. An operation
--   `save_forward` is the mutation `save_forward_in` (the closure) under `run` (the call of
--   `Update`). Catalog/Operations runs any sequence of them.
-- - Route/Hosts, Route/Caddy: internal/route and internal/loopbackhttps, up to the JSON text. Go's
--   `sort` is the interface `Sorting`.
-- - Helper/HostsFile, Helper/Disk, Helper/Transaction, Helper/Protocol: internal/helper/hostsfile.go
--   and protocol.go. Which call of the system fails, and what another program does to the file
--   between two reads, are arguments. SHA-256 of the entries is the parameter `digest`.
-- - CommandCache: internal/application/idempotency.go. The linked list is a list, the map from ids to
--   its elements is a search; times, digests and results are values.
-- - PoolEntry: one shared connection of internal/forward/conn_pool.go under its lock: acquire, release,
--   the marking of a dead generation and the closing of an entry. The result of dialling is an
--   argument; `closed` lists the clients that were closed. The reference count is an integer.
-- - Backup/Package, Backup/Restore: internal/biz/backup_package.go and backup_restore.go. The answers of
--   the effects are a function of all calls made before, so they may fail at any place; the calls are
--   recorded, the latest first. The stages of `CommitRestore` are functions in Backup/Restore/Commit.
-- - Backup/Limits: internal/vault/backup_limits.go. The tokens of the JSON decoder are a list.
-- - Runtime and its children: internal/biz/runtime.go. Each part of a method that holds the lock is
--   one function; Runtime/Steps lets them follow each other in any order and about any forward,
--   generation and run, which covers every schedule of the goroutines. The whole methods take what the
--   others do between their parts as an argument.
-- - Logs: internal/diag/logstore.go. A channel is the list of its commands; the writer's loop is `run_one`
--   turn by turn. The loop ignores the errors of `writeLine`, so the queue records the calls of it and
--   Logs/Rotation what a call does to the files. Logs/Rotation has the files, Logs/Tail the reader. Answers of the file system are
--   arguments.
-- - PoolEntry/Pool: the table of the pool. An entry is found by its number, so that it lives on after
--   its host was retired.
-- - SshConfig and its children: internal/sshconfig/import.go. SshConfig/Parse reads the files, SshConfig
--   resolves an alias, SshConfig/Candidates composes them. The operating system and
--   `path/filepath` are `ConfigFiles`, `path.Match` and `strconv.Atoi` are `GoText`.
-- - Tests: a small vault, runs of the definitions, and the theorems at concrete inputs.
--
-- Conventions. Ids, ports and times are natural numbers; ids are given from 1. A credential revision
-- wraps at 2^64, and so does the runtime's generation counter. Texts are sequences of characters. Loops
-- are structural recursion; only `parse_file` takes fuel, which is how deep includes may nest. A file is
-- parsed once, so one level more than there are files is enough. An error carries the id that its
-- message names, not the message. An id is below 2^63 - 1 and a connection has fewer than 2^63 leases, so
-- that `nextID` and the reference count do not wrap; intervals of an SSH configuration do wrap, as does
-- the generation of a connection and of a log, and the integers of Go's `int` are in Prelude/Integers.
--
-- Not modelled: the dialling of chains and the forwards of internal/forward, the router, the table of log
-- sources and the redaction of lines, the application service, the
-- updater, the platform parts, and the user interface: they are planned, or input and output. Locks
-- are not modelled either: what a lock holds together is one step.
pub mod Prelude
pub mod Result
pub mod Model
pub mod VaultStore
pub mod Vault
pub mod Catalog
pub mod Route
pub mod Helper
pub mod CommandCache
pub mod PoolEntry
pub mod Backup
pub mod Runtime
pub mod Logs
pub mod SshConfig
pub mod Tests
