-- ===== src/Catalog/Forwards.antt =====
-- `SaveForward`, `MoveForwards`, `MoveForward`, `ResolveChain`
pub mod Moves
pub mod Outcome
use tunnel_board.Prelude.{
  ℕ, String, Bool, not, ◌==◌, nat_eq, List, [], ◌∷◌, ◌++◌, map, Option, none, some, length, ltb,
  contains, if◌then◌else◌, trim_space,
}
use tunnel_board.Result.{
  Result, ok, err, ◌>>=◌, ◌>>◌, guard, not_found, forward, ref_missing, no_forwards,
  too_many_forwards, forward_duplicated, no_change,
}
use tunnel_board.Model.{Forward, SshHost, VaultData}
use tunnel_board.Model.Validate.{forward_ids, folder_ids, check_unique}
use tunnel_board.VaultStore.{VaultStore}
use tunnel_board.Catalog.{next_id, commit, run}
use tunnel_board.Catalog.Lists.{index_forward, index_folder, set, get_elem?}

unfoldable pub normalize_forward : Forward → Forward
normalize_forward fw = record fw { name = trim_space fw.name }

-- the closure of `SaveForward`
unfoldable pub save_forward_in : Forward → VaultData → Result (Forward × VaultData)
unfolding commit
save_forward_in fw d =
    if fw.id == 0
    then (let created = record fw { id = next_id (forward_ids d) } in
        commit created (record d { forwards = d.forwards ++ created ∷ [] }))
    else elim (index_forward d.forwards fw.id) [
      | none ↦ err (not_found forward fw.id)
      | some i ↦ commit fw (record d { forwards = set d.forwards i fw })
    ]

unfoldable pub save_forward : (v : VaultStore) → Forward → v.State → v.State × Result Forward
unfolding normalize_forward save_forward_in run
save_forward v fw s = run v (save_forward_in (normalize_forward fw)) s

abbrev pub max_move_forwards_batch : ℕ
max_move_forwards_batch = 5000

pub record MoveForwardsReport : Type 0 where
  pub changed_ids : List ℕ
  pub unchanged_ids : List ℕ

-- The first loop of the closure: what each id is, and the positions that are to change.
pub record Survey : Type 0 where
  pub report : MoveForwardsReport
  pub indexes : List ℕ

abbrev pub empty_survey : Survey
empty_survey = record { report = record { changed_ids = []; unchanged_ids = [] }; indexes = [] }

unfoldable pub note : ℕ → ℕ → ℕ → Forward → Survey → Survey
note target id i fw v =
    if fw.folder_id == target
    then record v { report = record v.report { unchanged_ids = v.report.unchanged_ids ++ id ∷ [] } }
    else record {
      report = record v.report { changed_ids = v.report.changed_ids ++ id ∷ [] };
      indexes = v.indexes ++ i ∷ [];
    }

unfoldable pub survey : List Forward → ℕ → List ℕ → Survey → Result Survey
survey fws target [] v = ok v
survey fws target (id ∷ ids) v = elim (index_forward fws id) [
  | none ↦ err (not_found forward id)
  | some i ↦ elim (get_elem? fws i) [
    | none ↦ err (not_found forward id)
    | some fw ↦ survey fws target ids (note target id i fw v)
  ]
]

-- `d.Forwards[idx].FolderID = targetFolderID`
unfoldable pub relocate : ℕ → List Forward → ℕ → List Forward
relocate target fws i = elim (get_elem? fws i) [
  | none ↦ fws
  | some fw ↦ set fws i (record fw { folder_id = target })
]

-- the second loop
unfoldable pub relocate_all : ℕ → List ℕ → List Forward → List Forward
unfolding relocate
relocate_all target [] fws = fws
relocate_all target (i ∷ is) fws = relocate_all target is (relocate target fws i)

abbrev pub is_known_folder : VaultData → ℕ → Result (Unit {0})
is_known_folder d id = elim (index_folder d.folders id) [
  | none ↦ err (ref_missing id)
  | some i ↦ ok tt
]

abbrev pub move_or_stop : ℕ → VaultData → Survey → List ℕ → Result (MoveForwardsReport × VaultData)
move_or_stop target d v [] = err (no_change v.report.unchanged_ids)
move_or_stop target d v (i ∷ is) =
    commit v.report (record d { forwards = relocate_all target (i ∷ is) d.forwards })

-- the closure of `MoveForwardsWithData`
unfoldable pub move_forwards_in : List ℕ → ℕ → VaultData → Result (MoveForwardsReport × VaultData)
unfolding survey note relocate_all commit
move_forwards_in ids target d = do
  is_known_folder d target
  v ← survey d.forwards target ids empty_survey
  move_or_stop target d v v.indexes

-- the checks before `Update`
unfoldable pub check_batch : List ℕ → Result (Unit {0})
unfolding check_unique
check_batch ids = do
  guard (not (length ids == 0)) no_forwards
  guard (not (ltb max_move_forwards_batch (length ids))) too_many_forwards
  check_unique forward_duplicated [] ids

-- A batch that changes nothing is not written, and is no failure.
abbrev pub report_of : Result MoveForwardsReport → Result MoveForwardsReport
report_of (err (no_change ids)) = ok (record { changed_ids = []; unchanged_ids = ids })
report_of r = r

abbrev pub move_checked :
    Result (Unit {0})
    → (v : VaultStore) → List ℕ
    → ℕ
    → v.State
    → v.State × Result MoveForwardsReport
move_checked (err e) v ids target s = (s, err e)
move_checked (ok _) v ids target s =
    let (s', r) = run v (move_forwards_in ids target) s in (s', report_of r)

unfoldable pub move_forwards :
    (v : VaultStore) → List ℕ → ℕ → v.State → v.State × Result MoveForwardsReport
unfolding check_batch move_forwards_in run
move_forwards v ids target s = move_checked (check_batch ids) v ids target s

abbrev pub unit_of : {A : Type 0} → Result A → Result (Unit {0})
unit_of (ok a) = ok tt
unit_of (err e) = err e

unfoldable pub move_forward : (v : VaultStore) → ℕ → ℕ → v.State → v.State × Result (Unit {0})
unfolding move_forwards
move_forward v id target s = let (s', r) = move_forwards v (id ∷ []) target s in (s', unit_of r)

-- the map `byID` of `ResolveChain`: a later host overwrites
unfoldable pub host_by_id : List SshHost → ℕ → Option SshHost
host_by_id [] id = none
host_by_id (h ∷ hs) id = elim (host_by_id hs id) [
  | some later ↦ some later
  | none ↦ if h.id == id then some h else none
]

unfoldable pub resolve_hops : List SshHost → List ℕ → Result (List SshHost)
unfolding host_by_id
resolve_hops hosts [] = ok []
resolve_hops hosts (id ∷ ids) = elim (host_by_id hosts id) [
  | none ↦ err (ref_missing id)
  | some h ↦ do rest ← resolve_hops hosts ids; ok (h ∷ rest)
]

unfoldable pub resolve_chain : (v : VaultStore) → Forward → v.State → Result (List SshHost)
unfolding resolve_hops
resolve_chain v fw s = do d ← v.load s; resolve_hops d.ssh_hosts fw.chain_host_ids
