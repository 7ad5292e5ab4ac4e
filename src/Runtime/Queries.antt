-- ===== src/Runtime/Queries.antt =====
-- What internal/biz/runtime.go answers about the forwards, and `Resume`.
use tunnel_board.Prelude.{
  ℕ, String, Bool, true, false, not, ◌==◌, nat_eq, text_eq, ◌&&◌, Option, none, some, List, [], ◌∷◌,
  map, ltb, Table, value_at, put_under, if◌then◌else◌, contains, trim_space, ◌⊎◌, inl, inr,
}
use tunnel_board.Result.{Result, ok, err}
use tunnel_board.Model.{VaultData, Forward, SshHost}
use tunnel_board.Runtime.{
  Failure, caller_gone, forward_not_found, host_not_found, vault_failed, Runtime, RunEntry,
  RuntimeStatus, starting, active, stopping, stopped, plain_status,
}
use tunnel_board.Catalog.Forwards.{host_by_id}
use tunnel_board.Runtime.Starting.{StartWorld, start}
use tunnel_board.Runtime.Stopping.{SuspendedForward, is_stopping}

-- `Status`
unfoldable pub status_of : Runtime → ℕ → Option RuntimeStatus
status_of r id = value_at id r.states

-- one entry of `Snapshot`
unfoldable pub shown : Runtime → ℕ → RuntimeStatus
shown r id = default (status_of r id)
  where
    default : Option RuntimeStatus → RuntimeStatus
    default none = plain_status id stopped none
    default (some s) = s

-- `Snapshot`
unfoldable pub snapshot : Result VaultData → Runtime → Result (List RuntimeStatus)
snapshot (err e) r = err e
snapshot (ok d) r = ok (map (λ (fw : Forward). shown r fw.id) d.forwards)

abbrev pub is_active : RunEntry → Bool
is_active e = elim e.phase [ starting ↦ false | active ↦ true | stopping ↦ false ]

abbrev has_run : Option ℕ → Bool
has_run none = false
has_run (some h) = true

-- `LocalListenerOwner`, over the entries in the order in which the map gives them
module _ (join_host_port : String → ℕ → String) where
  unfoldable pub local_listener_owner : String → ℕ → Runtime → Option ℕ
  local_listener_owner host port r =
      owner (join_host_port (if trim_space host == "" then "127.0.0.1" else trim_space host) port)
        r.runs
    where
      owner : String → Table RunEntry → Option ℕ
      owner want [] = none
      owner want ((id, e) ∷ t) =
          let rest = owner want t in
          if is_active e && has_run e.run && e.listener_address == want then some id else rest

pub record AffectedForward : Type 0 where
  pub forward_id : ℕ
  pub running_generation : ℕ

abbrev generation_of : Option RunEntry → ℕ
generation_of none = 0
generation_of (some e) = if not (is_stopping e) then e.generation else 0

abbrev insert_affected : AffectedForward → List AffectedForward → List AffectedForward
insert_affected x [] = x ∷ []
insert_affected x (y ∷ ys) =
    let rest = insert_affected x ys in
    if ltb y.forward_id x.forward_id then y ∷ rest else x ∷ y ∷ ys

-- `AffectedForHost`: a vault that cannot be read affects nothing
unfoldable pub affected_for_host : Result VaultData → ℕ → Runtime → List AffectedForward
affected_for_host (err e) host r = []
affected_for_host (ok d) host r = affected d.forwards
  where
    affected : List Forward → List AffectedForward
    affected [] = []
    affected (fw ∷ fws) =
        let rest = affected fws in
        if contains host fw.chain_host_ids
        then insert_affected
            (record {
              forward_id = fw.id;
              running_generation = generation_of (value_at fw.id r.runs);
            })
            rest
        else rest

-- the chain that `PreflightHostChange` tries: each id's host, the proposed one in its place
unfoldable pub proposed_chain : List SshHost → SshHost → List ℕ → Failure ⊎ List SshHost
proposed_chain hosts proposed [] = inr []
proposed_chain hosts proposed (id ∷ ids) =
    joined (host_by_id hosts id) (proposed_chain hosts proposed ids)
  where
    joined : Option SshHost → Failure ⊎ List SshHost → Failure ⊎ List SshHost
    joined none rest = inl (host_not_found id)
    joined (some h) (inl e) = inl e
    joined (some h) (inr chain) = inr ((if id == proposed.id then proposed else h) ∷ chain)

-- `forwardsByID`, filled in the vault's order
abbrev last_forward_by_id : List Forward → ℕ → Option Forward
last_forward_by_id [] id = none
last_forward_by_id (fw ∷ fws) id = or_this (last_forward_by_id fws id)
  where
    or_this : Option Forward → Option Forward
    or_this none = if fw.id == id then some fw else none
    or_this (some later) = some later

-- `PreflightHostChange`: the errors by forward, under 0 for the host alone. The preflight of a chain
-- is given from outside, and so is whether the caller has gone before a forward.
unfoldable pub preflight_host_change :
    (List SshHost → Option Failure)
    → (ℕ → Bool)
    → Result VaultData
    → SshHost
    → List AffectedForward
    → Table Failure
preflight_host_change preflight gone (err e) proposed affected = (0, vault_failed e) ∷ []
preflight_host_change preflight gone (ok d) proposed [] = noted (preflight (proposed ∷ []))
  where
    noted : Option Failure → Table Failure
    noted none = []
    noted (some e) = (0, e) ∷ []
preflight_host_change preflight gone (ok d) proposed (a ∷ rest) = each (a ∷ rest)
  where
    noted : ℕ → Option Failure → Table Failure → Table Failure
    noted id none rest = rest
    noted id (some e) rest = put_under id e rest

    chain_failure : Failure ⊎ List SshHost → Option Failure
    chain_failure (inl e) = some e
    chain_failure (inr chain) = preflight chain

    failure : Option Forward → ℕ → Option Failure
    failure none id = some (forward_not_found id)
    failure (some fw) id = chain_failure (proposed_chain d.ssh_hosts proposed fw.chain_host_ids)

    each : List AffectedForward → Table Failure
    each [] = []
    each (a ∷ others) =
        let rest = each others in
        noted a.forward_id
          (if gone a.forward_id
            then some caller_gone
            else failure (last_forward_by_id d.forwards a.forward_id) a.forward_id)
          rest

-- `Resume`: whether the caller has gone is asked before each start
unfoldable pub resume :
    (ℕ → Bool)
    → (ℕ → StartWorld)
    → List SuspendedForward
    → Runtime
    → Runtime × List ℕ × Table Failure
resume gone worlds [] r = (r, [], [])
resume gone worlds (x ∷ xs) r =
    let (r₁, e) = tried (gone x.forward_id) in
    let (r₂, begun, errors) = resume gone worlds xs r₁ in
    (r₂, begun_with e begun, errors_with e errors)
  where
    tried : Bool → Runtime × Option Failure
    tried true = (r, some caller_gone)
    tried false = start (worlds x.forward_id) x.forward_id r

    begun_with : Option Failure → List ℕ → List ℕ
    begun_with none ids = x.forward_id ∷ ids
    begun_with (some e) ids = ids

    errors_with : Option Failure → Table Failure → Table Failure
    errors_with none errors = errors
    errors_with (some e) errors = put_under x.forward_id e errors
