-- ===== src/Tests/Catalog.antt =====
-- The catalog on the small vault.
use mathlib.Core.List.{mem-cons_self}
use tunnel_board.Prelude.{
  ℕ, ◌≡◌, ◌≢◌, refl, true, String, List, [], ◌∷◌, some, ◌==◌, nat_eq, text_eq, if◌then◌else◌,
  ascii_case, trim_space, is_space,
}
use tunnel_board.Result.{ok}
use tunnel_board.Model.{VaultData, HostKey, effective_upstream_host_mode}
use tunnel_board.Model.Validate.{
  validate, validate_unique_ids, check_unique, check_each, check_folder, check_forward, check_hop,
  check_route, check_route_on, check_upstream_host, forward_by_id,
}
use tunnel_board.Model.Trust.{unknown, trusted, mismatch, check_host_key}
use tunnel_board.Model.WellFormed.{IsWellFormed}
use tunnel_board.Catalog.{commit, next_id, max_from}
use tunnel_board.Catalog.Lists.{index_by, get_elem?}
use tunnel_board.Catalog.Operations.{
  Operation, creates_folder, deletes_route, moves_forwards, deletes_selection, perform_all,
}
use tunnel_board.Catalog.Operations.Healthy.{IsHealthy, perform_all-IsHealthy}
use tunnel_board.Catalog.Forwards.{move_forwards_in}
use tunnel_board.Catalog.Forwards.Moves.{is_at}
use tunnel_board.Catalog.Forwards.Outcome.{move_forwards_in-answer, move_answer, here, away}
use tunnel_board.Catalog.Delete.{
  Selection, plan_deletion, delete_selection_in, without, check_selected, expand_folders,
  expand_forwards, remaining_refs, check_unused,
}
use tunnel_board.Catalog.Delete.Valid.{delete_selection_in-commits}
use tunnel_board.Catalog.HostKeys.{
  Offer, new_host_key, append_host_key, enroll_host_key_in, replace_host_key_in, replace_first,
  renewed,
}
use tunnel_board.Catalog.HostKeys.Tofu.{
  status, enroll_host_key_in-trusts, replace_host_key_in-trusts,
}
use tunnel_board.Tests.Vault.{small, web, proxy, gate_key, small-IsWellFormed, in_memory}

abbrev small_healthy : IsHealthy in_memory small
small_healthy = record { content = small; loads = refl; is_well_formed = small-IsWellFormed }

abbrev cascade : Selection
cascade = record {
  folder_ids = 1 ∷ [];
  ssh_host_ids = 1 ∷ [];
  forward_ids = [];
  cascade_folders = true;
}

abbrev history : List Operation
history =
    creates_folder " Home " 0
    ∷ moves_forwards (2 ∷ []) 1
    ∷ deletes_route 1
    ∷ deletes_selection cascade
    ∷ []

perform_all-IsHealthy_example :
    IsHealthy in_memory (perform_all ⦃m = ascii_case⦄ in_memory history small)
perform_all-IsHealthy_example =
    perform_all-IsHealthy ⦃m = ascii_case⦄ in_memory history small small_healthy

move_forwards_in-answer_example :
    move_forwards_in (2 ∷ 1 ∷ []) 1 small
    ≡ move_answer small 1 (here small 1 (2 ∷ 1 ∷ [])) (away small 1 (2 ∷ 1 ∷ []))
move_forwards_in-answer_example =
    move_forwards_in-answer small 1 (2 ∷ 1 ∷ []) small-IsWellFormed mem-cons_self (refl, (refl, tt))

-- what that answer is
moved_test :
    move_answer small 1 (here small 1 (2 ∷ 1 ∷ [])) (away small 1 (2 ∷ 1 ∷ []))
    ≡ ok (
      record { changed_ids = 2 ∷ []; unchanged_ids = 1 ∷ [] },
      record small { forwards = web ∷ record proxy { folder_id = 1 } ∷ [] },
    )
unfolding is_at index_by get_elem?
moved_test = refl

planned_test : plan_deletion cascade small ≡ ok (2 ∷ 1 ∷ [], 2 ∷ 1 ∷ [])
unfolding plan_deletion check_each check_selected expand_folders expand_forwards remaining_refs
    check_unused index_by
planned_test = refl

delete_selection_in-commits_example :
    (delete_selection_in cascade small ≡ ok (tt, without small (2 ∷ 1 ∷ []) (2 ∷ 1 ∷ []) (1 ∷ [])))
    × IsWellFormed (without small (2 ∷ 1 ∷ []) (2 ∷ 1 ∷ []) (1 ∷ []))
delete_selection_in-commits_example =
    delete_selection_in-commits cascade small (2 ∷ 1 ∷ []) (2 ∷ 1 ∷ []) small-IsWellFormed
      planned_test

abbrev offer : Offer
offer = record {
  host = "db.example.org";
  port = 22;
  key_type = "ssh-rsa";
  fingerprint = "SHA256:two";
  now = 200;
}

abbrev offered : HostKey
offered = record {
  id = 2;
  host = "db.example.org";
  port = 22;
  key_type = "ssh-rsa";
  fingerprint_sha256 = "SHA256:two";
  first_seen_at = 200;
  last_seen_at = 200;
}

abbrev with_offered : VaultData
with_offered = record small { host_keys = gate_key ∷ offered ∷ [] }

enrolled_test : enroll_host_key_in offer small ≡ ok (offered, with_offered)
unfolding enroll_host_key_in check_host_key append_host_key new_host_key next_id max_from commit
    validate validate_unique_ids check_unique check_each check_folder check_forward check_hop
    check_route check_route_on check_upstream_host forward_by_id effective_upstream_host_mode
    trim_space is_space
enrolled_test = refl

enroll_host_key_in-trusts_example :
    (status small "db.example.org" 22 "SHA256:two" ≡ unknown)
    × ((fp : String)
        → status with_offered "db.example.org" 22 fp
          ≡ (if "SHA256:two" == fp then trusted else mismatch))
    × ((host : String) (port : ℕ) (fp : String)
        → (host ≡ "db.example.org" → port ≢ 22)
        → status with_offered host port fp ≡ status small host port fp)
enroll_host_key_in-trusts_example =
    enroll_host_key_in-trusts offer small with_offered offered enrolled_test

abbrev new_offer : Offer
new_offer = record offer { host = "gate.example.org" }

abbrev renewed_key : HostKey
renewed_key = record gate_key {
  key_type = "ssh-rsa";
  fingerprint_sha256 = "SHA256:two";
  last_seen_at = 200;
}

replaced_test :
    replace_host_key_in new_offer small
    ≡ ok (renewed_key, record small { host_keys = renewed_key ∷ [] })
unfolding replace_host_key_in replace_first renewed append_host_key commit validate
    validate_unique_ids check_unique check_each check_folder check_forward check_hop check_route
    check_route_on check_upstream_host forward_by_id effective_upstream_host_mode trim_space
    is_space
replaced_test = refl

replace_host_key_in-trusts_example :
    ((fp : String)
      → status (record small { host_keys = renewed_key ∷ [] }) "gate.example.org" 22 fp
        ≡ (if "SHA256:two" == fp then trusted else mismatch))
    × ((host : String) (port : ℕ) (fp : String)
        → (host ≡ "gate.example.org" → port ≢ 22)
        → status (record small { host_keys = renewed_key ∷ [] }) host port fp
          ≡ status small host port fp)
    × ((status small "gate.example.org" 22 "SHA256:two" ≢ unknown)
        → (old : HostKey) × ((check_host_key small.host_keys "gate.example.org" 22 "SHA256:two").0
            ≡ some old)
          × (renewed_key.id ≡ old.id)
          × (renewed_key.first_seen_at ≡ old.first_seen_at))
replace_host_key_in-trusts_example =
    replace_host_key_in-trusts new_offer small (record small { host_keys = renewed_key ∷ [] })
      renewed_key replaced_test
