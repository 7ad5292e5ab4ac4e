-- ===== src/Helper/Protocol.antt =====
-- internal/helper/protocol.go: the requests that the privileged helper takes, and what it does.
pub mod Requests
pub mod Answers
use tunnel_board.Prelude.{
  ℕ, String, Char, code, Bool, true, false, ◌&&◌, ◌||◌, not, ltb, ◌==◌, nat_eq, text_eq, contains,
  List, [], ◌∷◌, length, len, if◌then◌else◌, is_space, is_control, CaseMap, to_lower,
}
use tunnel_board.Route.Hosts.{HostEntry, loopback_ip}
use tunnel_board.Helper.Disk.{Disk, Faults, Outcome, done, write_managed_hosts}
use tunnel_board.Helper.Transaction.{
  Steps, Committed, committed, conflict, failed, write_transaction,
}

abbrev pub op_ping : String
op_ping = "ping"

abbrev pub op_apply_managed_hosts : String
op_apply_managed_hosts = "apply_managed_hosts"

abbrev pub op_remove_managed_hosts : String
op_remove_managed_hosts = "remove_managed_hosts"

abbrev pub max_host_entries : ℕ
max_host_entries = 256

abbrev pub max_domain_len : ℕ
max_domain_len = 253

pub record Request : Type 0 where
  pub op : String
  pub hosts : List HostEntry
  pub transaction_id : String
  pub expected_managed_digest : String

pub data Reason : Type 0 where
  unknown_op too_many_entries empty_domain long_domain no_dot space_or_control : Reason
  not_loopback duplicate_domain bad_transaction_id bad_digest : Reason

-- the answer of a check
pub data Check : Type 0 where
  accepted : Check
  refuses : Reason → Check

-- the first check that refuses
infixl 5 ◌then◌
abbrev pub ◌then◌ : Check → Check → Check
accepted then r = r
refuses reason then r = refuses reason

abbrev pub refuse_if : Bool → Reason → Check
refuse_if true r = refuses r
refuse_if false r = accepted

-- `strings.Contains(domain, ".")`
unfoldable pub has_dot : String → Bool
has_dot String.[] = false
has_dot (String.◌∷◌ c s) = code c == 46 || has_dot s

unfoldable pub has_space_or_control : String → Bool
has_space_or_control String.[] = false
has_space_or_control (String.◌∷◌ c s) = (is_space c || is_control c) || has_space_or_control s

unfoldable pub validate_domain : String → Check
validate_domain domain =
    refuse_if (domain == "") empty_domain
    then refuse_if (ltb max_domain_len (len domain)) long_domain
    then refuse_if (not (has_dot domain)) no_dot
    then refuse_if (has_space_or_control domain) space_or_control

-- the loop of `validateHostEntries`, with the lower-case domains seen
unfoldable pub check_entries : ⦃m : CaseMap⦄ → List String → List HostEntry → Check
unfolding validate_domain
check_entries seen [] = accepted
check_entries seen (e ∷ es) =
    validate_domain e.domain
    then refuse_if (not (e.ip == loopback_ip)) not_loopback
    then refuse_if (contains (to_lower e.domain) seen) duplicate_domain
    then check_entries (to_lower e.domain ∷ seen) es

unfoldable pub validate_host_entries : ⦃m : CaseMap⦄ → List HostEntry → Check
unfolding check_entries
validate_host_entries entries =
    refuse_if (ltb max_host_entries (length entries)) too_many_entries then check_entries [] entries

abbrev is_lower_hex_digit : Char → Bool
is_lower_hex_digit c =
    not ((ltb (code c) 48 || ltb 57 (code c)) && (ltb (code c) 97 || ltb 102 (code c)))

abbrev all_lower_hex : String → Bool
all_lower_hex String.[] = true
all_lower_hex (String.◌∷◌ c s) = is_lower_hex_digit c && all_lower_hex s

unfoldable pub is_lower_hex : String → ℕ → Bool
is_lower_hex value size = len value == size && all_lower_hex value

unfoldable pub validate_request : ⦃m : CaseMap⦄ → Request → Check
unfolding validate_host_entries is_lower_hex
validate_request q =
    if q.op == op_ping || q.op == op_remove_managed_hosts
    then accepted
    else if q.op == op_apply_managed_hosts
    then validate_host_entries q.hosts
    then refuse_if (not (q.transaction_id == "") && not (is_lower_hex q.transaction_id 32))
        bad_transaction_id
    then refuse_if
        (not (q.expected_managed_digest == "") && not (is_lower_hex q.expected_managed_digest 64))
        bad_digest
    else refuses unknown_op

-- what an answer tells; the texts of errors are left out
pub data Response : Type 0 where
  pong : String → Response
  applied : Response
  committed_as : String → Response
  refused : Reason → Response
  write_failed : Outcome → Response
  conflicts : String → Response
  transaction_failed : Response

-- the helper's surroundings: its version, SHA-256, what fails, and what another program makes of the
-- hosts file while a transaction runs
pub record Surroundings : Type 0 where
  pub version : String
  pub digest : List HostEntry → String
  pub faults : Faults
  pub steps : Steps
  pub meanwhile : Disk → Disk

abbrev done_or_fail : Disk × Outcome → Disk × Response
done_or_fail (d, done) = (d, applied)
done_or_fail (d, o) = (d, write_failed o)

abbrev response_of : Committed → Response
response_of (committed digest) = committed_as digest
response_of (conflict digest) = conflicts digest
response_of failed = transaction_failed

module _ (w : Surroundings) where
  unfoldable pub transact : Request → Disk → Disk × Response
  unfolding write_transaction
  transact q d =
      let latest = w.meanwhile d in
      let (hosts, c) =
        write_transaction w.digest w.steps q.hosts q.expected_managed_digest d.hosts latest.hosts in
      (record latest { hosts = hosts }, response_of c)

  unfoldable pub dispatch : Request → Disk → Disk × Response
  unfolding transact write_managed_hosts
  dispatch q d =
      if q.op == op_ping
      then (d, pong w.version)
      else if q.op == op_apply_managed_hosts
      then (if not (q.transaction_id == "")
          then transact q d
          else done_or_fail (write_managed_hosts w.faults q.hosts d))
      else if q.op == op_remove_managed_hosts
      then done_or_fail (write_managed_hosts w.faults [] d)
      else (d, refused unknown_op)

  abbrev dispatch_if : Check → Request → Disk → Disk × Response
  dispatch_if accepted q d = dispatch q d
  dispatch_if (refuses r) q d = (d, refused r)

  unfoldable pub handle_request : ⦃m : CaseMap⦄ → Request → Disk → Disk × Response
  unfolding validate_request dispatch
  handle_request q d = dispatch_if (validate_request q) q d
