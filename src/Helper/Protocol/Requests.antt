-- ===== src/Helper/Protocol/Requests.antt =====
-- What the helper's checks establish, and what its answers promise (internal/helper/protocol.go).
use tunnel_board.Prelude.{
  String, ◌≡◌, refl, Bool, true, false, not, ltb, ◌==◌, nat_eq, text_eq, contains, has_duplicate,
  List, [], ◌∷◌, All, length, ◌≤◌, if◌then◌else◌, is_space, CaseMap, to_lower, arith, eq_iff,
}
use tunnel_board.Route.Hosts.{HostEntry, loopback_ip}
use tunnel_board.Helper.HostsFile.Fields.{IsEntry, IsWord, no_space}
use tunnel_board.Helper.Protocol.{
  max_host_entries, Check, accepted, refuses, Reason, ◌then◌, refuse_if, has_space_or_control,
  validate_domain, check_entries, validate_host_entries, Response, pong, applied, committed_as,
  not_loopback, duplicate_domain, too_many_entries,
}

pub then-accepted : (a b : Check) → (a then b) ≡ accepted → (a ≡ accepted) × (b ≡ accepted)
then-accepted accepted b h = (refl, h)
then-accepted (refuses r) b h = cc

refuse_if-accepted : (b : Bool) (r : Reason) → refuse_if b r ≡ accepted → b ≡ false
refuse_if-accepted true r h = cc
refuse_if-accepted false r h = refl

no_space-of_checked : (s : String) → has_space_or_control s ≡ false → no_space s ≡ true
unfolding has_space_or_control
no_space-of_checked String.[] h = refl
no_space-of_checked (String.◌∷◌ c s) h = ground (arith, no_space-of_checked s)

domain-IsWord : (s : String) → validate_domain s ≡ accepted → IsWord s
unfolding validate_domain
domain-IsWord s h =
    let (h₁, control) = then-accepted _ _ h in
    let (h₂, dot) = then-accepted _ _ h₁ in
    let (empty, long) = then-accepted _ _ h₂ in
    (refuse_if-accepted _ _ empty, no_space-of_checked s (refuse_if-accepted _ _ control))

IsEntry-of_loopback : (e : HostEntry) → e.ip ≡ loopback_ip → IsWord e.domain → IsEntry e
unfolding is_space
IsEntry-of_loopback e h w = record {
  ip_word = rw h (refl, refl);
  not_comment = rw h refl;
  domain_word = w;
}

-- whether an answer reports that what was asked for is done
abbrev pub is_success : Response → Bool
is_success (pong version) = true
is_success applied = true
is_success (committed_as digest) = true
is_success _ = false

-- the lower-case domains of the entries
abbrev pub names : ⦃m : CaseMap⦄ → List HostEntry → List String
names [] = []
names (e ∷ es) = to_lower e.domain ∷ names es

-- what the helper will write
pub record IsSafe ⦃m : CaseMap⦄ (es : List HostEntry) : Type 0 where
  pub bounded : length es ≤ max_host_entries
  pub entries : All IsEntry es
  pub loopback : All (λ e. e.ip ≡ loopback_ip) es
  pub distinct : has_duplicate (names es) ≡ false

module _ ⦃m : CaseMap⦄ where
  record Checked (seen : List String) (es : List HostEntry) : Type 0 where
    entries : All IsEntry es
    loopback : All (λ e. e.ip ≡ loopback_ip) es
    distinct : has_duplicate (names es) ≡ false
    unseen : All (λ n. contains n seen ≡ false) (names es)

  entry_checked :
      (domain : Check) (ip seen : Bool) (r q : Reason) (rest : Check)
      → (domain then refuse_if ip r then refuse_if seen q then rest) ≡ accepted
      → (domain ≡ accepted) × (ip ≡ false) × (seen ≡ false) × (rest ≡ accepted)
  entry_checked accepted false false r q rest h = (refl, refl, refl, h)
  entry_checked accepted false true r q rest h = cc
  entry_checked accepted true seen r q rest h = cc
  entry_checked (refuses reason) ip seen r q rest h = cc

  not_among :
      (x : String) (seen ns : List String)
      → All (λ n. contains n (x ∷ seen) ≡ false) ns
      → (contains x ns ≡ false) × All (λ n. contains n seen ≡ false) ns
  not_among x seen [] h = (refl, tt)
  not_among x seen (n ∷ ns) h =
      let (absent, rest) = not_among x seen ns h.1 in
      (ground (arith, eq_iff n x, eq_iff x n, h.0), (ground (arith, h.0), rest))

  check_entries-Checked :
      (seen : List String) (es : List HostEntry)
      → check_entries seen es ≡ accepted
      → Checked seen es
  unfolding check_entries
  check_entries-Checked seen [] h = record {
    entries = tt;
    loopback = tt;
    distinct = refl;
    unseen = tt;
  }
  check_entries-Checked seen (e ∷ es) h =
      let (domain, ip, fresh, rest) =
        entry_checked (validate_domain e.domain) (not (e.ip == loopback_ip))
          (contains (to_lower e.domain) seen) not_loopback duplicate_domain
          (check_entries (to_lower e.domain ∷ seen) es) h in
      let loopback : e.ip ≡ loopback_ip = ground (arith, eq_iff e.ip loopback_ip, ip) in
      let k = check_entries-Checked (to_lower e.domain ∷ seen) es rest in
      let (absent, unseen) = not_among (to_lower e.domain) seen (names es) k.unseen in
      record {
        entries = (IsEntry-of_loopback e loopback (domain-IsWord e.domain domain), k.entries);
        loopback = (loopback, k.loopback);
        distinct = rw absent k.distinct;
        unseen = (fresh, unseen);
      }

  -- Entries that `validateHostEntries` accepts are at most 256, all of them at the loopback address,
  -- each of a form that one line of the file holds, and with domains that differ in lower case.
  pub validate_host_entries-IsSafe :
      (es : List HostEntry) → validate_host_entries es ≡ accepted → IsSafe es
  unfolding validate_host_entries
  validate_host_entries-IsSafe es h =
      let (count, checked) =
        then-accepted (refuse_if (ltb max_host_entries (length es)) too_many_entries)
          (check_entries [] es) h in
      let k = check_entries-Checked [] es checked in
      record {
        bounded =
            ground
              (arith, refuse_if-accepted (ltb max_host_entries (length es)) too_many_entries count);
        entries = k.entries;
        loopback = k.loopback;
        distinct = k.distinct;
      }
