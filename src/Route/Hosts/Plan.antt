-- ===== src/Route/Hosts/Plan.antt =====
-- What `PlanHosts` answers with: which domains, each once, in order.
use mathlib.Core.List.{Perm, not-mem-nil, mem-cons_self, mem-cons_of_mem, eq-or-mem_of_mem-cons}
use mathlib.Core.Logic.Or
use mathlib.Core.Bool.{Bool-set}
use mathlib.Core.List.Perm as P
use tunnel_board.Prelude.{
  String, ◌≡◌, refl, ap, subst, ◌↔◌, Bool, true, false, ◌&&◌, not, ◌==◌, text_eq, contains,
  contains_iff, has_duplicate, has_duplicate_iff, any, inl, inr, List, [], ◌∷◌, some, Option-cases,
  map, Mem, Nodup, CaseMap, Bool-cases, arith, eq_iff, beq_refl,
}
use tunnel_board.Model.{Forward, WebRoute, VaultData}
use tunnel_board.Model.Validate.{forward_by_id}
use tunnel_board.Route.Sorting.{Sorting, IsSorted}
use tunnel_board.Route.Hosts.{
  HostEntry, needs_confirmation, is_planned, plan_domains, entries_of, confirmations, plan_hosts,
}

-- whether some planned route has the domain
unfoldable is_wanted : List Forward → List WebRoute → String → Bool
is_wanted fws rs d = any (λ r. is_planned fws r && r.domain == d) rs

contains-plan_domains :
    (fws : List Forward) (rs : List WebRoute) (seen : List String) (d : String)
    → contains d (plan_domains fws rs seen) ≡ (is_wanted fws rs d && not (contains d seen))
unfolding plan_domains is_wanted
contains-plan_domains fws [] seen d = refl
contains-plan_domains fws (r ∷ rs) seen d = ground (
  arith,
  eq_iff r.domain d,
  contains-plan_domains fws rs seen d,
  contains-plan_domains fws rs (r.domain ∷ seen) d,
)

plan_domains-distinct :
    (fws : List Forward) (rs : List WebRoute) (seen : List String)
    → has_duplicate (plan_domains fws rs seen) ≡ false
unfolding plan_domains
plan_domains-distinct fws [] seen = refl
plan_domains-distinct fws (r ∷ rs) seen = ground (
  arith,
  beq_refl r.domain,
  contains-plan_domains fws rs (r.domain ∷ seen) r.domain,
  plan_domains-distinct fws rs seen,
  plan_domains-distinct fws rs (r.domain ∷ seen),
)

abbrev pub domains_of : List HostEntry → List String
domains_of es = map (λ e. e.domain) es

domains_of-entries_of : (ds : List String) → domains_of (entries_of ds) ≡ ds
domains_of-entries_of [] = refl
domains_of-entries_of (d ∷ ds) = ap (◌∷◌ d) (domains_of-entries_of ds)

contains-confirmations :
    ⦃m : CaseMap⦄ (ds : List String) (d : String)
    → contains d (confirmations ds) ≡ (contains d ds && needs_confirmation d)
unfolding confirmations needs_confirmation
contains-confirmations [] d = refl
contains-confirmations (a ∷ ds) d = elim (Bool-cases (a == d)) [
  | inl e ↦ rw ((eq_iff a d).0 e) (ground (arith, contains-confirmations ds d))
  | inr e ↦ ground (arith, contains-confirmations ds d)
]

domains_of-sort :
    (s : Sorting) (ds : List String)
    → Perm (domains_of (s.sort HostEntry (λ e. e.domain) (entries_of ds))) ds
domains_of-sort s ds =
    subst (Perm (domains_of (s.sort HostEntry (λ e. e.domain) (entries_of ds))))
      (domains_of-entries_of ds)
      (P.map (λ e. e.domain) (s.sort-Perm HostEntry (λ e. e.domain) (entries_of ds)))

mem-domains_of :
    (s : Sorting) (ds : List String) (name : String)
    → Mem name (domains_of (s.sort HostEntry (λ e. e.domain) (entries_of ds)))
      ↔ (contains name ds ≡ true)
mem-domains_of s ds name = (
  λ h. (contains_iff name ds).1 ((P.mem_iff (domains_of-sort s ds)).0 h),
  λ h. (P.mem_iff (domains_of-sort s ds)).1 ((contains_iff name ds).0 h),
)

mem-sort :
    (s : Sorting) (ds : List String) (name : String)
    → Mem name (s.sort String (λ d. d) ds) ↔ (contains name ds ≡ true)
mem-sort s ds name = (
  λ h. (contains_iff name ds).1 ((P.mem_iff (s.sort-Perm String (λ d. d) ds)).0 h),
  λ h. (P.mem_iff (s.sort-Perm String (λ d. d) ds)).1 ((contains_iff name ds).0 h),
)

-- a route that asks for an entry of the domain: it is enabled and its forward exists and is local
abbrev pub Wants : List Forward → String → WebRoute → Type 0
Wants fws name r =
    (r.hosts_enabled ≡ true)
    × (r.domain ≡ name)
    × ((fw : Forward) × (forward_by_id fws r.forward_id ≡ some fw) × (fw.mode ≡ "local"))

is_planned_iff :
    (fws : List Forward) (r : WebRoute) (name : String)
    → ((is_planned fws r && r.domain == name) ≡ true) ↔ Wants fws name r
unfolding is_planned
is_planned_iff fws r name = elim (Option-cases (forward_by_id fws r.forward_id)) [
  | inl q ↦ (
    λ h. absurd (ground (arith, q, h)),
    λ (e, s, (fw, found, l)). absurd (ground (arith, q, found)),
  )
  | inr (fw, q) ↦ (
    λ h. (
      ground (arith, q, h),
      (eq_iff r.domain name).0 (ground (arith, q, h)),
      (fw, q, (eq_iff fw.mode "local").0 (ground (arith, q, h))),
    ),
    λ (e, s, (other, found, l)).
        ground (arith, q, found, e, l, (eq_iff r.domain name).1 s, eq_iff fw.mode "local"),
  )
]

is_wanted_iff :
    (fws : List Forward) (rs : List WebRoute) (name : String)
    → (is_wanted fws rs name ≡ true) ↔ ((r : WebRoute) × Mem r rs × Wants fws name r)
unfolding is_wanted
is_wanted_iff fws [] name = (λ h. absurd (ground arith), λ (r, m, w). absurd (not-mem-nil m))
is_wanted_iff fws (r ∷ rs) name =
    let (to, from) = is_wanted_iff fws rs name in
    let (sound, complete) = is_planned_iff fws r name in
    (
      λ h. elim (Bool-cases (is_planned fws r && r.domain == name)) [
        | inl e ↦ (r, mem-cons_self, sound e)
        | inr e ↦ let (r', m, w) = to (ground (arith, e, h)) in (r', mem-cons_of_mem r m, w)
      ],
      λ (r', m, w).
          Or.elim (Bool-set _ _) (eq-or-mem_of_mem-cons m)
            (λ here. let e = complete (subst (Wants fws name) here w) in ground (arith, e))
            (λ later. let e = from (r', later, w) in ground (arith, e)),
    )

plan_hosts-wanted :
    ⦃m : CaseMap⦄ (s : Sorting) (d : VaultData) (name : String)
    → Mem name (domains_of (plan_hosts s d).0) ↔ (is_wanted d.forwards d.web_routes name ≡ true)
unfolding plan_hosts
plan_hosts-wanted s d name = ground (
  arith,
  mem-domains_of s (plan_domains d.forwards d.web_routes []) name,
  contains-plan_domains d.forwards d.web_routes [] name,
)

-- In the answer of `PlanHosts`, a domain has an entry exactly when it is the domain of a web route that
-- is enabled for the hosts file and whose forward exists and is local.
pub plan_hosts-domains :
    ⦃m : CaseMap⦄ (s : Sorting) (d : VaultData) (name : String)
    → Mem name (domains_of (plan_hosts s d).0)
      ↔ ((r : WebRoute) × Mem r d.web_routes × Wants d.forwards name r)
unfolding plan_hosts
plan_hosts-domains s d name =
    let (to, from) = is_wanted_iff d.forwards d.web_routes name in
    let (wanted, entered) = plan_hosts-wanted s d name in
    (λ m. to (wanted m), λ w. entered (from w))

-- The entries of `PlanHosts` are in the order of their domains, and no domain has two.
pub plan_hosts-ordered :
    ⦃m : CaseMap⦄ (s : Sorting) (d : VaultData)
    → IsSorted (λ e. e.domain) (plan_hosts s d).0 × Nodup (domains_of (plan_hosts s d).0)
unfolding plan_hosts
plan_hosts-ordered s d = (
  s.sort-IsSorted _ _ _,
  P.nodup (P.symm (domains_of-sort s _))
      ((has_duplicate_iff _).0 (plan_domains-distinct d.forwards d.web_routes [])),
)

-- `PlanHosts` asks for a confirmation of exactly the domains with an entry that have no local suffix.
plan_hosts-confirmations :
    ⦃m : CaseMap⦄ (s : Sorting) (d : VaultData) (name : String)
    → Mem name (plan_hosts s d).1
      ↔ (Mem name (domains_of (plan_hosts s d).0) × (needs_confirmation name ≡ true))
unfolding plan_hosts
plan_hosts-confirmations s d name =
    let ds = plan_domains d.forwards d.web_routes [] in
    ground (
      arith,
      mem-domains_of s ds name,
      mem-sort s (confirmations ds) name,
      contains-confirmations ds name,
    )
