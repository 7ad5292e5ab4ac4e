-- ===== src/Model/WellFormed.antt =====
-- What `VaultData.Validate` (internal/model/validate.go) promises, said without its loops.
use mathlib.Core.List.{
  Nodup-cons, Nodup-nil, mem-cons_self, mem-cons_of_mem, eq-or-mem_of_mem-cons, not-mem-nil,
}
use mathlib.Core.Logic.Or
use mathlib.Core.Bool.{Bool-set}
use tunnel_board.Prelude.{
  ℕ, not, ◌≡◌, ◌≢◌, ◌↔◌, refl, false, ◌⊎◌, inl, inr, List, [], ◌∷◌, map, Mem, Nodup, some,
  Option-cases, Eq, nat_eq, text_eq, endpoint_eq, contains, contains_iff, eq_iff, All, trim_space,
  Bool-cases, beq_refl, arith,
}
use tunnel_board.Result.{
  Result, ok, Error, empty_chain, folder, ssh_host, forward, web_route, duplicate_id, >>-eq-ok,
  guard-eq-ok,
}
use tunnel_board.Model.{
  Folder, Forward, WebRoute, VaultData, mode_original, mode_tls_sni, mode_custom,
  effective_upstream_host_mode,
}
use tunnel_board.Model.Validate.{
  mode_local, mode_remote, mode_dynamic, folder_ids, host_ids, forward_ids, route_ids, check_unique,
  validate_unique_ids, top_folders, check_folder, check_each, check_hop, check_forward,
  forward_by_id, check_upstream_host, check_route_on, check_route, endpoint, validate, is_empty,
  duplicate_endpoint,
}

pub record IsForwardOk (d : VaultData) (fw : Forward) : Type 0 where
  pub mode_known : (fw.mode ≡ mode_local) ⊎ (fw.mode ≡ mode_remote) ⊎ (fw.mode ≡ mode_dynamic)
  pub in_folder : Mem fw.folder_id (folder_ids d)
  pub has_hop : fw.chain_host_ids ≢ []
  pub hops_exist : All (λ h. Mem h (host_ids d)) fw.chain_host_ids

-- where the `Host` of an upstream request comes from, and what that source needs
abbrev pub IsHostSource : WebRoute → Type 0
IsHostSource r =
    (effective_upstream_host_mode r ≡ mode_original)
    ⊎ ((effective_upstream_host_mode r ≡ mode_tls_sni) × (r.upstream_scheme ≡ "https"))
    ⊎ ((effective_upstream_host_mode r ≡ mode_custom) × (trim_space r.upstream_host ≢ ""))

pub record IsRouteOk (d : VaultData) (r : WebRoute) : Type 0 where
  pub target : Forward
  pub found : forward_by_id d.forwards r.forward_id ≡ some target
  pub local_target : target.mode ≡ mode_local
  pub sni_given : r.upstream_scheme ≡ "https" → r.tls_sni ≢ ""
  pub host_source :
      (r.upstream_scheme ≡ "https") ⊎ (r.upstream_scheme ≡ "http") ⊎ (r.upstream_scheme ≡ "")
      → IsHostSource r

pub record IsWellFormed (d : VaultData) : Type 0 where
  pub folders_distinct : Nodup (folder_ids d)
  pub hosts_distinct : Nodup (host_ids d)
  pub forwards_distinct : Nodup (forward_ids d)
  pub routes_distinct : Nodup (route_ids d)
  pub two_levels : All (λ f. (f.parent_id ≡ 0) ⊎ Mem f.parent_id (top_folders d.folders)) d.folders
  pub forwards_ok : All (IsForwardOk d) d.forwards
  pub routes_ok : All (IsRouteOk d) d.web_routes
  pub endpoints_distinct : Nodup (map endpoint d.host_keys)

module _ {A : Type 0} ⦃e : Eq A⦄ (fail : A → Error) where
  check_unique_sound :
      (seen ids : List A)
      → check_unique fail seen ids ≡ ok tt
      → Nodup ids × ((a : A) → Mem a ids → contains a seen ≡ false)
  unfolding check_unique
  check_unique_sound seen [] h = (Nodup-nil, λ a m. absurd (not-mem-nil m))
  check_unique_sound seen (id ∷ ids) h = elim (Bool-cases (contains id seen)) [
    | inl q ↦ ground arith
    | inr q ↦
        let (distinct, away) = check_unique_sound (id ∷ seen) ids (rw q at h) in
        (
          Nodup-cons.1 (λ m. ground (arith, away id m, beq_refl id), distinct),
          λ a m.
              Or.elim (Bool-set _ _) (eq-or-mem_of_mem-cons m) (λ here. rw here q)
                (λ later. ground (arith, away a later)),
        )
  ]

  check_unique_complete :
      (seen ids : List A)
      → Nodup ids
      → ((a : A) → Mem a ids → contains a seen ≡ false)
      → check_unique fail seen ids ≡ ok tt
  unfolding check_unique
  check_unique_complete seen [] d h = refl
  check_unique_complete seen (id ∷ ids) d h = rw (h id mem-cons_self) (
      check_unique_complete (id ∷ seen) ids (Nodup-cons.0 d).1 (λ a m.
        let ne : id ≢ a = λ same. (Nodup-cons.0 d).0 (rw same m) in
        ground (arith, e.same_iff id a, h a (mem-cons_of_mem id m))))

  pub check_unique_iff : (ids : List A) → (check_unique fail [] ids ≡ ok tt) ↔ Nodup ids
  check_unique_iff ids =
      (λ h. (check_unique_sound [] ids h).0, λ d. check_unique_complete [] ids d (λ a m. refl))

module _ {A : Type 0} (check : A → Result (Unit {0})) (P : A → Type 0) where
  -- A loop of checks passes exactly when each check does.
  pub check_each_iff :
      ((x : A) → (check x ≡ ok tt) ↔ P x) → (xs : List A) → (check_each check xs ≡ ok tt) ↔ All P xs
  unfolding check_each
  check_each_iff each [] = (λ _. tt, λ _. refl)
  check_each_iff each (x ∷ xs) = (
    (λ h.
        let (first, later) = >>-eq-ok (check x) (check_each check xs) h in
        ((each x).0 first, (check_each_iff each xs).0 later)),
    (λ (p, ps). rw ((each x).1 p, (check_each_iff each xs).1 ps)),
  )

check_folder_iff :
    (folders : List Folder) (f : Folder)
    → (check_folder folders f ≡ ok tt) ↔ ((f.parent_id ≡ 0) ⊎ Mem f.parent_id (top_folders folders))
unfolding check_folder
check_folder_iff folders f = ground (arith, contains_iff f.parent_id (top_folders folders))

check_hop_iff : (hosts : List ℕ) (h : ℕ) → (check_hop hosts h ≡ ok tt) ↔ Mem h hosts
unfolding check_hop
check_hop_iff hosts h = ground (arith, contains_iff h hosts)

module _ (d : VaultData) (fw : Forward) where
  hops_iff :
      (check_each (check_hop (host_ids d)) fw.chain_host_ids ≡ ok tt)
      ↔ All (λ h. Mem h (host_ids d)) fw.chain_host_ids
  hops_iff = check_each_iff _ _ (check_hop_iff (host_ids d)) fw.chain_host_ids

  check_forward_sound : check_forward d fw ≡ ok tt → IsForwardOk d fw
  unfolding check_forward
  check_forward_sound h =
      let (mode, a) = >>-eq-ok _ _ h in
      let (placed, b) = >>-eq-ok _ _ a in
      let (hop, hops) = >>-eq-ok _ _ b in
      record {
        mode_known = ground (
          arith,
          eq_iff fw.mode mode_local,
          eq_iff fw.mode mode_remote,
          eq_iff fw.mode mode_dynamic,
        );
        in_folder = (contains_iff _ _).0 (guard-eq-ok _ _ placed);
        has_hop = λ e.
            ground (arith, guard-eq-ok (not (is_empty fw.chain_host_ids)) (empty_chain fw.id) hop);
        hops_exist = hops_iff.0 hops;
      }

  check_forward_complete : IsForwardOk d fw → check_forward d fw ≡ ok tt
  unfolding check_forward
  check_forward_complete h = ground (
    arith,
    eq_iff fw.mode mode_local,
    eq_iff fw.mode mode_remote,
    eq_iff fw.mode mode_dynamic,
    contains_iff fw.folder_id (folder_ids d),
    hops_iff,
  )

module _ (r : WebRoute) where
  check_upstream_host_iff : (check_upstream_host r ≡ ok tt) ↔ IsHostSource r
  unfolding check_upstream_host
  check_upstream_host_iff = ground (
    arith,
    eq_iff (effective_upstream_host_mode r) mode_original,
    eq_iff (effective_upstream_host_mode r) mode_tls_sni,
    eq_iff (effective_upstream_host_mode r) mode_custom,
    eq_iff r.upstream_scheme "https",
    eq_iff (trim_space r.upstream_host) "",
    eq_iff mode_tls_sni mode_custom,
    eq_iff mode_original mode_custom,
    eq_iff mode_original mode_tls_sni,
  )

module _ (d : VaultData) (r : WebRoute) where
  check_route_sound : check_route d r ≡ ok tt → IsRouteOk d r
  unfolding check_route check_route_on
  check_route_sound h = elim (Option-cases (forward_by_id d.forwards r.forward_id)) [
    | inl e ↦ ground arith
    | inr (fw, e) ↦ record {
      target = fw;
      found = e;
      local_target = ground (arith, eq_iff fw.mode mode_local);
      sni_given = λ a b. ground (arith, eq_iff r.upstream_scheme "https", eq_iff r.tls_sni "");
      host_source = λ c. ground (
        arith,
        check_upstream_host_iff r,
        eq_iff r.upstream_scheme "https",
        eq_iff r.upstream_scheme "http",
        eq_iff r.upstream_scheme "",
      );
    }
  ]

  check_route_complete : IsRouteOk d r → check_route d r ≡ ok tt
  unfolding check_route check_route_on
  check_route_complete h = ground (
    arith,
    check_upstream_host_iff r,
    eq_iff h.target.mode mode_local,
    eq_iff r.upstream_scheme "https",
    eq_iff r.upstream_scheme "http",
    eq_iff r.upstream_scheme "",
    eq_iff r.tls_sni "",
  )

pub validate_iff : (d : VaultData) → (validate d ≡ ok tt) ↔ IsWellFormed d
unfolding validate validate_unique_ids
validate_iff d = ground (
  arith,
  check_unique_iff (duplicate_id folder) (folder_ids d),
  check_unique_iff (duplicate_id ssh_host) (host_ids d),
  check_unique_iff (duplicate_id forward) (forward_ids d),
  check_unique_iff (duplicate_id web_route) (route_ids d),
  check_each_iff (check_folder d.folders) _ (check_folder_iff d.folders) d.folders,
  check_each_iff (check_forward d) _
      (λ (fw : Forward). (check_forward_sound d fw, check_forward_complete d fw)) d.forwards,
  check_each_iff (check_route d) _
      (λ (r : WebRoute). (check_route_sound d r, check_route_complete d r)) d.web_routes,
  check_unique_iff duplicate_endpoint (map endpoint d.host_keys),
)
