-- ===== src/Catalog/Operations/Sealed.antt =====
-- What the mutations of the catalog leave when they succeed (internal/biz/catalog.go and
-- internal/biz/trust.go).
use tunnel_board.Prelude.{
  ℕ, String, Bool, true, false, Option, if◌then◌else◌, ◌≡◌, refl, List, [], ◌∷◌, none, some,
  CaseMap, ◌==◌, nat_eq, text_eq,
}
use tunnel_board.Result.{Result, ok, err, ◌>>=◌, ◌>>◌, duplicate_host_key}
use tunnel_board.Model.{SshHost, Forward, WebRoute, VaultData}
use tunnel_board.Model.Validate.{validate}
use tunnel_board.Model.Trust.{TrustStatus, trusted, mismatch, unknown, check_host_key}
use tunnel_board.Catalog.{commit}
use tunnel_board.Catalog.Folders.{create_folder_in}
use tunnel_board.Catalog.Hosts.{
  SaveSshHostRequest, put_host, add_host, save_ssh_host_in, save_ssh_host_secure_in, is_new,
  prepare_ssh_host_secure,
}
use tunnel_board.Catalog.Routes.{save_web_route_in, delete_web_route_in}
use tunnel_board.Catalog.Lists.{index_ssh_host, index_web_route, index_forward}
use tunnel_board.Catalog.Forwards.{
  Survey, save_forward_in, move_forwards_in, move_or_stop, is_known_folder, survey, empty_survey,
}
use tunnel_board.Catalog.Delete.{Selection, delete_selection_in, without, plan_deletion}
use tunnel_board.Catalog.HostKeys.{
  Offer, enroll_host_key_in, append_host_key, replace_host_key_in, replace_first,
}

-- what a mutation that succeeds leaves is valid, and of the same version
abbrev pub Sealed : {A : Type 0} → VaultData → Result (A × VaultData) → Type 0
Sealed d (err e) = Unit
Sealed d (ok (a, d')) = (validate d' ≡ ok tt) × (d'.version ≡ d.version)

commit-Sealed :
    {A : Type 0} (a : A) (d d' : VaultData) → d'.version ≡ d.version → Sealed d (commit a d')
unfolding commit
commit-Sealed a d d' e = go (validate d') refl
  where
    go : (r : Result (Unit {0})) → validate d' ≡ r → Sealed d (r >> ok (a, d'))
    go (ok _) h = (h, e)
    go (err _) h = tt

>>=-Sealed :
    {A B : Type 0} (d : VaultData) (m : Result B) (k : B → Result (A × VaultData))
    → ((b : B) → Sealed d (k b))
    → Sealed d (m >>= k)
>>=-Sealed d (ok b) k h = h b
>>=-Sealed d (err e) k h = tt

if-Sealed :
    {A : Type 0} (d : VaultData) (b : Bool) (m n : Result (A × VaultData))
    → Sealed d m
    → Sealed d n
    → Sealed d (if b then m else n)
if-Sealed d true m n h k = h
if-Sealed d false m n h k = k

found-Sealed :
    {A B : Type 0} (d : VaultData) (o : Option B) (m : Result (A × VaultData))
    (k : B → Result (A × VaultData))
    → Sealed d m
    → ((b : B) → Sealed d (k b))
    → Sealed d (elim o [ none ↦ m | some b ↦ k b ])
found-Sealed d none m k h f = h
found-Sealed d (some b) m k h f = f b

pub create_folder_in-Sealed :
    (name : String) (parent_id : ℕ) (d : VaultData) → Sealed d (create_folder_in name parent_id d)
unfolding create_folder_in
create_folder_in-Sealed name parent_id d = commit-Sealed _ d _ refl

put_host-Sealed : (h : SshHost) (d : VaultData) → Sealed d (put_host h d)
unfolding put_host
put_host-Sealed h d =
    found-Sealed d (index_ssh_host d.ssh_hosts h.id) _ _ tt (λ i. commit-Sealed h d _ refl)

add_host-Sealed : (h : SshHost) (d : VaultData) → Sealed d (add_host h d)
unfolding add_host
add_host-Sealed h d = commit-Sealed _ d _ refl

pub save_ssh_host_in-Sealed : (h : SshHost) (d : VaultData) → Sealed d (save_ssh_host_in h d)
unfolding save_ssh_host_in
save_ssh_host_in-Sealed h d =
    if-Sealed d (h.id == 0) _ _ (add_host-Sealed h d) (put_host-Sealed h d)

-- `report_answer` of a write, with a fact that goes to the caller
also-Sealed :
    {A C : Type 0} (d : VaultData) (c : C) (m : Result (A × VaultData))
    → Sealed d m
    → Sealed {A = A × C} d (m >>= λ w. ok ((w.0, c), w.1))
also-Sealed d c (ok (a, d')) h = h
also-Sealed d c (err e) h = tt

pub save_ssh_host_secure_in-Sealed :
    ⦃m : CaseMap⦄ (q : SaveSshHostRequest) (d : VaultData) → Sealed d (save_ssh_host_secure_in q d)
unfolding save_ssh_host_secure_in
save_ssh_host_secure_in-Sealed q d = >>=-Sealed d (prepare_ssh_host_secure d q) _ (λ prepared.
    also-Sealed d prepared.2 _ (
      if-Sealed d (is_new prepared.1) _ _ (add_host-Sealed prepared.0 d)
        (put_host-Sealed prepared.0 d)))

pub save_web_route_in-Sealed : (r : WebRoute) (d : VaultData) → Sealed d (save_web_route_in r d)
unfolding save_web_route_in
save_web_route_in-Sealed r d =
    if-Sealed d (r.id == 0) _ _ (commit-Sealed _ d _ refl)
      (found-Sealed d (index_web_route d.web_routes r.id) _ _ tt (λ i. commit-Sealed r d _ refl))

pub delete_web_route_in-Sealed : (id : ℕ) (d : VaultData) → Sealed d (delete_web_route_in id d)
unfolding delete_web_route_in
delete_web_route_in-Sealed id d =
    found-Sealed d (index_web_route d.web_routes id) _ _ tt (λ i. commit-Sealed tt d _ refl)

pub save_forward_in-Sealed : (fw : Forward) (d : VaultData) → Sealed d (save_forward_in fw d)
unfolding save_forward_in
save_forward_in-Sealed fw d =
    if-Sealed d (fw.id == 0) _ _ (commit-Sealed _ d _ refl)
      (found-Sealed d (index_forward d.forwards fw.id) _ _ tt (λ i. commit-Sealed fw d _ refl))

move_or_stop-Sealed :
    (target : ℕ) (d : VaultData) (v : Survey) (is : List ℕ) → Sealed d (move_or_stop target d v is)
move_or_stop-Sealed target d v [] = tt
move_or_stop-Sealed target d v (i ∷ is) = commit-Sealed v.report d _ refl

pub move_forwards_in-Sealed :
    (ids : List ℕ) (target : ℕ) (d : VaultData) → Sealed d (move_forwards_in ids target d)
unfolding move_forwards_in
move_forwards_in-Sealed ids target d = >>=-Sealed d (is_known_folder d target) _ (λ _.
    >>=-Sealed d (survey d.forwards target ids empty_survey) _
      (λ v. move_or_stop-Sealed target d v v.indexes))

pub delete_selection_in-Sealed :
    (sel : Selection) (d : VaultData) → Sealed d (delete_selection_in sel d)
unfolding delete_selection_in without
delete_selection_in-Sealed sel d =
    >>=-Sealed d (plan_deletion sel d) _ (λ plan. commit-Sealed tt d _ refl)

append_host_key-Sealed : (o : Offer) (d : VaultData) → Sealed d (append_host_key o d)
unfolding append_host_key
append_host_key-Sealed o d = commit-Sealed _ d _ refl

pub enroll_host_key_in-Sealed : (o : Offer) (d : VaultData) → Sealed d (enroll_host_key_in o d)
unfolding enroll_host_key_in
enroll_host_key_in-Sealed o d = go (check_host_key d.host_keys o.host o.port o.fingerprint).1
  where
    go :
        (t : TrustStatus)
        → Sealed d (elim t [
          | unknown ↦ append_host_key o d
          | trusted ↦ err (duplicate_host_key o.host o.port)
          | mismatch ↦ err (duplicate_host_key o.host o.port)
        ])
    go unknown = append_host_key-Sealed o d
    go trusted = tt
    go mismatch = tt

pub replace_host_key_in-Sealed : (o : Offer) (d : VaultData) → Sealed d (replace_host_key_in o d)
unfolding replace_host_key_in
replace_host_key_in-Sealed o d =
    found-Sealed d (replace_first o d.host_keys) _ _ (append_host_key-Sealed o d)
      (λ r. commit-Sealed r.0 d _ refl)
