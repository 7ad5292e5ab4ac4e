-- ===== src/Result.antt =====
-- Errors as values: the sentinel errors of internal/model/validate.go and internal/biz/catalog.go,
-- and a constructor for each plain error of the catalog. An error that names an entity carries its id.
use tunnel_board.Prelude.{ℕ, ◌≡◌, refl, Bool, true, false, List, String}

pub data Kind : Type 0 where
  folder ssh_host forward web_route : Kind

pub data Error : Type 0 where
  ref_missing folder_depth invalid_mode empty_chain : ℕ → Error
  route_needs_local_forward route_needs_tls_sni invalid_upstream_host_mode : ℕ → Error
  route_needs_upstream_host : ℕ → Error
  duplicate_id : Kind → ℕ → Error
  duplicate_host_key : String → ℕ → Error
  not_found : Kind → ℕ → Error
  host_in_use folder_not_empty : ℕ → Error
  name_required no_forwards too_many_forwards : Error
  forward_duplicated : ℕ → Error
  -- the sentinel `noChange` of a move, with the ids that its report had collected
  no_change : List ℕ → Error
  secret_action_required missing_secret secret_required unsupported_auth_type : Error
  unknown_secret_action : Error
  load_failed save_failed : Error

pub data Result {ℓ} (A : Type ℓ) : Type ℓ where
  ok : A → Result A
  err : Error → Result A

-- goes on if the test holds
abbrev pub guard : Bool → Error → Result (Unit {0})
guard true e = ok tt
guard false e = err e

pub guard-eq-ok : (b : Bool) (e : Error) → guard b e ≡ ok tt → b ≡ true
guard-eq-ok true e h = refl
guard-eq-ok false e h = cc

infixl 5 ◌>>=◌ ◌>>◌
abbrev pub ◌>>=◌ {ℓ κ} : {A : Type ℓ} {B : Type κ} → Result A → (A → Result B) → Result B
err e >>= next = err e
ok x >>= next = next x

-- a step that succeeded had an answer, and what follows it succeeded
pub >>=-eq-ok {ℓ κ} :
    {A : Type ℓ} {B : Type κ} (first : Result A) (next : A → Result B) {y : B}
    → (first >>= next) ≡ ok y
    → (x : A) × (first ≡ ok x) × (next x ≡ ok y)
>>=-eq-ok (err e) next h = cc
>>=-eq-ok (ok x) next h = (x, refl, h)

abbrev pub ◌>>◌ {ℓ} : {B : Type ℓ} → Result (Unit {0}) → Result B → Result B
check >> rest = check >>= λ _. rest

pub >>-eq-ok {κ} :
    {B : Type κ} (check : Result (Unit {0})) (rest : Result B) {y : B}
    → (check >> rest) ≡ ok y
    → (check ≡ ok tt) × (rest ≡ ok y)
>>-eq-ok (err e) rest h = cc
>>-eq-ok (ok tt) rest h = (refl, h)
