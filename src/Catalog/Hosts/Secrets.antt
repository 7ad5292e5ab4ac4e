-- ===== src/Catalog/Hosts/Secrets.antt =====
-- Where a host's stored secret comes from (`prepareSSHHostSecure` of internal/biz/catalog.go).
use tunnel_board.Prelude.{
  ◌+◌, ◌%◌, ◌≡◌, refl, ap, subst, ◌==◌, nat_eq, text_eq, String, Option, none, some, if◌then◌else◌,
  CaseMap, arith,
}
use tunnel_board.Result.{Result, ok, err, ◌>>=◌, >>=-eq-ok, >>-eq-ok}
use tunnel_board.Model.{SshHost, VaultData}
use tunnel_board.Catalog.Hosts.{
  auth_ssh_agent, normalize_ssh_host, SecretAction, keep, replace, clear, unknown,
  SaveSshHostRequest, find_previous, choose_secret, secret_for, check_keep, revision_mod,
  prepare_with, connection_changed, prepare_ssh_host_secure, save_ssh_host_secure_in, put_host,
  add_host, is_new,
}

-- a request with another text in its host's password field
abbrev pub with_password : String → SaveSshHostRequest → SaveSshHostRequest
with_password p q = record q { host = record q.host { password = p } }

prepare_with-password :
    (p : String) (q : SaveSshHostRequest) (previous : Option SshHost)
    → prepare_with previous (with_password p q) ≡ prepare_with previous q
unfolding prepare_with normalize_ssh_host check_keep secret_for choose_secret
prepare_with-password p q none = refl
prepare_with-password p q (some old) = refl

module _ ⦃m : CaseMap⦄ (p : String) (q : SaveSshHostRequest) (d : VaultData) where
  prepare_ssh_host_secure-password :
      prepare_ssh_host_secure d (with_password p q) ≡ prepare_ssh_host_secure d q
  unfolding prepare_ssh_host_secure normalize_ssh_host
  prepare_ssh_host_secure-password = λ i. do
    previous ← find_previous d (normalize_ssh_host q.host).id
    prepared ← prepare_with-password p q previous i
    ok (prepared.0, prepared.1, connection_changed previous prepared.0)

  -- The password field of the request's host has no influence on what is stored or answered: a
  -- secret comes only from the secret action.
  pub save_ssh_host_secure_in-password :
      save_ssh_host_secure_in (with_password p q) d ≡ save_ssh_host_secure_in q d
  unfolding save_ssh_host_secure_in
  save_ssh_host_secure_in-password = λ i. do
    prepared ← prepare_ssh_host_secure-password i
    written ← (if is_new prepared.1 then add_host prepared.0 d else put_host prepared.0 d)
    ok ((written.0, prepared.2), written.1)

-- what an action makes of the old secret
abbrev pub secret_after : SecretAction → String → String → String
secret_after keep old input = old
secret_after replace old input = input
secret_after clear old input = ""
secret_after unknown old input = old

secret_for-after :
    (auth : String) (old host : SshHost) (a : SecretAction) (input secret : String)
    → secret_for auth (some old) (record { host = host; secret_action = a; secret_input = input })
      ≡ ok secret
    → secret ≡ (if auth == auth_ssh_agent then "" else secret_after a old.password input)
unfolding secret_for choose_secret
secret_for-after auth old host keep input secret h = ground (arith, h)
secret_for-after auth old host replace input secret h = ground (arith, h)
secret_for-after auth old host clear input secret h = ground (arith, h)
secret_for-after auth old host unknown input secret h = ground (arith, h)

abbrev host_of : SshHost → Result (SshHost × Option SshHost) → SshHost
host_of other (ok (h, o)) = h
host_of other (err e) = other

abbrev HasSecret : SshHost → SaveSshHostRequest → SshHost → Type 0
HasSecret old q h =
    (h.password ≡ (
      if h.auth_type == auth_ssh_agent
      then ""
      else secret_after q.secret_action old.password q.secret_input))
    × (h.credential_revision ≡ (
        if h.password == old.password
        then old.credential_revision
        else (old.credential_revision + 1) % revision_mod))

-- A host that exists and is prepared for its saving has the secret that the action says, none if it
-- uses an agent; its credential revision goes up by one, modulo 2^64, exactly if that secret differs
-- from the old one.
pub prepare_with-secret :
    (old : SshHost) (q : SaveSshHostRequest) (h : SshHost) (o : Option SshHost)
    → prepare_with (some old) q ≡ ok (h, o)
    → (h.password ≡ (
        if h.auth_type == auth_ssh_agent
        then ""
        else secret_after q.secret_action old.password q.secret_input))
      × (h.credential_revision ≡ (
          if h.password == old.password
          then old.credential_revision
          else (old.credential_revision + 1) % revision_mod))
unfolding prepare_with
prepare_with-secret old q h o e =
    let (kept, rest) = >>-eq-ok _ _ e in
    let (secret, chosen, same) = >>=-eq-ok _ _ rest in
    subst (HasSecret old q) (ap (host_of old) same) (
      secret_for-after (normalize_ssh_host q.host).auth_type old q.host q.secret_action
          q.secret_input secret chosen,
      refl,
    )
