-- ===== src/SshConfig/Resolve.antt =====
-- What `resolveAlias` and `collectExplicitAliases` of internal/sshconfig/import.go find.
use tunnel_board.Prelude.{
  wrapped_int, ℕ, ◌*◌, String, false, ◌==◌, text_eq, Option, none, some, List, [], ◌∷◌, ◌++◌,
  if◌then◌else◌, CaseMap, trim_space, ◌≡◌, refl, sym, subst, arith, inl, inr, Bool-cases, eq_iff,
}
use tunnel_board.SshConfig.{
  ConfigOption, ConfigEntry, ResolvedAlias, GoText, apply_option, apply_options,
  apply_connection_option, set_number, resolve_entries, resolve_alias, initial_alias,
  entry_matches_alias,
}

-- the values that options of a name have, in their order
abbrev pub values_of : String → List ConfigOption → List String
values_of key [] = []
values_of key (o ∷ os) =
    let rest = values_of key os in if o.key == key then o.value ∷ rest else rest

-- the first of them that is not empty, or nothing
abbrev pub first_of : List String → String
first_of [] = ""
first_of (v ∷ vs) = let rest = first_of vs in if v == "" then rest else v

abbrev or_first : String → List String → String
or_first current vs = if current == "" then first_of vs else current

set_number-user :
    (n : Option ℕ) (set : ℕ → ResolvedAlias) (out : ResolvedAlias)
    → ((k : ℕ) → (set k).user ≡ out.user)
    → (set_number n set out).user ≡ out.user
set_number-user none set out same = refl
set_number-user (some k) set out same = same k

module _ ⦃m : CaseMap⦄ (go : GoText) where
  -- the same over the entries that match the alias
  abbrev pub matching_values : String → String → List ConfigEntry → List String
  matching_values key alias [] = []
  matching_values key alias (e ∷ es) =
      let rest = matching_values key alias es in
      if entry_matches_alias go e alias then values_of key e.options ++ rest else rest

  user_option :
      (alias v : String) (out : ResolvedAlias)
      → (apply_option go alias (record { key = "user"; value = v }) out).user
        ≡ or_first out.user (v ∷ [])
  unfolding apply_option
  user_option alias v out = ground (arith, eq_iff out.user "", eq_iff v "")

  apply_connection_option-user :
      (o : ConfigOption) (out : ResolvedAlias) → (apply_connection_option go o out).user ≡ out.user
  unfolding apply_connection_option
  apply_connection_option-user o out =
      let n = go.positive_number (trim_space o.value) in
      let a =
        set_number-user n (λ k. record out { keep_alive_interval_ms = wrapped_int (k * 1000) }) out
          (λ k. refl) in
      let b =
        set_number-user n (λ k. record out { timeout_ms = wrapped_int (k * 1000) }) out
          (λ k. refl) in
      ground (arith, a, b)

  other_option :
      (alias : String) (o : ConfigOption) (out : ResolvedAlias)
      → (o.key == "user") ≡ false
      → (apply_option go alias o out).user ≡ out.user
  unfolding apply_option
  other_option alias o out e =
      let n = go.positive_number (trim_space o.value) in
      let a = set_number-user n (λ k. record out { port = k }) out (λ k. refl) in
      let b = apply_connection_option-user o out in ground (arith, a, b, e)

  apply_option-user :
      (alias : String) (o : ConfigOption) (out : ResolvedAlias)
      → (apply_option go alias o out).user
        ≡ (if o.key == "user" then or_first out.user (o.value ∷ []) else out.user)
  apply_option-user alias o out = elim (Bool-cases (o.key == "user")) [
    | inl e ↦
        let k : o.key ≡ "user" = (eq_iff o.key "user").0 e in
        let r : (apply_option go alias o out).user ≡ or_first out.user (o.value ∷ []) =
          subst
            (λ z.
              (apply_option go alias (record { key = z; value = o.value }) out).user
              ≡ or_first out.user (o.value ∷ []))
            (sym k) (user_option alias o.value out) in
        ground (arith, r, e)
    | inr e ↦ let r = other_option alias o out e in ground (arith, r, e)
  ]

  or_first-append :
      (current : String) (xs ys : List String)
      → or_first current (xs ++ ys) ≡ or_first (or_first current xs) ys
  or_first-append current [] ys = ground (arith, eq_iff current "")
  or_first-append current (x ∷ xs) ys =
      let r = or_first-append "" xs ys in ground (arith, r, eq_iff current "", eq_iff x "")

  apply_options-user :
      (alias : String) (os : List ConfigOption) (out : ResolvedAlias)
      → (apply_options go alias os out).user ≡ or_first out.user (values_of "user" os)
  unfolding apply_options
  apply_options-user alias [] out = ground (arith, eq_iff out.user "")
  apply_options-user alias (o ∷ os) out =
      let r = apply_options-user alias os (apply_option go alias o out) in
      let one = apply_option-user alias o out in
      let split = or_first-append out.user (o.value ∷ []) (values_of "user" os) in
      ground (arith, r, one, split)

  resolve_entries-user :
      (alias : String) (es : List ConfigEntry) (out : ResolvedAlias)
      → (resolve_entries go alias es out).user ≡ or_first out.user (matching_values "user" alias es)
  unfolding resolve_entries
  resolve_entries-user alias [] out = ground (arith, eq_iff out.user "")
  resolve_entries-user alias (e ∷ es) out =
      let start = if out.source_path == "" then record out { source_path = e.source } else out in
      let same : start.user ≡ out.user = ground arith in
      let applied = apply_options-user alias e.options start in
      let skipped = resolve_entries-user alias es out in
      let r = resolve_entries-user alias es (apply_options go alias e.options start) in
      let split =
        or_first-append out.user (values_of "user" e.options) (matching_values "user" alias es) in
      ground (arith, r, split, same, applied, skipped)

  -- The user of a resolved alias is the first user that is not empty among the options of the entries
  -- that match the alias, in the order of the file, and is empty when there is none.
  pub resolve_alias-user :
      (alias : String) (es : List ConfigEntry)
      → (resolve_alias go alias es).user ≡ first_of (matching_values "user" alias es)
  unfolding resolve_alias
  resolve_alias-user alias es =
      let r = resolve_entries-user alias es (initial_alias go alias) in ground (arith, r)
