-- ===== src/Helper/Transaction.antt =====
-- `WriteManagedHostsTransaction` (internal/helper/hostsfile.go): a write with the managed block's
-- digest as its precondition. Another program may rewrite the file between the two reads.
use tunnel_board.Prelude.{
  String, ◌≡◌, refl, ap, sym, ◌∙◌, Bool, true, false, ◌&&◌, not, ◌⊎◌, inl, inr, ◌==◌, text_eq, List,
  Option, some, if◌then◌else◌, Bool-cases, arith, eq_iff,
}
use tunnel_board.Route.Hosts.{HostEntry}
use tunnel_board.Helper.HostsFile.{render_managed_hosts, parse_managed_hosts}
use tunnel_board.Helper.Disk.{text_of}

-- what goes through; `creates` stands for the directory and the temporary file
pub record Steps : Type 0 where
  pub reads : Bool
  pub creates : Bool
  pub writes : Bool
  pub reads_again : Bool
  pub writes_again : Bool
  pub closes : Bool
  pub renames : Bool

pub data Committed : Type 0 where
  committed : String → Committed
  conflict : String → Committed
  failed : Committed

-- `ManagedEntriesDigest`: SHA-256 of the entries' JSON, from Go's library. The digests compared here are
-- of what the parser gives, for which no entries are nil; the digest of a request's empty slice, which
-- Go encodes differently, is only answered.
module _ (digest : List HostEntry → String) where
  -- the end, with the temporary file's text
  unfoldable pub finish :
      Steps → List HostEntry → Option String → String → Option String × Committed
  finish st entries latest temp =
      if not st.closes
      then (latest, failed)
      else if not st.renames
      then (latest, failed)
      else (some temp, committed (digest entries))

  -- after the second read
  unfoldable pub refresh :
      Steps → List HostEntry → String → Option String → String → Option String × Committed
  unfolding finish render_managed_hosts parse_managed_hosts
  refresh st entries original latest current =
      let latest_digest = digest (parse_managed_hosts (text_of latest)) in
      if not (latest_digest == current)
      then (latest, conflict latest_digest)
      else if not (text_of latest == original)
      then (if not st.writes_again
          then (latest, failed)
          else finish st entries latest (render_managed_hosts (text_of latest) entries))
      else finish st entries latest (render_managed_hosts original entries)

  -- `before` and `latest` are what the path holds at the two reads; the answer has what it holds at the end.
  unfoldable pub write_transaction :
      Steps → List HostEntry → String → Option String → Option String → Option String × Committed
  unfolding refresh parse_managed_hosts
  write_transaction st entries expected before latest =
      let current = digest (parse_managed_hosts (text_of before)) in
      if not st.reads
      then (latest, failed)
      else if not (expected == "") && not (expected == current)
      then (latest, conflict current)
      else if not st.creates
      then (latest, failed)
      else if not st.writes
      then (latest, failed)
      else if not st.reads_again
      then (latest, failed)
      else refresh st entries (text_of before) latest current

  -- What the answers mean.
  pub data Meaning (entries : List HostEntry) (expected : String) (before latest : Option String)
      : Option String × Committed → Type 0 where
    replaced :
        digest (parse_managed_hosts (text_of latest))
          ≡ digest (parse_managed_hosts (text_of before))
        → (expected ≡ "") ⊎ (expected ≡ digest (parse_managed_hosts (text_of latest)))
        → Meaning entries expected before latest
            (some (render_managed_hosts (text_of latest) entries), committed (digest entries))
    refused : (found : String) → Meaning entries expected before latest (latest, conflict found)
    broken : Meaning entries expected before latest (latest, failed)

  module _ (st : Steps) (entries : List HostEntry) (expected : String)
      (before latest : Option String) where
    abbrev pub Means : Option String × Committed → Type 0
    Means = Meaning entries expected before latest

    when-Means :
        (b : Bool) (r q : Option String × Committed)
        → (b ≡ true → Means r)
        → (b ≡ false → Means q)
        → Means (if b then r else q)
    when-Means true r q h k = h refl
    when-Means false r q h k = k refl

    finish-Means :
        (temp : String)
        → Means (some temp, committed (digest entries))
        → Means (finish st entries latest temp)
    unfolding finish
    finish-Means temp h =
        when-Means (not st.closes) _ _ (λ _. broken)
          (λ _. when-Means (not st.renames) _ _ (λ _. broken) (λ _. h))

    abbrev pub Allowed : Type 0
    Allowed = (expected ≡ "") ⊎ (expected ≡ digest (parse_managed_hosts (text_of before)))

    commit-Means :
        (temp : String)
        → Allowed
        → digest (parse_managed_hosts (text_of latest))
          ≡ digest (parse_managed_hosts (text_of before))
        → temp ≡ render_managed_hosts (text_of latest) entries
        → Means (some temp, committed (digest entries))
    commit-Means temp (inl a) same e = rw e (replaced same (inl a))
    commit-Means temp (inr a) same e = rw e (replaced same (inr (a ∙ sym same)))

    refresh-Means :
        Allowed
        → Means (
            refresh st entries
              (text_of before)
              latest
              (digest (parse_managed_hosts (text_of before))))
    unfolding refresh
    refresh-Means a =
        when-Means
          (not (
            digest (parse_managed_hosts (text_of latest))
            == digest (parse_managed_hosts (text_of before))))
          _ _ (λ _. refused _)
          (λ k.
            let same : digest (parse_managed_hosts (text_of latest))
                ≡ digest (parse_managed_hosts (text_of before)) =
              ground (
                arith,
                eq_iff (digest (parse_managed_hosts (text_of latest)))
                    (digest (parse_managed_hosts (text_of before))),
                k,
              ) in
            when-Means (not (text_of latest == text_of before)) _ _
              (λ _.
                when-Means (not st.writes_again) _ _ (λ _. broken)
                  (λ _. finish-Means _ (commit-Means _ a same refl)))
              (λ j.
                let unchanged : text_of latest ≡ text_of before =
                  ground (arith, eq_iff (text_of latest) (text_of before), j) in
                finish-Means _ (
                  commit-Means _ a same
                    (ap (λ t. render_managed_hosts t entries) (sym unchanged)))))

    -- Whatever fails, and whatever another program did to the file between the two reads: the file
    -- is replaced only if the digest of the managed block was the same at both reads, and the
    -- expected one if one was expected; it is then the latest text with the entries rendered into
    -- it, and the answer is their digest. On any other answer the file is as the other program
    -- left it.
    pub write_transaction-Meaning : Means (write_transaction st entries expected before latest)
    unfolding write_transaction
    write_transaction-Meaning =
        let current = digest (parse_managed_hosts (text_of before)) in
        when-Means (not st.reads) _ _ (λ _. broken)
          (λ _.
            when-Means (not (expected == "") && not (expected == current)) _ _ (λ _. refused _)
              (λ k.
                when-Means (not st.creates) _ _ (λ _. broken)
                  (λ _.
                    when-Means (not st.writes) _ _ (λ _. broken)
                      (λ _.
                        when-Means (not st.reads_again) _ _ (λ _. broken)
                          (λ _. refresh-Means (allowed k))))))
      where
        allowed :
            (not (expected == "")
                && not (expected == digest (parse_managed_hosts (text_of before))))
              ≡ false
            → Allowed
        allowed k = elim (Bool-cases (expected == "")) [
          | inl e ↦ inl ((eq_iff expected "").0 e)
          | inr e ↦ inr ((eq_iff _ _).0 (ground (arith, e, k)))
        ]
