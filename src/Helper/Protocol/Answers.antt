-- ===== src/Helper/Protocol/Answers.antt =====
-- What the answers of the helper promise (internal/helper/protocol.go).
use tunnel_board.Prelude.{
  String, ◌≡◌, refl, sym, ◌∙◌, Bool, true, false, ◌||◌, ◌==◌, nat_eq, text_eq, ◌⊎◌, inl, inr, List,
  ◌∷◌, All, Option, some, CaseMap, false≢true, Bool-cases, arith,
}
use tunnel_board.Route.Hosts.{HostEntry}
use tunnel_board.Helper.HostsFile.{render_managed_hosts, parse_managed_hosts}
use tunnel_board.Helper.HostsFile.Fields.{IsEntry}
use tunnel_board.Helper.HostsFile.RoundTrip.{parse-render_managed_hosts}
use tunnel_board.Helper.Disk.{
  Disk, Outcome, done, read_failed, backup_failed, temp_failed, rename_failed, not_rolled_back,
  text_of, is_done, Rewritten, written, kept, saved, write_managed_hosts,
  write_managed_hosts-Rewritten,
}
use tunnel_board.Helper.Transaction.{
  Committed, Meaning, replaced, refused, broken, write_transaction-Meaning,
}
use tunnel_board.Helper.Protocol.{
  op_ping, op_apply_managed_hosts, op_remove_managed_hosts, Request, Check, accepted, refuses,
  validate_host_entries, validate_request, Surroundings, done_or_fail, response_of, transact,
  dispatch, dispatch_if, handle_request,
}
use tunnel_board.Helper.Protocol.Requests.{validate_host_entries-IsSafe, then-accepted, is_success}

committed_hosts :
    {digest : List HostEntry → String} {es : List HostEntry} {expected : String}
    {before latest : Option String} (r : Option String × Committed)
    → Meaning digest es expected before latest r
    → is_success (response_of r.1) ≡ true
    → r.0 ≡ some (render_managed_hosts (text_of latest) es)
committed_hosts _ (replaced same allowed) h = refl
committed_hosts _ (refused found) h = cc
committed_hosts _ broken h = cc

not_success :
    (d : Disk) (o : Outcome) → is_done o ≡ false → is_success (done_or_fail (d, o)).1 ≡ false
not_success d done h = absurd (false≢true (sym h))
not_success d read_failed h = refl
not_success d backup_failed h = refl
not_success d temp_failed h = refl
not_success d rename_failed h = refl
not_success d not_rolled_back h = refl

done_hosts :
    {old : Disk} {es : List HostEntry} (r : Disk × Outcome)
    → Rewritten old es r
    → is_success (done_or_fail r).1 ≡ true
    → (done_or_fail r).0.hosts ≡ some (render_managed_hosts (text_of old.hosts) es)
done_hosts _ (written e) h = e
done_hosts _ (kept f e) h = absurd (false≢true (sym (not_success _ _ f) ∙ h))
done_hosts _ (saved e) h = cc

-- the operations that write
abbrev pub writes : Request → Bool
writes q = q.op == op_apply_managed_hosts || q.op == op_remove_managed_hosts

abbrev pub apply_request : List HostEntry → String → String → Request
apply_request hosts id expected = record {
  op = op_apply_managed_hosts;
  hosts = hosts;
  transaction_id = id;
  expected_managed_digest = expected;
}

module _ ⦃m : CaseMap⦄ (w : Surroundings) (d : Disk) where
  entries-of_accepted :
      (hosts : List HostEntry) (id expected : String)
      → validate_request (apply_request hosts id expected) ≡ accepted
      → All IsEntry hosts
  unfolding validate_request
  entries-of_accepted hosts id expected h =
      let (h₁, digest) = then-accepted _ _ h in
      let (entries, transaction) = then-accepted (validate_host_entries hosts) _ h₁ in
      (validate_host_entries-IsSafe hosts entries).entries

  -- what the hosts file held when it was replaced
  abbrev replaced_text : Bool → String
  replaced_text true = text_of d.hosts
  replaced_text false = text_of (w.meanwhile d).hosts

  dispatch-hosts :
      (hosts : List HostEntry) (id expected : String)
      → is_success (dispatch w (apply_request hosts id expected) d).1 ≡ true
      → (dispatch w (apply_request hosts id expected) d).0.hosts
        ≡ some (render_managed_hosts (replaced_text (id == "")) hosts)
  unfolding dispatch transact
  dispatch-hosts hosts id expected h = elim (Bool-cases (id == "")) [
    | inl e ↦ rw e (
        done_hosts (write_managed_hosts w.faults hosts d)
          (write_managed_hosts-Rewritten w.faults hosts d) (rw e at h))
    | inr e ↦ rw e (
        committed_hosts _
          (write_transaction-Meaning w.digest w.steps hosts expected d.hosts (w.meanwhile d).hosts)
          (rw e at h))
  ]

  accepted-hosts :
      (r : Check) (hosts : List HostEntry) (id expected : String)
      → is_success (dispatch_if w r (apply_request hosts id expected) d).1 ≡ true
      → (dispatch_if w r (apply_request hosts id expected) d).0.hosts
          ≡ some (render_managed_hosts (replaced_text (id == "")) hosts)
        × (r ≡ accepted)
  accepted-hosts accepted hosts id expected h = (dispatch-hosts hosts id expected h, refl)
  accepted-hosts (refuses reason) hosts id expected h = cc

  -- A request to write at least one entry that the helper answers with success was valid, and the entries that
  -- `ParseManagedHosts` then reads from the hosts file are the request's, whatever the file held and
  -- whichever way the request took.
  pub handle_request-parse :
      (e : HostEntry) (es : List HostEntry) (id expected : String)
      → is_success (handle_request w (apply_request (e ∷ es) id expected) d).1 ≡ true
      → (validate_request (apply_request (e ∷ es) id expected) ≡ accepted)
        × (parse_managed_hosts
              (text_of (handle_request w (apply_request (e ∷ es) id expected) d).0.hosts)
            ≡ e ∷ es)
  unfolding handle_request
  handle_request-parse e es id expected h =
      let q = apply_request (e ∷ es) id expected in
      let (hosts, valid) = accepted-hosts (validate_request q) (e ∷ es) id expected h in
      let entries = entries-of_accepted (e ∷ es) id expected valid in
      (valid, rw hosts (parse-render_managed_hosts (replaced_text (id == "")) e es entries))

  dispatch-untouched : (q : Request) → writes q ≡ false → (dispatch w q d).0 ≡ d
  unfolding dispatch
  dispatch-untouched q h = elim (Bool-cases (q.op == op_ping)) [
    | inl e ↦ rw e refl
    | inr e ↦ rw (e, apply, remove) refl
  ]
    where
      apply : (q.op == op_apply_managed_hosts) ≡ false
      apply = ground (arith, h)

      remove : (q.op == op_remove_managed_hosts) ≡ false
      remove = ground (arith, h)

  -- The helper leaves every file alone unless the request is valid and its operation is one of the
  -- two that write.
  pub handle_request-untouched :
      (q : Request)
      → ((handle_request w q d).0 ≡ d) ⊎ ((validate_request q ≡ accepted) × (writes q ≡ true))
  unfolding handle_request
  handle_request-untouched q = go (validate_request q)
    where
      go : (r : Check) → ((dispatch_if w r q d).0 ≡ d) ⊎ ((r ≡ accepted) × (writes q ≡ true))
      go (refuses reason) = inl refl
      go accepted = elim (Bool-cases (writes q)) [
        | inl e ↦ inr (refl, e)
        | inr e ↦ inl (dispatch-untouched q e)
      ]
