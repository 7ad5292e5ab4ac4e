-- ===== src/Runtime/Invariant.antt =====
-- What holds of the state of internal/biz/runtime.go between two critical sections.
use tunnel_board.Prelude.{
  ℕ, ◌<◌, ◌≤◌, Bool, true, false, ◌==◌, nat_eq, Option, none, some, value_at, put, update_all,
  value_at-put, value_at-remove, value_at-update_all, if◌then◌else◌, ◌≡◌, refl, subst, inl, inr,
  arith, Bool-cases, Option-cases,
}
use tunnel_board.Runtime.{
  Runtime, RunEntry, RuntimeStatus, RuntimeState, running, reconnecting, stopped, error, starting,
  active, stopping, finish_run, new_runtime,
}

abbrev pub is_live : RuntimeState → Bool
is_live running = true
is_live reconnecting = true
is_live stopped = false
is_live error = false

abbrev pub runs_on : Option ℕ → Bool
runs_on none = false
runs_on (some h) = true

abbrev pub has_run : Option RunEntry → Bool
has_run none = false
has_run (some e) = runs_on e.run

abbrev pub is_shown : Option RuntimeStatus → Bool
is_shown none = false
is_shown (some s) = true

-- an entry: its generation has been given out; it has no run while it starts, and has one while it is
-- active; a forward with a run is shown; once the runtime is closing each entry is being stopped
module _ (next : ℕ) (closing : Bool) (s : Option RuntimeStatus) (e : RunEntry) where
  abbrev pub IsEntry : Type 0
  IsEntry =
      (0 < e.generation)
      × (e.generation ≤ next)
      × (e.phase ≡ starting → e.run ≡ none)
      × (e.phase ≡ active → runs_on e.run ≡ true)
      × (runs_on e.run ≡ true → is_shown s ≡ true)
      × (closing ≡ true → e.phase ≡ stopping)

-- what is shown of a forward is about it, and what is shown as live has a run
abbrev pub IsShown : ℕ → Option RunEntry → RuntimeStatus → Type 0
IsShown id o s = (s.forward_id ≡ id) × (is_live s.status ≡ true → has_run o ≡ true)

abbrev pub AreEntries : ℕ → Bool → Option RuntimeStatus → Option RunEntry → Type 0
AreEntries next closing s none = Unit
AreEntries next closing s (some e) = IsEntry next closing s e

abbrev pub AreShown : ℕ → Option RunEntry → Option RuntimeStatus → Type 0
AreShown id o none = Unit
AreShown id o (some s) = IsShown id o s

-- one forward's part of the state
abbrev pub IsLocal : ℕ → Bool → ℕ → Option RunEntry → Option RuntimeStatus → Type 0
IsLocal next closing id o s = AreEntries next closing s o × AreShown id o s

pub record IsConsistent (r : Runtime) : Type 0 where
  pub local :
      (k : ℕ) → IsLocal r.next_generation r.closing k (value_at k r.runs) (value_at k r.states)

pub new_runtime-IsConsistent : IsConsistent new_runtime
new_runtime-IsConsistent = record { local = λ k. (tt, tt) }

-- A section that is about one forward changes that one's part only.
pub only_at :
    (id : ℕ) (r r' : Runtime) (o : Option RunEntry) (s : Option RuntimeStatus)
    → ((k : ℕ) → value_at k r'.runs ≡ (if id == k then o else value_at k r.runs))
    → ((k : ℕ) → value_at k r'.states ≡ (if id == k then s else value_at k r.states))
    → r.next_generation ≤ r'.next_generation
    → r'.closing ≡ r.closing
    → IsConsistent r
    → IsLocal r'.next_generation r'.closing id o s
    → IsConsistent r'
only_at id r r' o s runs states n c h l = record {
  local = λ k. elim (Bool-cases (id == k)) [
    | inl e ↦
        let q : id ≡ k = ground (arith, nat_eq.same_iff id k) in
        rw (runs k) (rw (states k) (rw e (rw q at l)))
    | inr e ↦ rw (runs k) (rw (states k) (rw e (rw c (widen k (h.local k)))))
  ];
}
  where
    widen :
        (k : ℕ)
        → IsLocal r.next_generation r.closing k (value_at k r.runs) (value_at k r.states)
        → IsLocal r'.next_generation r.closing k (value_at k r.runs) (value_at k r.states)
    widen k h = elim (Option-cases (value_at k r.runs)) [
      | inl e ↦ ground arith
      | inr (x, e) ↦ ground arith
    ]

-- the end of a run, with a status that is not live
pub finish_run-IsConsistent :
    (id : ℕ) (s : RuntimeStatus) (r : Runtime)
    → s.forward_id ≡ id
    → is_live s.status ≡ false
    → IsConsistent r
    → IsConsistent (finish_run id s r)
finish_run-IsConsistent id s r f l h =
    only_at id r (finish_run id s r) none (some s) (λ k. value_at-remove k id r.runs)
      (λ k. value_at-put k id s r.states) (omega arith) refl h (tt, (f, λ e. absurd (ground arith)))

pub put_run-IsConsistent :
    (id n : ℕ) (e : RunEntry) (r : Runtime)
    → r.next_generation ≤ n
    → IsConsistent r
    → IsEntry n r.closing (value_at id r.states) e
    → AreShown id (some e) (value_at id r.states)
    → IsConsistent (record r { next_generation = n; runs = put id e r.runs })
put_run-IsConsistent id n e r le h entry sh =
    only_at id r (record r { next_generation = n; runs = put id e r.runs }) (some e)
      (value_at id r.states) (λ k. value_at-put k id e r.runs) (λ k. same_at k) le refl h
      (entry, sh)
  where
    same_at :
        (k : ℕ)
        → value_at k r.states ≡ (if id == k then value_at id r.states else value_at k r.states)
    same_at k = elim (Bool-cases (id == k)) [
      | inl q ↦ let i : id ≡ k = ground (arith, nat_eq.same_iff id k) in rw q (rw i refl)
      | inr q ↦ rw q refl
    ]

pub put_state-IsConsistent :
    (id : ℕ) (s : RuntimeStatus) (r : Runtime)
    → IsConsistent r
    → AreEntries r.next_generation r.closing (some s) (value_at id r.runs)
    → IsShown id (value_at id r.runs) s
    → IsConsistent (record r { states = put id s r.states })
put_state-IsConsistent id s r h entry sh =
    only_at id r (record r { states = put id s r.states }) (value_at id r.runs) (some s)
      (λ k. same_at k) (λ k. value_at-put k id s r.states) (omega arith) refl h (entry, sh)
  where
    same_at :
        (k : ℕ) → value_at k r.runs ≡ (if id == k then value_at id r.runs else value_at k r.runs)
    same_at k = elim (Bool-cases (id == k)) [
      | inl q ↦ let i : id ≡ k = ground (arith, nat_eq.same_iff id k) in rw q (rw i refl)
      | inr q ↦ rw q refl
    ]

pub put_both-IsConsistent :
    (id : ℕ) (e : RunEntry) (s : RuntimeStatus) (r : Runtime)
    → IsConsistent r
    → IsEntry r.next_generation r.closing (some s) e
    → IsShown id (some e) s
    → IsConsistent (record r { runs = put id e r.runs; states = put id s r.states })
put_both-IsConsistent id e s r h entry sh =
    only_at id r (record r { runs = put id e r.runs; states = put id s r.states }) (some e) (some s)
      (λ k. value_at-put k id e r.runs) (λ k. value_at-put k id s r.states) (omega arith) refl h
      (entry, sh)

pub mark-IsConsistent :
    (f : ℕ → RunEntry → RunEntry) (c : Bool) (r : Runtime)
    → ((k : ℕ) (e : RunEntry)
        → IsEntry r.next_generation r.closing (value_at k r.states) e
        → IsEntry r.next_generation c (value_at k r.states) (f k e) × ((f k e).run ≡ e.run))
    → IsConsistent r
    → IsConsistent (record r { closing = c; runs = update_all f r.runs })
mark-IsConsistent f c r keeps h = record {
  local = λ k. rw (value_at-update_all f k r.runs) (elim (Option-cases (value_at k r.runs)) [
    | inl e ↦ rw e (tt, subst (λ o. AreShown k o (value_at k r.states)) e (h.local k).1)
    | inr (x, e) ↦
        let l : IsLocal r.next_generation r.closing k (some x) (value_at k r.states) =
          subst (λ o. IsLocal r.next_generation r.closing k o (value_at k r.states)) e
            (h.local k) in
        let (entry, same) = keeps k x l.0 in rw e (entry, shown k (value_at k r.states) x same l.1)
  ]);
}
  where
    shown :
        (k : ℕ) (s : Option RuntimeStatus) (x : RunEntry)
        → (f k x).run ≡ x.run
        → AreShown k (some x) s
        → AreShown k (some (f k x)) s
    shown k none x same h = tt
    shown k (some s) x same h = (h.0, rw same h.1)
