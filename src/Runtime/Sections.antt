-- ===== src/Runtime/Sections.antt =====
-- The critical sections of internal/biz/runtime.go keep the state consistent.
use tunnel_board.Prelude.{
  ℕ, ◌+◌, ◌<◌, ◌^◌, String, true, not, ◌==◌, nat_eq, ◌||◌, Option, none, some, value_at, ◌≡◌, refl,
  subst, inl, inr, arith, false≢true, Bool-cases, Option-cases,
}
use tunnel_board.Runtime.{
  Failure, phase_cases, Runtime, RunEntry, RuntimeStatus, active, stopping, is_current, same_run,
  next_after,
}
use tunnel_board.Runtime.Starting.{
  begin_start, fresh_entry, is_starting, finish_start_failure, publish_start, abandon_start,
}
use tunnel_board.Runtime.Stopping.{begin_stop, is_stopping}
use tunnel_board.Runtime.Invariant.{
  AreShown, IsLocal, IsConsistent, finish_run-IsConsistent, put_run-IsConsistent,
  put_both-IsConsistent,
}

-- what the invariant says of the entry at hand
at_entry :
    (id : ℕ) (r : Runtime) (x : RunEntry)
    → IsConsistent r
    → value_at id r.runs ≡ some x
    → IsLocal r.next_generation r.closing id (some x) (value_at id r.states)
at_entry id r x h q =
    subst (λ o. IsLocal r.next_generation r.closing id o (value_at id r.states)) q (h.local id)

at_none :
    (id : ℕ) (r : Runtime)
    → IsConsistent r
    → value_at id r.runs ≡ none
    → AreShown id none (value_at id r.states)
at_none id r h q = subst (λ o. AreShown id o (value_at id r.states)) q (h.local id).1

AreShown-starting :
    (id : ℕ) (s : Option RuntimeStatus) (e : RunEntry) → AreShown id none s → AreShown id (some e) s
AreShown-starting id none e h = tt
AreShown-starting id (some s) e h = (h.0, λ l. absurd (false≢true (h.1 l)))

AreShown-same :
    (id : ℕ) (s : Option RuntimeStatus) (x y : RunEntry)
    → y.run ≡ x.run
    → AreShown id (some x) s
    → AreShown id (some y) s
AreShown-same id none x y e h = tt
AreShown-same id (some s) x y e h = (h.0, rw e h.1)

pub begin_start-IsConsistent :
    (id : ℕ) (r : Runtime)
    → r.next_generation + 1 < 2 ^ 64
    → IsConsistent r
    → IsConsistent (begin_start id r).0
unfolding begin_start
begin_start-IsConsistent id r b h = elim (Bool-cases r.closing) [
  | inl c ↦ simp c h
  | inr c ↦ elim (Option-cases (value_at id r.runs)) [
    | inl e ↦
        let n : next_after r.next_generation ≡ r.next_generation + 1 = omega (arith, b) in
        let g = next_after r.next_generation in
        simp (c, e)
          (rw c at (
            put_run-IsConsistent id g (fresh_entry g) r (omega (arith, n)) h
              (
                omega (arith, n),
                omega arith,
                λ z. refl,
                λ z. absurd (cc),
                λ z. absurd (cc),
                λ z. ground (arith, c),
              )
              (AreShown-starting id (value_at id r.states) (fresh_entry g) (at_none id r h e))))
    | inr (x, e) ↦ elim (phase_cases x.phase) [
      | inl p ↦ simp (c, e, p) h
      | inr (inl p) ↦ simp (c, e, p) h
      | inr (inr p) ↦ simp (c, e, p) h
    ]
  ]
]

pub finish_start_failure-IsConsistent :
    (id generation : ℕ) (e : Failure) (r : Runtime)
    → IsConsistent r
    → IsConsistent (finish_start_failure id generation e r)
unfolding finish_start_failure
finish_start_failure-IsConsistent id generation e r h = elim (Option-cases (value_at id r.runs)) [
  | inl q ↦ simp q h
  | inr (x, q) ↦ elim (Bool-cases (x.generation == generation)) [
    | inl g ↦ simp (q, g) (finish_run-IsConsistent id _ r refl refl h)
    | inr g ↦ simp (q, g) h
  ]
]

pub publish_start-IsConsistent :
    (id generation run : ℕ) (address : String) (latency : Option ℕ) (r : Runtime)
    → IsConsistent r
    → IsConsistent (publish_start id generation run address latency r).0
unfolding publish_start
publish_start-IsConsistent id generation run address latency r h =
    elim (Option-cases (value_at id r.runs)) [
      | inl q ↦ simp q h
      | inr (x, q) ↦
          let l = at_entry id r x h q in
          elim (Bool-cases (not (x.generation == generation) || not (is_starting x) || r.closing)) [
            | inl g ↦ simp (q, g) h
            | inr g ↦
                simp (q, g)
                  (put_both-IsConsistent id
                    (record x { run = some run; phase = active; listener_address = address }) _ r h
                    (l.0.0, l.0.1, λ z. absurd (cc), λ z. refl, λ z. refl, λ z. ground arith)
                    (refl, λ z. refl))
          ]
    ]

pub abandon_start-IsConsistent :
    (id generation : ℕ) (e : Option String) (r : Runtime)
    → IsConsistent r
    → IsConsistent (abandon_start id generation e r)
unfolding abandon_start
abandon_start-IsConsistent id generation e r h = elim (Option-cases (value_at id r.runs)) [
  | inl q ↦ simp q h
  | inr (x, q) ↦ elim (Bool-cases (x.generation == generation)) [
    | inr g ↦ simp (q, g) h
    | inl g ↦ elim (Option-cases x.run) [
      | inr (run, u) ↦ simp (q, g, u) h
      | inl u ↦ elim (Option-cases e) [
        | inl f ↦ simp (q, g, u, f) (finish_run-IsConsistent id _ r refl refl h)
        | inr (m, f) ↦ simp (q, g, u, f) (finish_run-IsConsistent id _ r refl refl h)
      ]
    ]
  ]
]

pub begin_stop-IsConsistent :
    (id : ℕ) (r : Runtime) → IsConsistent r → IsConsistent (begin_stop id r).0
unfolding begin_stop
begin_stop-IsConsistent id r h = elim (Option-cases (value_at id r.runs)) [
  | inl q ↦ simp q h
  | inr (x, q) ↦
      let l = at_entry id r x h q in
      elim (Bool-cases (is_stopping x)) [
        | inl g ↦ simp (q, g) h
        | inr g ↦
            simp (q, g)
              (put_run-IsConsistent id r.next_generation (record x { phase = stopping }) r
                (omega arith) h (l.0.0, l.0.1, λ z. absurd (cc), λ z. absurd (cc), l.0.4, λ z. refl)
                (AreShown-same id (value_at id r.states) x (record x { phase = stopping }) refl
                  l.1))
      ]
]

-- the current entry is there, with the run
is_current-entry :
    (r : Runtime) (id generation : ℕ) (run : Option ℕ)
    → is_current r id generation run ≡ true
    → (x : RunEntry) × (value_at id r.runs ≡ some x)
      × (x.generation ≡ generation)
      × (same_run x.run run ≡ true)
unfolding is_current
is_current-entry r id generation run c = elim (Option-cases (value_at id r.runs)) [
  | inl q ↦ ground arith
  | inr (x, q) ↦ (x, q, ground arith, ground arith)
]
