-- ===== src/Runtime/Ends.antt =====
-- The sections of internal/biz/runtime.go after a stop, an event or the end of a run keep the state
-- consistent, and so do the marks of a suspension and a shutdown.
use tunnel_board.Prelude.{
  ℕ, String, Bool, true, false, ◌==◌, nat_eq, Option, none, some, List, value_at, put, ◌≡◌, refl,
  inl, inr, arith, ◌⊎◌, Bool-cases, Option-cases, if_keeps,
}
use tunnel_board.Runtime.{
  Runtime, RunEntry, RuntimeStatus, stopped, plain_status, is_current, finish_run,
}
use tunnel_board.Runtime.Stopping.{
  finish_stop, finish_stop_in_background, Taken, mark_stopping, begin_suspend, finish_suspend,
  begin_shutdown, finish_shutdown, is_asked, everything,
}
use tunnel_board.Runtime.Watching.{EventType, handle_event, finish_watch}
use tunnel_board.Runtime.Invariant.{
  is_live, has_run, IsEntry, AreEntries, IsConsistent, finish_run-IsConsistent,
  put_state-IsConsistent, mark-IsConsistent,
}

-- a status that is not live may be put under an entry that has been there
put_dead-IsConsistent :
    (id : ℕ) (s : RuntimeStatus) (r : Runtime)
    → s.forward_id ≡ id
    → is_live s.status ≡ false
    → IsConsistent r
    → IsConsistent (record r { states = put id s r.states })
put_dead-IsConsistent id s r f d h =
    put_state-IsConsistent id s r h (shown (value_at id r.runs) (h.local id).0)
      (f, λ z. absurd (ground arith))
  where
    shown :
        (o : Option RunEntry)
        → AreEntries r.next_generation r.closing (value_at id r.states) o
        → AreEntries r.next_generation r.closing (some s) o
    shown none l = tt
    shown (some x) l = (l.0, l.1, l.2, l.3, λ z. refl, l.5)

pub finish_stop-IsConsistent :
    (id generation : ℕ) (run : Option ℕ) (e : Option String) (r : Runtime)
    → IsConsistent r
    → IsConsistent (finish_stop id generation run e r)
unfolding finish_stop
finish_stop-IsConsistent id generation run none r h =
    elim (Bool-cases (is_current r id generation run)) [
      | inl c ↦ rw c (finish_run-IsConsistent id _ r refl refl h)
      | inr c ↦ rw c h
    ]
finish_stop-IsConsistent id generation run (some e) r h =
    elim (Bool-cases (is_current r id generation run)) [
      | inl c ↦ rw c (put_dead-IsConsistent id _ r refl refl h)
      | inr c ↦ rw c h
    ]

pub finish_stop_in_background-IsConsistent :
    (id generation : ℕ) (run : Option ℕ) (e : Option String) (r : Runtime)
    → IsConsistent r
    → IsConsistent (finish_stop_in_background id generation run e r)
unfolding finish_stop_in_background
finish_stop_in_background-IsConsistent id generation run (some e) r h = h
finish_stop_in_background-IsConsistent id generation run none r h =
    elim (Bool-cases (is_current r id generation run)) [
      | inl c ↦ rw c (finish_run-IsConsistent id _ r refl refl h)
      | inr c ↦ rw c h
    ]

pub finish_suspend-IsConsistent :
    (t : Taken) (e : Option String) (r : Runtime)
    → IsConsistent r
    → IsConsistent (finish_suspend t e r)
unfolding finish_suspend
finish_suspend-IsConsistent t e r h = elim (Option-cases (value_at t.forward_id r.runs)) [
  | inl q ↦ simp q h
  | inr (x, q) ↦ elim (Bool-cases (x.generation == t.generation)) [
    | inr g ↦ simp (q, g) h
    | inl g ↦ elim (Option-cases e) [
      | inl f ↦ simp (q, g, f) (finish_run-IsConsistent t.forward_id _ r refl refl h)
      | inr (m, f) ↦ simp (q, g, f) (put_dead-IsConsistent t.forward_id _ r refl refl h)
    ]
  ]
]

pub finish_shutdown-IsConsistent :
    (t : Taken) (e : Option String) (r : Runtime)
    → IsConsistent r
    → IsConsistent (finish_shutdown t e r)
unfolding finish_shutdown
finish_shutdown-IsConsistent t e r h = elim (Option-cases t.run) [
  | inl q ↦ simp q h
  | inr (x, q) ↦ elim (Bool-cases (is_current r t.forward_id t.generation (some x))) [
    | inr g ↦ simp (q, g) h
    | inl g ↦ elim (Option-cases e) [
      | inl f ↦ simp (q, g, f) (finish_run-IsConsistent t.forward_id _ r refl refl h)
      | inr (m, f) ↦ simp (q, g, f) (put_dead-IsConsistent t.forward_id _ r refl refl h)
    ]
  ]
]

-- marking an entry as being stopped
mark_one :
    (p : ℕ → RunEntry → Bool) (next : ℕ) (closing closing' : Bool) (s : Option RuntimeStatus)
    (k : ℕ) (e : RunEntry)
    → (closing' ≡ true → (closing ≡ true) ⊎ (p k e ≡ true))
    → IsEntry next closing s e
    → IsEntry next closing' s (mark_stopping p k e) × ((mark_stopping p k e).run ≡ e.run)
mark_one p next closing closing' s k e c h = elim (Bool-cases (p k e)) [
  | inl b ↦ rw b ((h.0, h.1, λ z. absurd (cc), λ z. absurd (cc), h.4, λ z. refl), refl)
  | inr b ↦ rw b ((h.0, h.1, h.2, h.3, h.4, λ z. ground (arith, c z, h.5)), refl)
]

pub begin_suspend-IsConsistent :
    (ids : List ℕ) (r : Runtime) → IsConsistent r → IsConsistent (begin_suspend ids r).0
unfolding begin_suspend
begin_suspend-IsConsistent ids r h =
    mark-IsConsistent (mark_stopping (is_asked ids)) r.closing r
      (λ k e.
        mark_one (is_asked ids) r.next_generation r.closing r.closing (value_at k r.states) k e
          (λ z. inl z))
      h

pub begin_shutdown-IsConsistent : (r : Runtime) → IsConsistent r → IsConsistent (begin_shutdown r).0
unfolding begin_shutdown
begin_shutdown-IsConsistent r h =
    mark-IsConsistent (mark_stopping everything) true r
      (λ k e.
        mark_one everything r.next_generation r.closing true (value_at k r.states) k e
          (λ z. inr refl))
      h

-- any status of the forward may be put under an entry that has a run
put_shown-IsConsistent :
    (id : ℕ) (s : RuntimeStatus) (r : Runtime)
    → s.forward_id ≡ id
    → has_run (value_at id r.runs) ≡ true
    → IsConsistent r
    → IsConsistent (record r { states = put id s r.states })
put_shown-IsConsistent id s r f d h =
    put_state-IsConsistent id s r h (shown (value_at id r.runs) (h.local id).0) (f, λ z. d)
  where
    shown :
        (o : Option RunEntry)
        → AreEntries r.next_generation r.closing (value_at id r.states) o
        → AreEntries r.next_generation r.closing (some s) o
    shown none l = tt
    shown (some x) l = (l.0, l.1, l.2, l.3, λ z. refl, l.5)

is_current-has_run :
    (r : Runtime) (id generation run : ℕ)
    → is_current r id generation (some run) ≡ true
    → has_run (value_at id r.runs) ≡ true
unfolding is_current
is_current-has_run r id generation run c = elim (Option-cases (value_at id r.runs)) [
  | inl q ↦ ground arith
  | inr (x, q) ↦ ground arith
]

pub handle_event-IsConsistent :
    (id generation run : ℕ) (type : EventType) (e : Option String) (latency : Option ℕ)
    (r : Runtime)
    → IsConsistent r
    → IsConsistent (handle_event id generation run type e latency r)
unfolding handle_event
handle_event-IsConsistent id generation run type e latency r h =
    elim (Bool-cases (is_current r id generation (some run))) [
      | inr c ↦ rw c h
      | inl c ↦
          let d = is_current-has_run r id generation run c in
          rw c (put_shown-IsConsistent id _ r (ground arith) d h)
    ]

pub finish_watch-IsConsistent :
    (id generation run : ℕ) (e : Option String) (r : Runtime)
    → IsConsistent r
    → IsConsistent (finish_watch id generation run e r)
unfolding finish_watch
finish_watch-IsConsistent id generation run none r h =
    if_keeps IsConsistent _ r (finish_run id (plain_status id stopped none) r) (λ b. h)
      (λ b. finish_run-IsConsistent id _ r refl refl h)
finish_watch-IsConsistent id generation run (some m) r h =
    if_keeps IsConsistent _ r (finish_run id _ r) (λ b. h)
      (λ b. finish_run-IsConsistent id _ r refl refl h)
