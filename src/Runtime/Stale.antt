-- ===== src/Runtime/Stale.antt =====
-- A goroutine of internal/biz/runtime.go that an older start has left behind.
use tunnel_board.Prelude.{
  ℕ, ◌+◌, ◌<◌, ◌≤◌, ◌^◌, String, false, ◌==◌, nat_eq, Option, none, some, value_at, ◌≡◌, refl,
  subst, inl, inr, arith, Option-cases,
}
use tunnel_board.Runtime.{Failure, Runtime, is_current}
use tunnel_board.Runtime.Starting.{
  begun, begin_start, finish_start_failure, publish_start, abandon_start,
}
use tunnel_board.Runtime.Stopping.{
  finish_stop, finish_stop_in_background, finish_suspend, finish_shutdown,
}
use tunnel_board.Runtime.Watching.{EventType, handle_event, finish_watch}
use tunnel_board.Runtime.Invariant.{IsConsistent}
use tunnel_board.Runtime.Sections.{begin_start-IsConsistent}
use tunnel_board.Runtime.Steps.{Runs}
use tunnel_board.Runtime.Later.{IsLater, Runs-IsLater, begun-IsLater}

finish_stop_in_background_stale :
    (id g : ℕ) (run : Option ℕ) (e : Option String) (t : Runtime)
    → is_current t id g run ≡ false
    → finish_stop_in_background id g run e t ≡ t
unfolding finish_stop_in_background
finish_stop_in_background_stale id g run none t h = simp h refl
finish_stop_in_background_stale id g run (some x) t h = refl

finish_shutdown_stale :
    (id g : ℕ) (run : Option ℕ) (e : Option String) (t : Runtime)
    → ((h : ℕ) → is_current t id g (some h) ≡ false)
    → finish_shutdown (record { forward_id = id; generation = g; run = run }) e t ≡ t
unfolding finish_shutdown
finish_shutdown_stale id g none e t h = refl
finish_shutdown_stale id g (some x) e t h = simp (h x) refl

-- Nothing of an old start touches a newer one. When a forward is started anew, in a consistent state,
-- then in every state that the goroutines can reach from there, with fewer than 2^64 starts, the
-- sections of every earlier generation of it leave the state as it is, those that end a start, a stop, a
-- suspension or a shutdown and those of the watching goroutine, and the old run is not entered.
pub stale_start_inert :
    (id g g' n : ℕ) (r t : Runtime)
    → IsConsistent r
    → g ≤ r.next_generation
    → r.next_generation + 1 + n < 2 ^ 64
    → (begin_start id r).1 ≡ begun g'
    → Runs n (begin_start id r).0 t
    → ((run : ℕ) (address : String) (latency : Option ℕ)
        → publish_start id g run address latency t ≡ (t, false))
      × ((e : Failure) → finish_start_failure id g e t ≡ t)
      × ((e : Option String) → abandon_start id g e t ≡ t)
      × ((run : Option ℕ) (e : Option String) → finish_stop id g run e t ≡ t)
      × ((run : Option ℕ) (e : Option String) → finish_stop_in_background id g run e t ≡ t)
      × ((run : Option ℕ) (e : Option String)
          → finish_suspend (record { forward_id = id; generation = g; run = run }) e t ≡ t)
      × ((run : Option ℕ) (e : Option String)
          → finish_shutdown (record { forward_id = id; generation = g; run = run }) e t ≡ t)
      × ((run : ℕ) (e : Option String) → finish_watch id g run e t ≡ t)
      × ((run : ℕ) (type : EventType) (e : Option String) (latency : Option ℕ)
          → handle_event id g run type e latency t ≡ t)
unfolding publish_start finish_start_failure abandon_start finish_stop finish_watch handle_event
    finish_suspend is_current
stale_start_inert id g g' n r t c le b e m =
    let (later, next) = begun-IsLater id g g' r (omega (arith, b)) le e in
    let z : IsLater g (value_at id t.runs) =
      Runs-IsLater m id g (omega (arith, next, b)) (omega (arith, next, le))
        (begin_start-IsConsistent id r (omega (arith, b)) c) later in
    elim (Option-cases (value_at id t.runs)) [
      | inl q ↦ (
        λ run a l. simp q refl,
        λ e. simp q refl,
        λ e. simp q refl,
        λ run e. simp q refl,
        λ run e. finish_stop_in_background_stale id g run e t (simp q refl),
        λ run e. simp q refl,
        λ run e. finish_shutdown_stale id g run e t (λ h. simp q refl),
        λ run e. simp q refl,
        λ run type e l. simp q refl,
      )
      | inr (x, q) ↦
          let y : IsLater g (some x) = subst (IsLater g) q z in
          let d : (x.generation == g) ≡ false = ground (arith, nat_eq.same_iff x.generation g) in
          (
            λ run a l. simp (q, d) refl,
            λ e. simp (q, d) refl,
            λ e. simp (q, d) refl,
            λ run e. simp (q, d) refl,
            λ run e. finish_stop_in_background_stale id g run e t (simp (q, d) refl),
            λ run e. simp (q, d) refl,
            λ run e. finish_shutdown_stale id g run e t (λ h. simp (q, d) refl),
            λ run e. simp (q, d) refl,
            λ run type e l. simp (q, d) refl,
          )
    ]
