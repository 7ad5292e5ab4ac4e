-- ===== src/Catalog/Ids.antt =====
-- `nextID` (internal/biz/catalog.go) gives an id above every id in use.
use mathlib.Core.List.{not-mem-nil, eq-or-mem_of_mem-cons}
use mathlib.Core.Logic.Or
use native.Mathlib.Bridge.{le_prop}
use tunnel_board.Prelude.{ℕ, ◌≤◌, ◌<◌, List, [], ◌∷◌, Mem, ltb, if◌then◌else◌, arith}
use tunnel_board.Catalog.{max_from, next_id}

max_from-ge : (m : ℕ) (ids : List ℕ) → m ≤ max_from m ids
unfolding max_from
max_from-ge m [] = omega arith
max_from-ge m (id ∷ ids) = ground (arith, max_from-ge (if ltb m id then id else m) ids)

max_from-mem : (m a : ℕ) (ids : List ℕ) → Mem a ids → a ≤ max_from m ids
unfolding max_from
max_from-mem m a [] h = absurd (not-mem-nil h)
max_from-mem m a (id ∷ ids) h =
    let k = if ltb m id then id else m in
    Or.elim le_prop (eq-or-mem_of_mem-cons h) (λ e. ground (arith, max_from-ge k ids))
      (λ r. max_from-mem k a ids r)

-- Every id in use is below the next one.
pub mem-lt-next_id : (a : ℕ) (ids : List ℕ) → Mem a ids → a < next_id ids
unfolding next_id
mem-lt-next_id a ids h = omega (arith, max_from-mem 0 a ids h)

-- The id that `nextID` gives is not in use.
next_id-fresh : (ids : List ℕ) → ¬ Mem (next_id ids) ids
next_id-fresh ids = λ h. absurd (omega (arith, mem-lt-next_id (next_id ids) ids h))

pub next_id-pos : (ids : List ℕ) → 0 < next_id ids
unfolding next_id
next_id-pos ids = omega arith
