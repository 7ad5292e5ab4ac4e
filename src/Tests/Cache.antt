-- ===== src/Tests/Cache.antt =====
-- The command cache.
use tunnel_board.Prelude.{
  String, ◌≡◌, ◌≢◌, refl, ◌+◌, ◌==◌, ◌||◌, not, text_eq, [], ◌∷◌, if◌then◌else◌, arith,
}
use tunnel_board.CommandCache.{RecentCommandCache, conflict, hit, entry_for, lookup, store}
use tunnel_board.CommandCache.Bounds.{IsBounded, store-IsBounded}
use tunnel_board.CommandCache.Replay.{lookup-store}

abbrev cache : RecentCommandCache
cache = record { ttl = 60; capacity = 1; order = entry_for "c1" "move" "d1" "r1" 90 ∷ [] }

cache-IsBounded : IsBounded cache
cache-IsBounded = record { has_room = omega arith; bounded = omega arith; distinct = refl }

store-IsBounded_example : IsBounded (store "c2" "move" "d2" "r2" 50 cache)
store-IsBounded_example = store-IsBounded cache cache-IsBounded "c2" "move" "d2" "r2" 50

abbrev c2 : String
c2 = "c2"

abbrev moves : String
moves = "move"

abbrev digest : String
digest = "d2"

c2-given : c2 ≢ ""
c2-given = λ h. cc

lookup-store_example : (lookup c2 "delete" digest 100 (store c2 moves digest "r2" 50 cache)).1 ≡ (
    if not (moves == "delete") || not (digest == digest)
    then conflict (entry_for c2 moves digest "r2" (50 + 60))
    else hit "r2")
lookup-store_example =
    lookup-store cache cache-IsBounded c2 moves digest "r2" 50 100 c2-given (omega arith) "delete"
      digest
