-- ===== src/CommandCache.antt =====
-- internal/application/idempotency.go: the results of recent commands, kept so that a command that
-- is sent twice runs once. The list is the source's `order`, the oldest use first; its map `entries`
-- from ids to elements of the list is the search by id. Times are numbers.
pub mod Bounds
pub mod Replay
use tunnel_board.Prelude.{
  ℕ, ◌+◌, ◌-◌, String, Bool, true, false, ◌&&◌, ◌||◌, not, ltb, ◌==◌, nat_eq, text_eq, filter, List,
  [], ◌∷◌, ◌++◌, Option, none, some, length, drop, if◌then◌else◌,
}

abbrev pub default_command_cache_ttl : ℕ
default_command_cache_ttl = 900000000000

abbrev pub default_command_cache_capacity : ℕ
default_command_cache_capacity = 1024

-- digests and results are texts
pub record CachedCommand : Type 0 where
  pub command_id : String
  pub operation : String
  pub payload_digest : String
  pub result_json : String
  pub expires_at : ℕ

pub record RecentCommandCache : Type 0 where
  pub ttl : ℕ
  pub capacity : ℕ
  pub order : List CachedCommand

-- `newRecentCommandCache`, for options that are not negative
unfoldable pub new_recent_command_cache : ℕ → ℕ → RecentCommandCache
new_recent_command_cache ttl capacity = record {
  ttl = if ttl == 0 then default_command_cache_ttl else ttl;
  capacity = if capacity == 0 then default_command_cache_capacity else capacity;
  order = [];
}

-- `entries[commandID]`
unfoldable pub find_command : String → List CachedCommand → Option CachedCommand
find_command id [] = none
find_command id (e ∷ es) =
    let rest = find_command id es in if e.command_id == id then some e else rest

-- `order.Remove`, of the element with the id
unfoldable pub remove_command : String → List CachedCommand → List CachedCommand
remove_command id [] = []
remove_command id (e ∷ es) =
    let rest = remove_command id es in if e.command_id == id then es else e ∷ rest

-- `pruneExpired`
unfoldable pub prune_expired : ℕ → List CachedCommand → List CachedCommand
prune_expired now es = filter (λ e. ltb now e.expires_at) es

pub data Lookup : Type 0 where
  miss : Lookup
  hit : String → Lookup
  conflict : CachedCommand → Lookup

abbrev lookup_found :
    String
    → String
    → RecentCommandCache
    → List CachedCommand
    → Option CachedCommand
    → RecentCommandCache × Lookup
lookup_found operation digest c live none = (record c { order = live }, miss)
lookup_found operation digest c live (some e) =
    if not (e.operation == operation) || not (e.payload_digest == digest)
    then (record c { order = live }, conflict e)
    else (record c { order = remove_command e.command_id live ++ e ∷ [] }, hit e.result_json)

unfoldable pub lookup :
    String → String → String → ℕ → RecentCommandCache → RecentCommandCache × Lookup
unfolding prune_expired find_command remove_command
lookup id operation digest now c =
    if id == ""
    then (c, miss)
    else (let live = prune_expired now c.order in
        lookup_found operation digest c live (find_command id live))

-- The loop at the end of `store`: from the front until the capacity is met.
unfoldable pub evict : ℕ → List CachedCommand → List CachedCommand
evict capacity es = drop (length es - capacity) es

-- the entry that `store` makes
abbrev pub entry_for : String → String → String → String → ℕ → CachedCommand
entry_for id operation digest result expires_at = record {
  command_id = id;
  operation = operation;
  payload_digest = digest;
  result_json = result;
  expires_at = expires_at;
}

unfoldable pub store :
    String → String → String → String → ℕ → RecentCommandCache → RecentCommandCache
unfolding prune_expired remove_command evict
store id operation digest result now c =
    if id == ""
    then c
    else (let entry = entry_for id operation digest result (now + c.ttl) in
        record c {
          order = evict c.capacity (remove_command id (prune_expired now c.order) ++ entry ∷ []);
        })
