-- ===== src/Backup/Limits/Depth.antt =====
-- What `validateBackupJSONDepth` of internal/vault/backup_limits.go measures.
use tunnel_board.Prelude.{
  ℕ, suc, ◌+◌, ◌-◌, ◌≤◌, List, [], ◌∷◌, ltb, leb, ◌≡◌, refl, ap, arith, if◌then◌else◌, Bool-cases,
  inl, inr, ◌↔◌,
}
use tunnel_board.Backup.{gave}
use tunnel_board.Backup.Limits.{JsonToken, opens, closes, scalar, check_depth, max_json_depth}

-- JSON values one after another: an object or an array holds its keys and values in turn
pub data JsonValues : Type 0 where
  nil : JsonValues
  single : JsonValues → JsonValues
  compound : JsonValues → JsonValues → JsonValues

abbrev max : ℕ → ℕ → ℕ
max a b = if leb a b then b else a

-- how deep the brackets nest
unfoldable pub depth : JsonValues → ℕ
depth nil = 0
depth (single vs) = depth vs
depth (compound inner vs) = max (suc (depth inner)) (depth vs)

-- the tokens that the values are written with, before others
unfoldable pub tokens_before : JsonValues → List JsonToken → List JsonToken
tokens_before nil ts = ts
tokens_before (single vs) ts = scalar ∷ tokens_before vs ts
tokens_before (compound inner vs) ts = opens ∷ tokens_before inner (closes ∷ tokens_before vs ts)

check_depth-tokens_before :
    (vs : JsonValues) (ts : List JsonToken) (n : ℕ)
    → n ≤ max_json_depth
    → (check_depth (tokens_before vs ts) n ≡ gave tt)
      ↔ ((n + depth vs ≤ max_json_depth) × (check_depth ts n ≡ gave tt))
unfolding tokens_before depth check_depth
check_depth-tokens_before nil ts n b = ground arith
check_depth-tokens_before (single vs) ts n b = ground (arith, check_depth-tokens_before vs ts n b)
check_depth-tokens_before (compound inner vs) ts n b =
    let rest = check_depth-tokens_before vs ts n b in
    elim (Bool-cases (ltb max_json_depth (n + 1))) [
      | inl e ↦ ground arith
      | inr e ↦
          let held : n + 1 ≤ max_json_depth = ground arith in
          let closing : check_depth (tokens_before vs ts) (n + 1 - 1)
              ≡ check_depth (tokens_before vs ts) n =
            ap (check_depth (tokens_before vs ts)) (omega arith) in
          let inside =
            check_depth-tokens_before inner (closes ∷ tokens_before vs ts) (n + 1) held in
          ground (arith, rest, inside, closing)
    ]

-- The check of the tokens of well-formed JSON values succeeds just if their brackets nest at most 32
-- deep.
pub check_depth_iff :
    (vs : JsonValues)
    → (check_depth (tokens_before vs []) 0 ≡ gave tt) ↔ (depth vs ≤ max_json_depth)
unfolding check_depth
check_depth_iff vs = ground (arith, check_depth-tokens_before vs [] 0 (omega arith), nothing)
  where
    nothing : check_depth [] 0 ≡ gave tt
    nothing = refl
