-- ===== src/Prelude/Integers.antt =====
-- Integers over the native natural numbers, and Go's `int` of 64 bits.
use Prim.Native.Nat.{ℕ, zero, suc, ◌-◌, ◌%◌, ◌^◌}
use mathlib.Core.Bool.{Bool, true, false}
use tunnel_board.Prelude.Tests.{ltb, if◌then◌else◌}
use tunnel_board.Prelude.Equality.{◌==◌, nat_eq}

pub data ℤ : Type 0 where
  pos negsuc : ℕ → ℤ

abbrev pub add_one : ℤ → ℤ
add_one (pos n) = pos (suc n)
add_one (negsuc zero) = pos 0
add_one (negsuc (suc n)) = negsuc n

abbrev pub sub_one : ℤ → ℤ
sub_one (pos zero) = negsuc 0
sub_one (pos (suc n)) = pos n
sub_one (negsuc n) = negsuc (suc n)

abbrev pub is_zero : ℤ → Bool
is_zero (pos zero) = true
is_zero _ = false

-- the `int` that a natural number wraps to
abbrev pub wrapped_int : ℕ → ℤ
wrapped_int n =
    if ltb (n % 2 ^ 64) (2 ^ 63) then pos (n % 2 ^ 64) else negsuc (2 ^ 64 - 1 - n % 2 ^ 64)

abbrev pub is_int : ℕ → ℤ → Bool
is_int n (pos k) = k == n
is_int n (negsuc k) = false
