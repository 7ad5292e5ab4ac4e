-- ===== src/Prelude/Equality.antt =====
-- Equality tests as an interface: one operator for numbers, texts and pairs of them.
use Prim.Native.Nat.{ℕ}
use Prim.Native.String.{String}
use mathlib.Core.Path.{◌≡◌}
use mathlib.Core.Logic.{◌↔◌}
use mathlib.Core.Bool.{Bool, true, ◌&&◌}
use native.Mathlib.Omega.{arith}
use text.Mathlib.Text.{◌==◌ as str_eq}
use text.Mathlib.TextEquality.{eq_iff}
use tunnel_board.Prelude.Tests.{◌==◌ as nat_beq, ==_iff}

-- a type with a test for equality
pub record Eq {ℓ} (A : Type ℓ) : Type ℓ where
  pub same : A → A → Bool
  pub same_iff : (x y : A) → (same x y ≡ true) ↔ (x ≡ y)

instance abbrev pub text_eq : Eq String
text_eq = record { same_iff = eq_iff; same = str_eq }

-- a host name and a port
abbrev pub Endpoint : Type 0
Endpoint = String × ℕ

abbrev pub endpoint_beq : Endpoint → Endpoint → Bool
endpoint_beq (h, p) (k, q) = str_eq h k && nat_beq p q

pub endpoint_beq_iff : (a b : Endpoint) → (endpoint_beq a b ≡ true) ↔ (a ≡ b)
endpoint_beq_iff (h, p) (k, q) = ground (arith, eq_iff h k)

infix 50 ◌==◌
abbrev pub ◌==◌ {κ} : {B : Type κ} ⦃e : Eq B⦄ → B → B → Bool
◌==◌ ⦃e⦄ x y = e.same x y

instance abbrev pub nat_eq : Eq ℕ
nat_eq = record { same_iff = ==_iff; same = nat_beq }

instance abbrev pub endpoint_eq : Eq Endpoint
endpoint_eq = record { same = endpoint_beq; same_iff = endpoint_beq_iff }
