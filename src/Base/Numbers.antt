-- ===== src/Base/Numbers.antt =====
-- Facts on division and products that the reward arithmetic needs.
use Prim.Native.Nat.{ℕ, ◌+◌, ◌*◌, ◌/◌, ◌≤◌, ◌<◌}
use native.Mathlib.Omega.{arith}

-- A quotient times its divisor does not exceed the dividend.
pub mul-div-le : (a b : ℕ) → b * (a / b) ≤ a
mul-div-le a b = grind arith

pub mul-mono_left : (a b c : ℕ) → a ≤ b → a * c ≤ b * c
mul-mono_left a b c h = grind arith

pub div-mul-le : (a b : ℕ) → a / b * b ≤ a
div-mul-le a b = grind arith

pub lt-suc-div : (a b : ℕ) → 0 < b → a < (a / b + 1) * b
lt-suc-div a b h = grind arith

pub mul-mono_right : (c a b : ℕ) → a ≤ b → c * a ≤ c * b
mul-mono_right c a b h = grind arith
