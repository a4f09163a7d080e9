-- ===== src/Checked.antt =====
-- Rust's checked arithmetic on unsigned words of `w` bits, and the saturating subtraction.
use dlmm_auto_sell_assets_in.Base.{
  ℕ, ◌+◌, ◌-◌, ◌*◌, ◌/◌, ◌^◌, ◌≤◌, ◌<◌, ◌≡◌, Option, none, some, arith, ltb, leb, ◌==◌,
  if◌then◌else◌,
}
use dlmm_auto_sell_assets_in.Errors.{math_overflow, Result, ok, ok_or}

-- `uN::try_from(n).ok()`: the value, if it has `w` bits.
unfoldable pub try_from : ℕ → ℕ → Option ℕ
try_from w n = if ltb n (2 ^ w) then some n else none

unfoldable pub checked_add : ℕ → ℕ → ℕ → Option ℕ
unfolding try_from
checked_add w a b = try_from w (a + b)

unfoldable pub checked_mul : ℕ → ℕ → ℕ → Option ℕ
unfolding try_from
checked_mul w a b = try_from w (a * b)

unfoldable pub checked_sub : ℕ → ℕ → Option ℕ
checked_sub a b = if leb b a then some (a - b) else none

unfoldable pub checked_div : ℕ → ℕ → Option ℕ
checked_div a b = if b == 0 then none else some (a / b)

-- `option.unwrap_or(d)`.
abbrev pub unwrap_or : Option ℕ → ℕ → ℕ
unwrap_or none d = d
unwrap_or (some a) d = a

-- `checked(..).ok_or(StakingError::MathOverflow)?`, which is how the handlers use them all.
abbrev pub or_overflow : Option ℕ → Result ℕ
or_overflow o = ok_or o math_overflow

pub try_from-eq-ok : (w n : ℕ) {r : ℕ} → or_overflow (try_from w n) ≡ ok r → (r ≡ n) × (n < 2 ^ w)
unfolding try_from
try_from-eq-ok w n h = ground arith

pub add-eq-ok :
    (w a b : ℕ) {r : ℕ} → or_overflow (checked_add w a b) ≡ ok r → (r ≡ a + b) × (a + b < 2 ^ w)
unfolding checked_add
add-eq-ok w a b h = ground arith

pub mul-eq-ok :
    (w a b : ℕ) {r : ℕ} → or_overflow (checked_mul w a b) ≡ ok r → (r ≡ a * b) × (a * b < 2 ^ w)
unfolding checked_mul
mul-eq-ok w a b h = ground arith

pub sub-eq-ok : (a b : ℕ) {r : ℕ} → or_overflow (checked_sub a b) ≡ ok r → (r ≡ a - b) × (b ≤ a)
unfolding checked_sub
sub-eq-ok a b h = ground arith

pub div-eq-ok : (a b : ℕ) {r : ℕ} → or_overflow (checked_div a b) ≡ ok r → (r ≡ a / b) × (0 < b)
unfolding checked_div
div-eq-ok a b h = ground arith

-- The converses: where the result fits, the operation succeeds with it.
pub try_from-ok : (w n : ℕ) → n < 2 ^ w → try_from w n ≡ some n
unfolding try_from
try_from-ok w n h = ground arith

pub add-ok : (w a b : ℕ) → a + b < 2 ^ w → checked_add w a b ≡ some (a + b)
unfolding checked_add
add-ok w a b h = ground arith

pub mul-ok : (w a b : ℕ) → a * b < 2 ^ w → checked_mul w a b ≡ some (a * b)
unfolding checked_mul
mul-ok w a b h = ground arith

pub sub-ok : (a b : ℕ) → b ≤ a → checked_sub a b ≡ some (a - b)
unfolding checked_sub
sub-ok a b h = ground arith
