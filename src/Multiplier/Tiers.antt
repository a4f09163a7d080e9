-- ===== src/Multiplier/Tiers.antt =====
-- The tiers that `get_multiplier` (programs/brain-staking/src/helpers.rs) assigns, stated by sums of
-- a timestamp and a threshold, with no saturation.
use dlmm_auto_sell_assets_in.Base.{ℕ, ◌≤◌, ◌≡◌, ◌↔◌, arith, if◌then◌else◌}
use dlmm_auto_sell_assets_in.Base.Int.{ℤ, pos, ◌≤ℤ◌, ◌+ℤ◌, leb_ℤ, leb-saturating_sub}
use dlmm_auto_sell_assets_in.Constants.{tier_1_threshold, tier_2_threshold, tier_3_threshold}
use dlmm_auto_sell_assets_in.Multiplier.{get_multiplier}

-- The tests of the source with the saturating subtraction taken out.
abbrev tiers : ℤ → ℤ → ℕ
tiers s t =
    if leb_ℤ (s +ℤ pos tier_3_threshold) t
    then 3
    else if leb_ℤ (s +ℤ pos tier_2_threshold) t
    then 2
    else if leb_ℤ (s +ℤ pos tier_1_threshold) t
    then 1
    else 0

get_multiplier-eq-tiers : (s t : ℤ) → get_multiplier s t ≡ tiers s t
unfolding get_multiplier
get_multiplier-eq-tiers s t = simp (
  leb-saturating_sub tier_3_threshold t s (omega arith),
  leb-saturating_sub tier_2_threshold t s (omega arith),
  leb-saturating_sub tier_1_threshold t s (omega arith),
)

-- For every stake and clock value, also where the subtraction saturates: the multiplier reaches 1, 2
-- or 3 exactly when 7, 30 or 90 days have passed since the stake, and is never above 3.
pub get_multiplier_tiers :
    (s t : ℤ)
    → ((1 ≤ get_multiplier s t) ↔ (s +ℤ pos tier_1_threshold ≤ℤ t))
      × ((2 ≤ get_multiplier s t) ↔ (s +ℤ pos tier_2_threshold ≤ℤ t))
      × ((3 ≤ get_multiplier s t) ↔ (s +ℤ pos tier_3_threshold ≤ℤ t))
      × (get_multiplier s t ≤ 3)
get_multiplier_tiers s t = rw get_multiplier-eq-tiers (unfold ◌+ℤ◌ in ground arith)

-- As time passes the multiplier of a stake never falls.
pub get_multiplier_mono : (s t u : ℤ) → t ≤ℤ u → get_multiplier s t ≤ get_multiplier s u
get_multiplier_mono s t u h =
    rw (get_multiplier-eq-tiers s t, get_multiplier-eq-tiers s u) (unfold ◌+ℤ◌ in ground arith)

pub get_multiplier-le : (s t : ℤ) → get_multiplier s t ≤ 3
get_multiplier-le s t = (get_multiplier_tiers s t).3
