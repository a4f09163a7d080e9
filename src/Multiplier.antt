-- ===== src/Multiplier.antt =====
-- programs/brain-staking/src/helpers.rs: the tier multiplier of a stake.
pub mod Tiers
use dlmm_auto_sell_assets_in.Base.{ℕ, if◌then◌else◌}
use dlmm_auto_sell_assets_in.Base.Int.{ℤ, pos, leb_ℤ, saturating_sub}
use dlmm_auto_sell_assets_in.Constants.{tier_1_threshold, tier_2_threshold, tier_3_threshold}

unfoldable pub get_multiplier : ℤ → ℤ → ℕ
get_multiplier stake_timestamp current_timestamp =
    let elapsed = saturating_sub current_timestamp stake_timestamp in
    if leb_ℤ (pos tier_3_threshold) elapsed
    then 3
    else if leb_ℤ (pos tier_2_threshold) elapsed
    then 2
    else if leb_ℤ (pos tier_1_threshold) elapsed
    then 1
    else 0
