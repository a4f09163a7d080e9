-- ===== src/Admin/Changes.antt =====
-- The administrative instructions as one relation, and what they keep.
use Prim.Native.String.{String}
use dlmm_auto_sell_assets_in.Base.{ℕ, ◌≡◌, ◌≤◌, ◌<◌, arith, Option, none, some, ◌==◌, ==→≡}
use dlmm_auto_sell_assets_in.Errors.{ok, unauthorized, >>=-eq-ok, require-eq-ok}
use dlmm_auto_sell_assets_in.Constants.{max_protocol_fee_bps}
use dlmm_auto_sell_assets_in.State.{Pubkey, StakingPool}
use dlmm_auto_sell_assets_in.Admin.{
  resume, update_crank, update_treasury, set_min_stake, set_fee, update_pool_config,
  transfer_ownership, accept_ownership, renounce_ownership,
}

-- One administrative instruction, signed by `signer`.
pub data Change (from_str : String → Option Pubkey) (signer : Pubkey) (p p' : StakingPool)
    : Type 0 where
  resumed : resume signer p ≡ ok p' → Change from_str signer p p'
  crank_updated : (k : Pubkey) → update_crank signer k p ≡ ok p' → Change from_str signer p p'
  treasury_updated : (k : Pubkey) → update_treasury signer k p ≡ ok p' → Change from_str signer p p'
  config_updated :
      (min_stake fee_bps : Option ℕ)
      → update_pool_config signer min_stake fee_bps p ≡ ok p'
      → Change from_str signer p p'
  ownership_offered :
      (k : Pubkey) → transfer_ownership signer k p ≡ ok p' → Change from_str signer p p'
  ownership_accepted : accept_ownership signer p ≡ ok p' → Change from_str signer p p'
  ownership_renounced : renounce_ownership from_str signer p ≡ ok p' → Change from_str signer p p'

-- The fee and the minimum stake are in their bounds.
pub record IsConfigured (p : StakingPool) : Type 0 where
  pub fee : p.protocol_fee_bps ≤ max_protocol_fee_bps
  pub min_stake : 0 < p.min_stake_amount

set_min_stake-eq :
    (o : Option ℕ) (p p' : StakingPool)
    → set_min_stake o p ≡ ok p'
    → (p' ≡ record p { min_stake_amount = p'.min_stake_amount })
      × (0 < p.min_stake_amount → 0 < p'.min_stake_amount)
unfolding set_min_stake
set_min_stake-eq none p p' h = (ground arith, λ m. ground arith)
set_min_stake-eq (some n) p p' h = (ground arith, λ m. ground arith)

set_fee-eq :
    (o : Option ℕ) (p p' : StakingPool)
    → set_fee o p ≡ ok p'
    → (p' ≡ record p { protocol_fee_bps = p'.protocol_fee_bps })
      × (p.protocol_fee_bps ≤ max_protocol_fee_bps → p'.protocol_fee_bps ≤ max_protocol_fee_bps)
unfolding set_fee
set_fee-eq none p p' h = (ground arith, λ m. ground arith)
set_fee-eq (some n) p p' h = (ground arith, λ m. ground arith)

pub update_pool_config-eq :
    (signer : Pubkey) (min_stake fee_bps : Option ℕ) (p p' : StakingPool)
    → update_pool_config signer min_stake fee_bps p ≡ ok p'
    → (signer ≡ p.owner)
      × (p' ≡ record p {
        min_stake_amount = p'.min_stake_amount;
        protocol_fee_bps = p'.protocol_fee_bps;
      })
      × (IsConfigured p → IsConfigured p')
unfolding update_pool_config
update_pool_config-eq signer min_stake fee_bps p p' h =
    let (signed, h1) = require-eq-ok (signer == p.owner) unauthorized _ h in
    let (mid, me, h2) = >>=-eq-ok (set_min_stake min_stake p) _ h1 in
    let (frame, positive) = set_min_stake-eq min_stake p mid me in
    let (frame', bounded) = set_fee-eq fee_bps mid p' h2 in
    (
      ==→≡ signer p.owner signed,
      ground arith,
      λ i. record {
        fee = bounded (ground (arith, i.fee));
        min_stake = ground (arith, positive i.min_stake);
      },
    )

pub kept-IsConfigured :
    (p p' : StakingPool)
    → IsConfigured p
    → p'.protocol_fee_bps ≡ p.protocol_fee_bps
    → p'.min_stake_amount ≡ p.min_stake_amount
    → IsConfigured p'
kept-IsConfigured p p' i fee min_stake = record {
  fee = omega (arith, i.fee);
  min_stake = omega (arith, i.min_stake);
}

-- What no administrative instruction touches.
abbrev pub SameReserves : StakingPool → StakingPool → Type 0
SameReserves p p' = p' ≡ record p {
  owner = p'.owner;
  crank = p'.crank;
  treasury = p'.treasury;
  protocol_fee_bps = p'.protocol_fee_bps;
  min_stake_amount = p'.min_stake_amount;
  pending_owner = p'.pending_owner;
  is_paused = p'.is_paused;
}

module _ (from_str : String → Option Pubkey) (signer : Pubkey) (p p' : StakingPool) where
  pub Change-SameReserves : Change from_str signer p p' → SameReserves p p'
  unfolding resume update_crank update_treasury transfer_ownership accept_ownership
      renounce_ownership
  Change-SameReserves (resumed h) = ground arith
  Change-SameReserves (crank_updated k h) = ground arith
  Change-SameReserves (treasury_updated k h) = ground arith
  Change-SameReserves (config_updated m f h) =
      let (_, frame, _) = update_pool_config-eq signer m f p p' h in ground arith
  Change-SameReserves (ownership_offered k h) = ground arith
  Change-SameReserves (ownership_accepted h) = ground arith
  Change-SameReserves (ownership_renounced h) = ground arith

  pub Change-IsConfigured : Change from_str signer p p' → IsConfigured p → IsConfigured p'
  unfolding resume update_crank update_treasury transfer_ownership accept_ownership
      renounce_ownership
  Change-IsConfigured (resumed h) i = kept-IsConfigured p p' i (ground arith) (ground arith)
  Change-IsConfigured (crank_updated k h) i = kept-IsConfigured p p' i (ground arith) (ground arith)
  Change-IsConfigured (treasury_updated k h) i =
      kept-IsConfigured p p' i (ground arith) (ground arith)
  Change-IsConfigured (config_updated m f h) i =
      let (_, _, kept) = update_pool_config-eq signer m f p p' h in kept i
  Change-IsConfigured (ownership_offered k h) i =
      kept-IsConfigured p p' i (ground arith) (ground arith)
  Change-IsConfigured (ownership_accepted h) i =
      kept-IsConfigured p p' i (ground arith) (ground arith)
  Change-IsConfigured (ownership_renounced h) i =
      kept-IsConfigured p p' i (ground arith) (ground arith)
