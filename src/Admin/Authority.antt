-- ===== src/Admin/Authority.antt =====
-- Who can change the pool by the administrative instructions, and what those cannot touch.
use Prim.Native.Char.{code}
use Prim.Native.String.{String}
use dlmm_auto_sell_assets_in.Base.{
  ℕ, ◌≡◌, ◌≢◌, ◌⊎◌, inl, inr, arith, refl, Option, none, some, Bool, false, not, ◌&&◌, ◌||◌, leb,
  ◌==◌, if◌then◌else◌, List, [], ◌∷◌, get_elem?, Bool-cases,
}
use dlmm_auto_sell_assets_in.Errors.{err, staking, unauthorized, math_overflow}
use dlmm_auto_sell_assets_in.State.{Pubkey, default_pubkey, StakingPool}
use dlmm_auto_sell_assets_in.Admin.Changes.{
  Change, resumed, crank_updated, treasury_updated, config_updated, ownership_offered,
  ownership_accepted, ownership_renounced, IsConfigured, update_pool_config-eq, Change-SameReserves,
  Change-IsConfigured,
}
use dlmm_auto_sell_assets_in.Admin.{
  resume, update_crank, update_treasury, transfer_ownership, accept_ownership, burn_address,
  renounce_ownership,
}

Change-signed :
    (from_str : String → Option Pubkey) (signer : Pubkey) (p p' : StakingPool)
    → Change from_str signer p p'
    → (signer ≡ p.owner)
      ⊎ ((signer ≡ p.pending_owner) × (signer ≢ default_pubkey) × (p'.owner ≡ signer))
unfolding resume update_crank update_treasury transfer_ownership accept_ownership renounce_ownership
Change-signed from_str signer p p' (resumed h) = inl (ground arith)
Change-signed from_str signer p p' (crank_updated k h) = inl (ground arith)
Change-signed from_str signer p p' (treasury_updated k h) = inl (ground arith)
Change-signed from_str signer p p' (config_updated m f h) =
    inl (update_pool_config-eq signer m f p p' h).0
Change-signed from_str signer p p' (ownership_offered k h) = inl (ground arith)
Change-signed from_str signer p p' (ownership_accepted h) =
    inr (ground arith, ground arith, ground arith)
Change-signed from_str signer p p' (ownership_renounced h) = inl (ground arith)

-- Every administrative instruction that succeeds is signed by the owner, or by the pending owner, who
-- thereby becomes the owner; it leaves the vaults, the mint, the stakes, the accumulator and the rewards
-- distributed as they are, and a pool whose fee and minimum stake are in bounds stays so.
pub administration_authorised :
    (from_str : String → Option Pubkey) (signer : Pubkey) (p p' : StakingPool)
    → IsConfigured p
    → Change from_str signer p p'
    → ((signer ≡ p.owner)
        ⊎ ((signer ≡ p.pending_owner) × (signer ≢ default_pubkey) × (p'.owner ≡ signer)))
      × (p' ≡ record p {
        owner = p'.owner;
        crank = p'.crank;
        treasury = p'.treasury;
        protocol_fee_bps = p'.protocol_fee_bps;
        min_stake_amount = p'.min_stake_amount;
        pending_owner = p'.pending_owner;
        is_paused = p'.is_paused;
      })
      × IsConfigured p'
administration_authorised from_str signer p p' i change = (
  Change-signed from_str signer p p' change,
  Change-SameReserves from_str signer p p' change,
  Change-IsConfigured from_str signer p p' change i,
)

-- The code points of a text.
abbrev pub code_points : String → List ℕ
code_points (String.◌∷◌ first rest) = code first ∷ code_points rest
code_points String.[] = []

-- The alphabet of base 58: digits and letters but for 0, I, O and l.
abbrev pub is_base58 : ℕ → Bool
is_base58 c =
    leb b'1' c && leb c b'9'
    || leb b'A' c && leb c b'Z' && not (c == b'I') && not (c == b'O')
    || leb b'a' c && leb c b'z' && not (c == b'l')

-- If parsing refuses every text with a character outside base 58, then renouncing the ownership fails
-- for everyone: for the owner with an overflow error, as the burn address holds a capital I, and for any
-- other signer as unauthorized.
pub renounce_ownership_fails :
    (from_str : String → Option Pubkey) (signer : Pubkey) (p : StakingPool)
    → ((text : String) (i c : ℕ)
        → get_elem? (code_points text) i ≡ some c
        → is_base58 c ≡ false
        → from_str text ≡ none)
    → renounce_ownership from_str signer p
      ≡ (if signer == p.owner then err (staking math_overflow) else err (staking unauthorized))
unfolding renounce_ownership
renounce_ownership_fails from_str signer p base58 =
    let unparsed : from_str burn_address ≡ none = base58 burn_address 2 b'I' refl refl in
    elim (Bool-cases (signer == p.owner)) [
      | inl same ↦ rw (same, unparsed) refl
      | inr other ↦ rw other refl
    ]
