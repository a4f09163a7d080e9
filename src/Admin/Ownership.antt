-- ===== src/Admin/Ownership.antt =====
-- How the ownership of a pool changes hands (transfer_ownership.rs, accept_ownership.rs), over any
-- sequence of the administrative instructions.
use Prim.Native.String.{String}
use dlmm_auto_sell_assets_in.Base.{
  ℕ, ◌≡◌, ◌≢◌, ◌⊎◌, inl, inr, arith, subst, Option, none, some, false, get_elem?,
}
use dlmm_auto_sell_assets_in.Errors.{ok}
use dlmm_auto_sell_assets_in.State.{Pubkey, default_pubkey, StakingPool}
use dlmm_auto_sell_assets_in.Admin.Changes.{
  Change, resumed, crank_updated, treasury_updated, config_updated, ownership_offered,
  ownership_accepted, ownership_renounced, update_pool_config-eq,
}
use dlmm_auto_sell_assets_in.Admin.Authority.{code_points, is_base58, renounce_ownership_fails}
use dlmm_auto_sell_assets_in.Admin.{
  resume, update_crank, update_treasury, transfer_ownership, accept_ownership, renounce_ownership,
}

module _ (from_str : String → Option Pubkey) where
  -- Administrative instructions one after the other, each by its own signer.
  pub data Administration (start : StakingPool) : StakingPool → Type 0 where
    unchanged : Administration start start
    changed :
        {p p' : StakingPool} (signer : Pubkey)
        → Administration start p
        → Change from_str signer p p'
        → Administration start p'

  -- Among the instructions there is an offer of the pool to `k`, signed by the owner of that moment.
  pub data Offered {start : StakingPool} (k : Pubkey)
      : (p : StakingPool) → Administration start p → Type 0 where
    offer :
        {p p' : StakingPool} {h : Administration start p} {signer : Pubkey}
        {change : Change from_str signer p p'}
        → signer ≡ p.owner
        → transfer_ownership signer k p ≡ ok p'
        → Offered k p' (changed signer h change)
    earlier :
        {p p' : StakingPool} {h : Administration start p} {signer : Pubkey}
        {change : Change from_str signer p p'}
        → Offered k p h
        → Offered k p' (changed signer h change)

  -- One instruction leaves the pending owner, clears it, or is an offer by the owner.
  Change-pending :
      (signer : Pubkey) (p p' : StakingPool)
      → Change from_str signer p p'
      → (p'.pending_owner ≡ default_pubkey)
        ⊎ (p'.pending_owner ≡ p.pending_owner)
        ⊎ ((signer ≡ p.owner) × (transfer_ownership signer p'.pending_owner p ≡ ok p'))
  unfolding resume update_crank update_treasury transfer_ownership accept_ownership
      renounce_ownership
  Change-pending signer p p' (resumed h) = inr (inl (ground arith))
  Change-pending signer p p' (crank_updated k h) = inr (inl (ground arith))
  Change-pending signer p p' (treasury_updated k h) = inr (inl (ground arith))
  Change-pending signer p p' (config_updated m f h) =
      let (_, frame, _) = update_pool_config-eq signer m f p p' h in inr (inl (ground arith))
  Change-pending signer p p' (ownership_offered k h) = inr (inr (ground arith, ground arith))
  Change-pending signer p p' (ownership_accepted h) = inl (ground arith)
  Change-pending signer p p' (ownership_renounced h) = inl (ground arith)

  -- A pending owner has been offered the pool.
  pending-Offered :
      {start p : StakingPool} (k : Pubkey)
      → start.pending_owner ≡ default_pubkey
      → (h : Administration start p) → p.pending_owner ≡ k
      → k ≢ default_pubkey
      → Offered k p h
  pending-Offered k fresh unchanged e ne = absurd (ne (ground arith))
  pending-Offered k fresh (changed {p} {p'} signer h change) e ne =
      elim (Change-pending signer p p' change) [
        | inl cleared ↦ absurd (ne (ground arith))
        | inr (inl same) ↦ earlier (pending-Offered k fresh h (ground arith) ne)
        | inr (inr (signed, run)) ↦
            offer signed (subst (λ x. transfer_ownership signer x p ≡ ok p') e run)
      ]

  -- A change of the owner is an acceptance by the pending owner.
  owner_changes :
      (signer : Pubkey) (p p' : StakingPool)
      → ((text : String) (i c : ℕ)
          → get_elem? (code_points text) i ≡ some c
          → is_base58 c ≡ false
          → from_str text ≡ none)
      → p'.owner ≢ p.owner
      → Change from_str signer p p'
      → (signer ≡ p.pending_owner)
        × (signer ≢ default_pubkey)
        × (p' ≡ record p { owner = signer; pending_owner = default_pubkey })
  unfolding resume update_crank update_treasury transfer_ownership accept_ownership
  owner_changes signer p p' base58 ne (resumed h) = ground arith
  owner_changes signer p p' base58 ne (crank_updated k h) = ground arith
  owner_changes signer p p' base58 ne (treasury_updated k h) = ground arith
  owner_changes signer p p' base58 ne (config_updated m f h) =
      let (_, frame, _) = update_pool_config-eq signer m f p p' h in absurd (ne (ground arith))
  owner_changes signer p p' base58 ne (ownership_offered k h) = ground arith
  owner_changes signer p p' base58 ne (ownership_accepted h) =
      (ground arith, ground arith, ground arith)
  owner_changes signer p p' base58 ne (ownership_renounced h) =
      let fails = renounce_ownership_fails from_str signer p base58 in ground arith

  -- Ownership moves in two steps only, if parsing refuses every text with a character outside base 58.
  -- From a pool with no pending owner, whatever administrative instructions run, signed by whomever: when
  -- the next one changes the owner, its signer becomes the owner, nothing else but the offer is changed,
  -- and one of the earlier instructions was an offer of the pool to that signer, which the owner of that
  -- moment signed.
  pub ownership_two_steps :
      (signer : Pubkey) (start p p' : StakingPool)
      → ((text : String) (i c : ℕ)
          → get_elem? (code_points text) i ≡ some c
          → is_base58 c ≡ false
          → from_str text ≡ none)
      → start.pending_owner ≡ default_pubkey
      → (h : Administration start p) → p'.owner ≢ p.owner
      → Change from_str signer p p'
      → Offered signer p h
        × (signer ≢ default_pubkey)
        × (p' ≡ record p { owner = signer; pending_owner = default_pubkey })
  ownership_two_steps signer start p p' base58 fresh h ne change =
      let (pending, real, eq) = owner_changes signer p p' base58 ne change in
      (pending-Offered signer fresh h (ground arith) real, real, eq)
