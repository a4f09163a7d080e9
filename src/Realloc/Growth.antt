-- ===== src/Realloc/Growth.antt =====
-- Accounts after a reallocation: long enough, paid for, and not touched a second time.
use dlmm_auto_sell_assets_in.Base.{
  ℕ, ◌-◌, ◌≡◌, ◌≢◌, ◌≤◌, ◌<◌, ◌⊎◌, inl, inr, arith, refl, sym, ap, subst, ◌∙◌, Option, true, false,
  ltb, leb, ◌==◌, if◌then◌else◌, Bool-cases, ==→≡,
}
use dlmm_auto_sell_assets_in.Errors.{ok, unauthorized, >>=-eq-ok, require-eq-ok, ok-injective}
use dlmm_auto_sell_assets_in.State.{
  Pubkey, StakingPool, DlmmExit, GovernanceConfig, Proposal, VoteRecord,
}
use dlmm_auto_sell_assets_in.Runtime.{Bank, Runtime}
use dlmm_auto_sell_assets_in.Runtime.Laws.{IsRuntime}
use dlmm_auto_sell_assets_in.Exits.{Call}
use dlmm_auto_sell_assets_in.Governance.Execution.{governance_initiate_exit}
use dlmm_auto_sell_assets_in.Base.Assoc.{Assoc}
use dlmm_auto_sell_assets_in.Governance.Election.{Election, History}
use dlmm_auto_sell_assets_in.Governance.Election.Finality.{election-IsFinal}
use dlmm_auto_sell_assets_in.Governance.Execution.Timelock.{governance_exit_needs}
use dlmm_auto_sell_assets_in.Realloc.{
  Resizing, new_size, grow_account, Resized, realloc_account, realloc_proposal,
}

-- `AccountInfo::realloc` sets the length, where it succeeds.
abbrev pub SetsLength : Resizing → Type 0
SetsLength r = (old new len : ℕ) → r.realloc old new ≡ ok len → len ≡ new

-- Data that are long enough are left alone.
realloc_long :
    {T : Type 0} (set_fields : T → T) (rt : Runtime) (owner : Pubkey) (r : Resizing)
    (pool : StakingPool) (account : T) (bank : Bank)
    → (owner == pool.owner) ≡ true
    → leb (new_size r) r.data_len ≡ true
    → realloc_account set_fields rt owner r pool account bank
      ≡ ok (record { account = account; len = r.data_len; bank = bank })
unfolding realloc_account
realloc_long set_fields rt owner r pool account bank signed long = rw (signed, long) refl

module _ (rt : Runtime) (laws : IsRuntime rt) where
  grow_account_funds :
      (owner : Pubkey) (r : Resizing) (bank bank' : Bank) (len : ℕ)
      → SetsLength r
      → owner ≢ r.key
      → grow_account rt owner r bank ≡ ok (len, bank')
      → (len ≡ new_size r) × (rt.minimum_balance (new_size r) ≤ bank'.lamports r.key)
  unfolding grow_account
  grow_account_funds owner r bank bank' len sets ne h =
      let diff = rt.minimum_balance (new_size r) - bank.lamports r.key in
      let (funded, fe, h1) =
        >>=-eq-ok (if ltb 0 diff then rt.system_transfer owner r.key diff bank else ok bank) _ h in
      let (n, re, h2) = >>=-eq-ok (r.realloc r.data_len (new_size r)) _ h1 in
      let same_len : n ≡ len = ap (λ (x : ℕ × Bank). x.0) (ok-injective h2) in
      let same_bank : funded ≡ bank' = ap (λ (x : ℕ × Bank). x.1) (ok-injective h2) in
      (
        sym same_len ∙ sets r.data_len (new_size r) n re,
        rw (← same_bank) (elim (Bool-cases (ltb 0 diff)) [
          | inl short ↦
              let got = laws.system.target owner r.key diff bank funded (rw short at fe) ne in
              omega (arith, got)
          | inr enough ↦
              let kept : bank ≡ funded = ok-injective (rw enough at fe) in
              rw (← kept) (ground arith)
        ]),
      )

  -- A reallocation that succeeds is asked for by the owner, over transfers that move what they are asked
  -- to: the data are then as long as the account needs, an account that has grown holds the rent for its
  -- new length, and any further reallocation by an owner, with those data, changes nothing at all.
  pub realloc_grows :
      {T : Type 0} (set_fields : T → T) (owner : Pubkey) (r : Resizing) (pool : StakingPool)
      (account : T) (bank : Bank) (done : Resized T)
      → SetsLength r
      → owner ≢ r.key
      → realloc_account set_fields rt owner r pool account bank ≡ ok done
      → (owner ≡ pool.owner)
        × (new_size r ≤ done.len)
        × ((r.data_len ≡ done.len) ⊎ (rt.minimum_balance (new_size r) ≤ done.bank.lamports r.key))
        × (realloc_account set_fields rt owner
              (record r { data_len = done.len })
              pool
              done.account
              done.bank
            ≡ ok done)
  unfolding realloc_account
  realloc_grows {T} set_fields owner r pool account bank done sets ne h =
      let (signed, h1) = require-eq-ok (owner == pool.owner) unauthorized _ h in
      elim (Bool-cases (leb (new_size r) r.data_len)) [
        | inl large ↦
            let e = ok-injective (rw large at h1) in
            let len : r.data_len ≡ done.len = ap (λ (x : Resized T). x.len) e in
            let long : leb (new_size r) done.len ≡ true = ap (leb (new_size r)) (sym len) ∙ large in
            (
              ==→≡ owner pool.owner signed,
              ground arith,
              inl len,
              realloc_long set_fields rt owner (record r { data_len = done.len }) pool done.account
                  done.bank signed long,
            )
        | inr small ↦
            let ((len, bank'), ge, h2) =
              >>=-eq-ok (grow_account rt owner r bank) _ (rw small at h1) in
            let e = ok-injective h2 in
            let (sized, funded) = grow_account_funds owner r bank bank' len sets ne ge in
            let same : len ≡ done.len = ap (λ (x : Resized T). x.len) e in
            let paid : bank' ≡ done.bank = ap (λ (x : Resized T). x.bank) e in
            let exact : done.len ≡ new_size r = sym same ∙ sized in
            let long : leb (new_size r) done.len ≡ true = ground arith in
            (
              ==→≡ owner pool.owner signed,
              omega arith,
              inr (
                  subst (λ (b : Bank). rt.minimum_balance (new_size r) ≤ b.lamports r.key) paid
                    funded),
              realloc_long set_fields rt owner (record r { data_len = done.len }) pool done.account
                  done.bank signed long,
            )
      ]

grown_proposal :
    (rt : Runtime) (owner : Pubkey) (r : Resizing) (pool : StakingPool) (p : Proposal) (bank : Bank)
    (done : Resized Proposal)
    → r.data_len < new_size r
    → realloc_proposal rt owner r pool p bank ≡ ok done
    → done.account ≡ record p { winning_option_index = 255; executed = false }
unfolding realloc_proposal realloc_account
grown_proposal rt owner r pool p bank done small h =
    let (_, h1) = require-eq-ok (owner == pool.owner) unauthorized _ h in
    let short : leb (new_size r) r.data_len ≡ false = ground arith in
    let ((len, bank'), ge, h2) = >>=-eq-ok (grow_account rt owner r bank) _ (rw short at h1) in
    ap (λ (x : Resized Proposal). x.account) (sym (ok-injective h2))

-- A proposal that is already closed and is then grown can never be executed by an exit, even if it passed:
-- growing it leaves it with no winning option, no later vote, withdrawal of a record, closing or execution
-- gives it one, and after any sequence of those governance_initiate_exit fails, whoever signs.
pub grown_proposal_not_executable :
    (rt : Runtime) (owner : Pubkey) (r : Resizing) (pool pool' : StakingPool) (p : Proposal)
    (bank : Bank) (done : Resized Proposal) (vote_records : Assoc VoteRecord) (e : Election)
    (call : Call) (asset_mint dlmm_pool position : Pubkey) (config : GovernanceConfig)
    (account : Option DlmmExit) (result : DlmmExit × Proposal)
    → p.status ≢ 0
    → r.data_len < new_size r
    → realloc_proposal rt owner r pool p bank ≡ ok done
    → History (record { proposal = done.account; vote_records = vote_records }) e
    → governance_initiate_exit call asset_mint dlmm_pool position pool' config account e.proposal
      ≢ ok result
grown_proposal_not_executable rt owner r pool pool' p bank done vote_records e call asset_mint
      dlmm_pool position config account result over small h events k =
    let grown = grown_proposal rt owner r pool p bank done small h in
    let still : done.account.status ≢ 0 = λ z. over (ground arith) in
    let final = (election-IsFinal still events).result in
    let (_, _, _, _, won, _, _, _, _, _) =
      governance_exit_needs call asset_mint dlmm_pool position pool' config account e.proposal
        result.1 result.0 k in
    ground (arith, grown, final, won)
