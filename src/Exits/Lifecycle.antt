-- ===== src/Exits/Lifecycle.antt =====
-- The life of an exit tracker: any sequence of recorded claims, completions, terminations and
-- reallocations.
use dlmm_auto_sell_assets_in.Base.{
  ℕ, ◌+◌, ◌^◌, ◌≡◌, ◌≢◌, ◌≤◌, ◌<◌, ◌⊎◌, ◌↔◌, arith, refl, sym, ap, subst, inl, inr, leb, ◌==◌,
  Bool-cases, ◌∙◌, Option, none, List, [], ◌∷◌, sum,
}
use dlmm_auto_sell_assets_in.Base.Int.{ℤ}
use dlmm_auto_sell_assets_in.Errors.{ok, unauthorized, >>=-eq-ok, require-eq-ok, ok-injective}
use dlmm_auto_sell_assets_in.Checked.{checked_add, try_from}
use dlmm_auto_sell_assets_in.State.{Pubkey, StakingPool, DlmmExit}
use dlmm_auto_sell_assets_in.Exits.{
  Call, new_exit, initiate_exit, record_claim, complete_exit, terminate_exit, close_dlmm_exit,
}
use dlmm_auto_sell_assets_in.Exits.Runs.{
  Run, begun, recorded, completed, terminated, resized, AreDistinct, Follows,
}
use dlmm_auto_sell_assets_in.Runtime.{Bank, Runtime}
use dlmm_auto_sell_assets_in.Realloc.{
  Resizing, Resized, new_size, grow_account, realloc_account, realloc_dlmm_exit,
}

-- A claim is recorded exactly when the owner or the crank asks for it, on an active tracker of its
-- pool, for a positive amount that differs from the last one and keeps the total below 2^64; then the
-- amount is added to the total and remembered as the last one.
pub record_claim_iff :
    (call : Call) (amount : ℕ) (pool : StakingPool) (e e' : DlmmExit)
    → (record_claim call amount pool e ≡ ok e') ↔ (
        ((call.authority ≡ pool.owner) ⊎ (call.authority ≡ pool.crank))
        × (e.pool ≡ call.pool_key)
        × (0 < amount)
        × (e.status ≡ 0)
        × (e.last_claimed_amount ≢ amount)
        × (e.total_sol_claimed + amount < 2 ^ 64)
        × (e' ≡ record e {
          total_sol_claimed = e.total_sol_claimed + amount;
          last_claimed_amount = amount;
        }))
unfolding record_claim checked_add try_from
record_claim_iff call amount pool e e' = (
  λ h. (
    ground arith,
    ground arith,
    ground arith,
    ground arith,
    ground arith,
    ground arith,
    ground arith,
  ),
  λ h. ground arith,
)

step-Follows :
    {start : DlmmExit} {amounts : List ℕ} (e e' : DlmmExit) (status : ℕ) (at : ℤ)
    → status ≤ 2
    → Follows start amounts e
    → e' ≡ record e { status = status; completed_at = at }
    → Follows start amounts e'
step-Follows e e' status at le f h = subst (Follows _ _) (sym h) (record {
  frame = ground (arith, f.frame);
  total = f.total;
  last = f.last;
  distinct = f.distinct;
  bounded = le;
})

complete_exit_iff :
    (call : Call) (pool : StakingPool) (e e' : DlmmExit)
    → (complete_exit call pool e ≡ ok e') ↔ (
        ((call.authority ≡ pool.owner) ⊎ (call.authority ≡ pool.crank))
        × (e.pool ≡ call.pool_key)
        × (e.status ≡ 0)
        × (e' ≡ record e { status = 1; completed_at = call.now }))
unfolding complete_exit
complete_exit_iff call pool e e' =
    (λ h. (ground arith, ground arith, ground arith, ground arith), λ h. ground arith)

terminate_exit_iff :
    (call : Call) (pool : StakingPool) (e e' : DlmmExit)
    → (terminate_exit call pool e ≡ ok e') ↔ (
        (call.authority ≡ pool.owner)
        × (e.status ≡ 0)
        × (e' ≡ record e { status = 2; completed_at = call.now }))
unfolding terminate_exit
terminate_exit_iff call pool e e' =
    (λ h. (ground arith, ground arith, ground arith), λ h. ground arith)

-- Growing a tracker leaves its fields as they are: the one that is set to 0 was 0.
realloc_dlmm_exit-eq :
    (rt : Runtime) (owner : Pubkey) (r : Resizing) (pool : StakingPool) (e : DlmmExit) (bank : Bank)
    (grown : Resized DlmmExit)
    → realloc_dlmm_exit rt owner r pool e bank ≡ ok grown
    → grown.account ≡ e
unfolding realloc_dlmm_exit realloc_account
realloc_dlmm_exit-eq rt owner r pool e bank grown h =
    let (_, h1) = require-eq-ok (owner == pool.owner) unauthorized _ h in
    elim (Bool-cases (leb (new_size r) r.data_len)) [
      | inl long ↦ sym (ap (λ (x : Resized DlmmExit). x.account) (ok-injective (rw long at h1)))
      | inr short ↦
          let (_, _, h2) = >>=-eq-ok (grow_account rt owner r bank) _ (rw short at h1) in
          let same = ap (λ (x : Resized DlmmExit). x.account) (ok-injective h2) in
          sym same ∙ elim (Bool-cases (e.last_claimed_amount == 0)) [
            | inl unclaimed ↦ ground arith
            | inr claimed ↦ ground arith
          ]
    ]

Run-Follows :
    {start : DlmmExit} {amounts : List ℕ} {e : DlmmExit}
    → start.last_claimed_amount ≡ 0
    → start.status ≤ 2
    → Run start amounts e
    → Follows start amounts e
Run-Follows zero_last le begun = record {
  frame = refl;
  total = omega arith;
  last = zero_last;
  distinct = tt;
  bounded = le;
}
Run-Follows zero_last le (recorded {amounts} {e} {e'} call amount pool r h) =
    let f = Run-Follows zero_last le r in
    let (_, _, positive, active, fresh, _, eq) = (record_claim_iff call amount pool e e').0 h in
    subst (Follows _ (amount ∷ amounts)) (sym eq) (record {
      frame = ground (arith, f.frame);
      total = omega (arith, f.total);
      last = refl;
      distinct = (positive, λ a. fresh (ground (arith, f.last)), f.distinct);
      bounded = f.bounded;
    })
Run-Follows zero_last le (completed {e = e} {e'} call pool r h) =
    step-Follows e e' 1 call.now (omega arith) (Run-Follows zero_last le r)
      ((complete_exit_iff call pool e e').0 h).3
Run-Follows zero_last le (terminated {e = e} {e'} call pool r h) =
    step-Follows e e' 2 call.now (omega arith) (Run-Follows zero_last le r)
      ((terminate_exit_iff call pool e e').0 h).2
Run-Follows zero_last le (resized {amounts} {e} {grown} rt owner r pool bank run h) =
    subst (Follows _ amounts) (sym (realloc_dlmm_exit-eq rt owner r pool e bank grown h))
      (Run-Follows zero_last le run)

-- From its initiation on, whatever is recorded, completed, terminated or reallocated, by whichever calls: the
-- tracker's total is the sum of the amounts recorded, of which none is 0 or equal to the one before it;
-- its asset, pool, position, owner and time of creation stay; and its status is one of the three.
pub tracker_history :
    (call : Call) (asset_mint dlmm_pool position : Pubkey) (pool : StakingPool)
    (account : Option DlmmExit) (start e : DlmmExit) (amounts : List ℕ)
    → initiate_exit call asset_mint dlmm_pool position pool account ≡ ok start
    → Run start amounts e
    → (account ≡ none)
      × (start ≡ new_exit call pool.owner asset_mint dlmm_pool position 0)
      × (e.total_sol_claimed ≡ sum amounts)
      × AreDistinct amounts
      × (e.status ≤ 2)
      × (e ≡ record start {
        total_sol_claimed = e.total_sol_claimed;
        status = e.status;
        completed_at = e.completed_at;
        last_claimed_amount = e.last_claimed_amount;
      })
unfolding initiate_exit
tracker_history call asset_mint dlmm_pool position pool account start e amounts h r =
    let eq : start ≡ new_exit call pool.owner asset_mint dlmm_pool position 0 = ground arith in
    let f = Run-Follows (ground arith) (ground arith) r in
    (
      ground arith,
      eq,
      omega (arith, f.total, ap (λ (x : DlmmExit). x.total_sol_claimed) eq),
      f.distinct,
      f.bounded,
      f.frame,
    )

Run-finished :
    {e e' : DlmmExit} {amounts : List ℕ}
    → e.status ≢ 0
    → Run e amounts e'
    → (e' ≡ e) × (amounts ≡ [])
Run-finished done begun = (refl, refl)
Run-finished done (recorded {e = m} {e'} call amount pool r h) =
    let (same, _) = Run-finished done r in
    let (_, _, _, active, _, _, _) = (record_claim_iff call amount pool m e').0 h in
    absurd (done (ap (λ (x : DlmmExit). x.status) (sym same) ∙ active))
Run-finished done (completed {e = m} {e'} call pool r h) =
    let (same, _) = Run-finished done r in
    let (_, _, active, _) = (complete_exit_iff call pool m e').0 h in
    absurd (done (ap (λ (x : DlmmExit). x.status) (sym same) ∙ active))
Run-finished done (terminated {e = m} {e'} call pool r h) =
    let (same, _) = Run-finished done r in
    let (_, active, _) = (terminate_exit_iff call pool m e').0 h in
    absurd (done (ap (λ (x : DlmmExit). x.status) (sym same) ∙ active))
Run-finished done (resized {e = m} {grown} rt owner r pool bank run h) =
    let (same, none_recorded) = Run-finished done run in
    (realloc_dlmm_exit-eq rt owner r pool m bank grown h ∙ same, none_recorded)

-- A tracker that is completed or terminated never changes again, whatever instructions to record a claim,
-- complete, terminate or reallocate are tried, and no further claim is recorded on it. A tracker, in any
-- state, is closed exactly when the pool's owner asks for it and it is no longer active.
pub finished_exit :
    (e e' x : DlmmExit) (amounts : List ℕ) (call : Call) (pool : StakingPool)
    → e.status ≢ 0
    → Run e amounts e'
    → (e' ≡ e)
      × (amounts ≡ [])
      × ((close_dlmm_exit call pool x ≡ ok none) ↔ ((call.authority ≡ pool.owner) × (x.status ≢ 0)))
unfolding close_dlmm_exit
finished_exit e e' x amounts call pool done r =
    let (same, none_recorded) = Run-finished done r in
    (same, none_recorded, (λ h. (ground arith, ground arith), λ h. ground arith))

-- The guard against a replay looks at the last amount only: after two different claims the first one is
-- accepted again, and counted again, while the total fits in 64 bits.
pub replayed_claim_accepted :
    (first second third : Call) (a b : ℕ) (pool : StakingPool) (e e1 e2 : DlmmExit)
    → a ≢ b
    → third.authority ≡ first.authority
    → third.pool_key ≡ first.pool_key
    → e2.total_sol_claimed + a < 2 ^ 64
    → record_claim first a pool e ≡ ok e1
    → record_claim second b pool e1 ≡ ok e2
    → (e3 : DlmmExit) × (record_claim third a pool e2 ≡ ok e3)
      × (e3.total_sol_claimed ≡ e.total_sol_claimed + a + b + a)
replayed_claim_accepted first second third a b pool e e1 e2 ne same_signer same_pool fits h k =
    let (allowed, p, positive, active, _, _, eq1) = (record_claim_iff first a pool e e1).0 h in
    let (_, _, _, _, _, _, eq2) = (record_claim_iff second b pool e1 e2).0 k in
    let e3 = record e2 { total_sol_claimed = e2.total_sol_claimed + a; last_claimed_amount = a } in
    (
      e3,
      (record_claim_iff third a pool e2 e3).1
          (rw same_signer allowed, ground arith, positive, ground arith, ground arith, fits, refl),
      ground arith,
    )
