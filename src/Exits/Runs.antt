-- ===== src/Exits/Runs.antt =====
-- The instructions that reach an exit tracker after its initiation, as one relation: record_claim.rs,
-- complete_exit.rs, terminate_exit.rs and realloc_dlmm_exit.rs.
use dlmm_auto_sell_assets_in.Base.{ℕ, ◌+◌, ◌≡◌, ◌≢◌, ◌≤◌, ◌<◌, List, [], ◌∷◌, sum}
use dlmm_auto_sell_assets_in.Errors.{ok}
use dlmm_auto_sell_assets_in.State.{Pubkey, StakingPool, DlmmExit}
use dlmm_auto_sell_assets_in.Runtime.{Bank, Runtime}
use dlmm_auto_sell_assets_in.Exits.{Call, record_claim, complete_exit, terminate_exit}
use dlmm_auto_sell_assets_in.Realloc.{Resizing, Resized, realloc_dlmm_exit}

-- The instructions that reach a tracker from `start`, with the amounts recorded, the latest first.
pub data Run (start : DlmmExit) : List ℕ → DlmmExit → Type 0 where
  begun : Run start [] start
  recorded :
      {amounts : List ℕ} {e e' : DlmmExit} (call : Call) (amount : ℕ) (pool : StakingPool)
      → Run start amounts e
      → record_claim call amount pool e ≡ ok e'
      → Run start (amount ∷ amounts) e'
  completed :
      {amounts : List ℕ} {e e' : DlmmExit} (call : Call) (pool : StakingPool)
      → Run start amounts e
      → complete_exit call pool e ≡ ok e'
      → Run start amounts e'
  terminated :
      {amounts : List ℕ} {e e' : DlmmExit} (call : Call) (pool : StakingPool)
      → Run start amounts e
      → terminate_exit call pool e ≡ ok e'
      → Run start amounts e'
  resized :
      {amounts : List ℕ} {e : DlmmExit} {grown : Resized DlmmExit} (rt : Runtime) (owner : Pubkey)
      (r : Resizing) (pool : StakingPool) (bank : Bank)
      → Run start amounts e
      → realloc_dlmm_exit rt owner r pool e bank ≡ ok grown
      → Run start amounts grown.account

-- The latest amount, and 0 before the first.
abbrev pub latest : List ℕ → ℕ
latest [] = 0
latest (a ∷ amounts) = a

-- No amount is 0 or equal to the one recorded before it.
abbrev pub AreDistinct : List ℕ → Type 0
AreDistinct [] = Unit
AreDistinct (a ∷ amounts) = (0 < a) × (a ≢ latest amounts) × AreDistinct amounts

-- What a run keeps of the tracker that it began with.
pub record Follows (start : DlmmExit) (amounts : List ℕ) (e : DlmmExit) : Type 0 where
  pub frame : e ≡ record start {
    total_sol_claimed = e.total_sol_claimed;
    status = e.status;
    completed_at = e.completed_at;
    last_claimed_amount = e.last_claimed_amount;
  }
  pub total : e.total_sol_claimed ≡ start.total_sol_claimed + sum amounts
  pub last : e.last_claimed_amount ≡ latest amounts
  pub distinct : AreDistinct amounts
  pub bounded : e.status ≤ 2
