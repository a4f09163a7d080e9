-- ===== src/Tests/Administration.antt =====
-- Exit trackers and changes of the pool, and the theorems on them.
use Prim.Native.String.{String}
use dlmm_auto_sell_assets_in.Base.{
  ℕ, ◌+◌, ◌^◌, ◌≡◌, ◌≢◌, ◌≤◌, ◌<◌, ◌⊎◌, ◌↔◌, arith, refl, Option, none, some, false, ◌==◌,
  if◌then◌else◌, List, [], ◌∷◌, get_elem?, sum,
}
use dlmm_auto_sell_assets_in.Base.Int.{pos}
use dlmm_auto_sell_assets_in.Errors.{ok, err, staking, unauthorized, math_overflow}
use dlmm_auto_sell_assets_in.Checked.{checked_add, try_from}
use dlmm_auto_sell_assets_in.State.{Pubkey, default_pubkey, StakingPool, DlmmExit}
use dlmm_auto_sell_assets_in.Exits.{
  Call, new_exit, initiate_exit, record_claim, complete_exit, close_dlmm_exit,
}
use dlmm_auto_sell_assets_in.Exits.Runs.{begun, recorded, completed, AreDistinct}
use dlmm_auto_sell_assets_in.Exits.Lifecycle.{
  record_claim_iff, tracker_history, finished_exit, replayed_claim_accepted,
}
use dlmm_auto_sell_assets_in.Admin.{transfer_ownership, accept_ownership, renounce_ownership}
use dlmm_auto_sell_assets_in.Admin.Changes.{ownership_offered, ownership_accepted, IsConfigured}
use dlmm_auto_sell_assets_in.Admin.Authority.{
  code_points, is_base58, administration_authorised, renounce_ownership_fails,
}
use dlmm_auto_sell_assets_in.Admin.Ownership.{
  Administration, unchanged, changed, Offered, ownership_two_steps,
}
use dlmm_auto_sell_assets_in.Tests.{pool}

abbrev no_tracker : Option DlmmExit
no_tracker = none

abbrev no_amounts : List ℕ
no_amounts = []

abbrev call : Call
call = record { authority = 2; pool_key = 9; now = pos 100; bump = 250 }

abbrev owner_call : Call
owner_call = record call { authority = 1 }

abbrev tracker : DlmmExit
tracker = new_exit owner_call 1 30 31 32 0

abbrev after_five : DlmmExit
after_five = record tracker { total_sol_claimed = 5; last_claimed_amount = 5 }

abbrev after_seven : DlmmExit
after_seven = record tracker { total_sol_claimed = 12; last_claimed_amount = 7 }

abbrev done : DlmmExit
done = record after_seven { status = 1; completed_at = pos 100 }

initiate_runs : initiate_exit owner_call 30 31 32 pool none ≡ ok tracker
unfolding initiate_exit
initiate_runs = refl

five_runs : record_claim call 5 pool tracker ≡ ok after_five
unfolding record_claim checked_add try_from
five_runs = refl

seven_runs : record_claim call 7 pool after_five ≡ ok after_seven
unfolding record_claim checked_add try_from
seven_runs = refl

complete_runs : complete_exit call pool after_seven ≡ ok done
unfolding complete_exit
complete_runs = refl

tracker_history_example :
    (no_tracker ≡ none)
    × (tracker ≡ new_exit owner_call pool.owner 30 31 32 0)
    × (done.total_sol_claimed ≡ sum (7 ∷ 5 ∷ []))
    × AreDistinct (7 ∷ 5 ∷ [])
    × (done.status ≤ 2)
    × (done ≡ record tracker {
      total_sol_claimed = done.total_sol_claimed;
      status = done.status;
      completed_at = done.completed_at;
      last_claimed_amount = done.last_claimed_amount;
    })
tracker_history_example =
    tracker_history owner_call 30 31 32 pool none tracker done (7 ∷ 5 ∷ []) initiate_runs (
      completed call pool (recorded call 7 pool (recorded call 5 pool begun five_runs) seven_runs)
        complete_runs)

record_claim_iff_example : (record_claim call 5 pool tracker ≡ ok after_five) ↔ (
    ((call.authority ≡ pool.owner) ⊎ (call.authority ≡ pool.crank))
    × (tracker.pool ≡ call.pool_key)
    × (0 < 5)
    × (tracker.status ≡ 0)
    × (tracker.last_claimed_amount ≢ 5)
    × (tracker.total_sol_claimed + 5 < 2 ^ 64)
    × (after_five ≡ record tracker {
      total_sol_claimed = tracker.total_sol_claimed + 5;
      last_claimed_amount = 5;
    }))
record_claim_iff_example = record_claim_iff call 5 pool tracker after_five

finished_exit_example :
    (done ≡ done)
    × (no_amounts ≡ [])
    × ((close_dlmm_exit owner_call pool tracker ≡ ok none)
        ↔ ((owner_call.authority ≡ pool.owner) × (tracker.status ≢ 0)))
finished_exit_example =
    finished_exit done done tracker no_amounts owner_call pool (λ e. omega (arith, e)) begun

replayed_claim_accepted_example :
    (e3 : DlmmExit) × (record_claim call 5 pool after_seven ≡ ok e3)
    × (e3.total_sol_claimed ≡ tracker.total_sol_claimed + 5 + 7 + 5)
replayed_claim_accepted_example =
    replayed_claim_accepted call call call 5 7 pool tracker after_five after_seven
      (λ e. omega (arith, e)) refl refl (omega arith) five_runs seven_runs

-- Parsing that knows no address at all.
abbrev from_str : String → Option Pubkey
from_str text = none

from_str_base58 :
    (text : String) (i c : ℕ)
    → get_elem? (code_points text) i ≡ some c
    → is_base58 c ≡ false
    → from_str text ≡ none
from_str_base58 text i c h k = refl

abbrev offered : StakingPool
offered = record pool { pending_owner = 77 }

abbrev accepted : StakingPool
accepted = record pool { owner = 77 }

accept_runs : accept_ownership 77 offered ≡ ok accepted
unfolding accept_ownership
accept_runs = refl

offered-IsConfigured : IsConfigured offered
offered-IsConfigured = record { fee = omega arith; min_stake = omega arith }

administration_authorised_example :
    ((77 ≡ offered.owner)
      ⊎ ((77 ≡ offered.pending_owner) × (77 ≢ default_pubkey) × (accepted.owner ≡ 77)))
    × (accepted ≡ record offered {
      owner = accepted.owner;
      crank = accepted.crank;
      treasury = accepted.treasury;
      protocol_fee_bps = accepted.protocol_fee_bps;
      min_stake_amount = accepted.min_stake_amount;
      pending_owner = accepted.pending_owner;
      is_paused = accepted.is_paused;
    })
    × IsConfigured accepted
administration_authorised_example =
    administration_authorised from_str 77 offered accepted offered-IsConfigured
      (ownership_accepted accept_runs)

transfer_runs : transfer_ownership 1 77 pool ≡ ok offered
unfolding transfer_ownership
transfer_runs = refl

offering : Administration from_str pool offered
offering = changed 1 unchanged (ownership_offered 77 transfer_runs)

ownership_two_steps_example :
    Offered from_str 77 offered offering
    × (77 ≢ default_pubkey)
    × (accepted ≡ record offered { owner = 77; pending_owner = default_pubkey })
ownership_two_steps_example =
    ownership_two_steps from_str 77 pool offered accepted from_str_base58 refl offering
      (λ e. omega (arith, e)) (ownership_accepted accept_runs)

renounce_ownership_fails_example :
    renounce_ownership from_str 1 pool
    ≡ (if 1 == pool.owner then err (staking math_overflow) else err (staking unauthorized))
renounce_ownership_fails_example = renounce_ownership_fails from_str 1 pool from_str_base58
