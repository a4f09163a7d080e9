-- ===== src/Tests/Halt.antt =====
-- A halt over one account that is listed twice, and the theorems on it.
use dlmm_auto_sell_assets_in.Base.{
  ℕ, ◌≡◌, arith, refl, List, [], ◌∷◌, ◌++◌, true, ◌==◌, if◌then◌else◌,
}
use dlmm_auto_sell_assets_in.Base.Bytes.{le_bytes}
use dlmm_auto_sell_assets_in.Base.Int.{pos}
use dlmm_auto_sell_assets_in.Errors.{ok, err, staking, unauthorized}
use dlmm_auto_sell_assets_in.State.{Pubkey, DlmmExit}
use dlmm_auto_sell_assets_in.Exits.{Call, new_exit, terminate_exit}
use dlmm_auto_sell_assets_in.Halt.{HaltContext, AccountInfo, handle_emergency_halt}
use dlmm_auto_sell_assets_in.Halt.Account.{after}
use dlmm_auto_sell_assets_in.Halt.Walk.{contains, emergency_halt_succeeds}
use dlmm_auto_sell_assets_in.Halt.Layout.{middle, rest, WritesFields, or_unchanged, halt_terminates}
use dlmm_auto_sell_assets_in.Tests.{pool}

abbrev pub discriminator : List ℕ
discriminator = 1 ∷ 2 ∷ 3 ∷ 4 ∷ 5 ∷ 6 ∷ 7 ∷ 8 ∷ []

abbrev context : HaltContext
context = record { program_id = 100; discriminator = discriminator; pool_key = 9; now = pos 5000 }

abbrev halt_call : Call
halt_call = record { authority = 1; pool_key = 9; now = pos 5000; bump = 248 }

abbrev tracker : DlmmExit
tracker = new_exit halt_call 1 30 31 32 7

abbrev pub encode : DlmmExit → List ℕ
encode e = discriminator ++ ((le_bytes 32 e.pool ++ middle e) ++ (e.status ∷ rest e))

encode-WritesFields : WritesFields discriminator encode
encode-WritesFields = record { eight = refl; fields = λ e. refl }

abbrev account : AccountInfo
account = record { owner = 100; is_writable = true; bytes = encode tracker }

halt_terminates_example : after context account ≡ record account {
  bytes = encode (or_unchanged tracker (terminate_exit halt_call pool tracker));
}
halt_terminates_example =
    halt_terminates context encode account tracker halt_call pool encode-WritesFields refl refl refl
      (omega arith) refl refl refl

emergency_halt_succeeds_example :
    (accounts' : Pubkey → AccountInfo) × (handle_emergency_halt context 1
        (70 ∷ 70 ∷ [])
        pool
        (λ k. account)
      ≡ (if 1 == pool.owner
          then ok (record pool { is_paused = true }, accounts')
          else err (staking unauthorized)))
    × ((j : Pubkey)
        → accounts' j ≡ (if contains j (70 ∷ 70 ∷ []) then after context account else account))
emergency_halt_succeeds_example =
    emergency_halt_succeeds context 1 (70 ∷ 70 ∷ []) pool (λ k. account) (omega arith)
