-- ===== src/Errors.antt =====
-- The errors of an instruction (programs/brain-staking/src/errors.rs) and the result type of the
-- handlers. An instruction that fails changes nothing on chain, so an error carries no state.
use dlmm_auto_sell_assets_in.Base.{ℕ, ◌≡◌, refl, Bool, true, false, Option, none, some}

pub data StakingError : Type 0 where
  unauthorized pool_paused below_min_stake insufficient_rewards invalid_mint : StakingError
  zero_amount math_overflow already_staking not_staking invalid_fee : StakingError
  invalid_min_stake exit_already_active exit_not_active exit_already_completed : StakingError
  rent_exempt_violation proposal_not_active voting_period_ended : StakingError
  voting_period_not_started voting_period_not_ended invalid_option_index : StakingError
  invalid_voting_period too_few_options too_many_options title_too_long : StakingError
  no_voting_power governance_already_initialized proposal_not_passed : StakingError
  invalid_proposal_type invalid_proposal_state no_votes_cast no_active_stakers : StakingError
  proposal_already_executed quorum_not_met no_pending_owner invalid_pending_owner : StakingError
  invalid_state treasury_requires_governance below_min_reward_deposit above_max_stake : StakingError

-- What else stops an instruction: a failed account constraint of the framework, an arithmetic or
-- index panic, two refusals of the Solana runtime (`ExternalAccountLamportSpend` and
-- `PrivilegeEscalation`), and the failures of the token and system programs, by number.
pub data Error : Type 0 where
  staking : StakingError → Error
  account_in_use account_not_initialized wrong_address panic : Error
  external_lamport_spend privilege_escalation : Error
  external : ℕ → Error

-- What a handler comes to: an error that ends the instruction, or a value.
pub data Result {ℓ} (V : Type ℓ) : Type ℓ where
  err : Error → Result V
  ok : V → Result V

-- `require!(test, error)`.
abbrev pub require : Bool → StakingError → Result (Unit {0})
require false e = err (staking e)
require true e = ok tt

-- The operator `?`, and a statement with `?` followed by the rest of the body.
infixl 5 ◌>>◌ ◌>>=◌
abbrev pub ◌>>=◌ {ℓ κ} : {V : Type ℓ} {W : Type κ} → Result V → (V → Result W) → Result W
err failure >>= next = err failure
ok value >>= next = next value

-- A constraint of the framework with an error of its own.
abbrev pub constraint : Bool → Error → Result (Unit {0})
constraint true e = ok tt
constraint false e = err e

abbrev pub ◌>>◌ {κ} : {W : Type κ} → Result (Unit {0}) → Result W → Result W
first >> rest = first >>= λ checked. rest

-- `option.ok_or(error)?`.
abbrev pub ok_or {ℓ} : {A : Type ℓ} → Option A → StakingError → Result A
ok_or (some a) e = ok a
ok_or none e = err (staking e)

-- An overflow check of the build (`overflow-checks = true`) that fails is a panic.
abbrev pub or_panic {ℓ} : {A : Type ℓ} → Option A → Result A
or_panic (some a) = ok a
or_panic none = err panic

-- A guard that succeeds passed its test.
pub require-eq-ok {ℓ} :
    {B : Type ℓ} (t : Bool) (e : StakingError) (m : Result B) {b : B}
    → (require t e >> m) ≡ ok b
    → (t ≡ true) × (m ≡ ok b)
require-eq-ok true e m h = (refl, h)
require-eq-ok false e m h = cc

pub ok-injective {ℓ} : {A : Type ℓ} {a b : A} → ok a ≡ ok b → a ≡ b
ok-injective h = cc

pub constraint-eq-ok {ℓ} :
    {B : Type ℓ} (t : Bool) (e : Error) (m : Result B) {b : B}
    → (constraint t e >> m) ≡ ok b
    → (t ≡ true) × (m ≡ ok b)
constraint-eq-ok true e m h = (refl, h)
constraint-eq-ok false e m h = cc

-- A bind that succeeds is a success of both parts.
pub >>=-eq-ok {ℓ κ} :
    {V : Type ℓ} {W : Type κ} (first : Result V) (next : V → Result W) {w : W}
    → (first >>= next) ≡ ok w
    → (v : V) × (first ≡ ok v) × (next v ≡ ok w)
>>=-eq-ok (err failure) next h = cc
>>=-eq-ok (ok value) next h = (value, refl, h)

pub >>=-assoc {ℓ κ μ} :
    {V : Type ℓ} {W : Type κ} {X : Type μ} (first : Result V) (next : V → Result W)
    (last : W → Result X)
    → ((first >>= next) >>= last) ≡ (first >>= λ v. next v >>= last)
>>=-assoc (err failure) next last = refl
>>=-assoc (ok value) next last = refl
