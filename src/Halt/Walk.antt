-- ===== src/Halt/Walk.antt =====
-- The whole loop: it ends, in any order and with repetitions, with every listed account treated once.
use dlmm_auto_sell_assets_in.Base.{
  ◌+◌, ◌^◌, ◌≡◌, ◌≤◌, ◌<◌, inl, inr, arith, refl, sym, ap, ◌∙◌, List, [], ◌∷◌, Bool, true, false,
  ◌||◌, ◌==◌, if◌then◌else◌, length, Bool-cases, ==→≡,
}
use dlmm_auto_sell_assets_in.Errors.{
  ok, err, unauthorized, staking, ◌>>=◌, >>=-assoc, >>=-eq-ok, require-eq-ok, ok-injective,
}
use dlmm_auto_sell_assets_in.Checked.{checked_add, try_from}
use dlmm_auto_sell_assets_in.State.{Pubkey, StakingPool}
use dlmm_auto_sell_assets_in.Runtime.{update}
use dlmm_auto_sell_assets_in.Halt.{
  HaltContext, AccountInfo, Halting, halt_account, store_halted, halt_accounts, terminated_bytes,
  handle_emergency_halt,
}
use dlmm_auto_sell_assets_in.Halt.Account.{
  halt_account_cases, after, after-none, after-some, terminated-not_active,
}

abbrev pub contains : Pubkey → List Pubkey → Bool
contains key [] = false
contains key (k ∷ keys) = key == k || contains key keys

after_idem : (c : HaltContext) (a : AccountInfo) → after c (after c a) ≡ after c a
after_idem c a = elim (halt_account_cases c a) [
  | inl (left, _) ↦ ap (after c) (after-none c a left)
  | inr (done, active) ↦
      let e = after-some c a (terminated_bytes c.now a.bytes) done in
      rw e (
        after-none c (record a { bytes = terminated_bytes c.now a.bytes })
          (terminated-not_active c a active))
]

-- One round stores the account after the loop's body.
store_after :
    (c : HaltContext) (key : Pubkey) (h : Halting)
    → h.terminated_count + 1 < 2 ^ 64
    → (h' : Halting) × ((halt_account c (h.accounts key) >>= λ b. store_halted key b h) ≡ ok h')
      × (h'.terminated_count ≤ h.terminated_count + 1)
      × ((j : Pubkey)
          → h'.accounts j ≡ (if j == key then after c (h.accounts key) else h.accounts j))
unfolding store_halted checked_add try_from
store_after c key h fits = elim (halt_account_cases c (h.accounts key)) [
  | inl (left, _) ↦ (
    h,
    rw left refl,
    omega arith,
    λ j. elim (Bool-cases (j == key)) [
      | inl same ↦
          rw same (ap h.accounts (==→≡ j key same) ∙ sym (after-none c (h.accounts key) left))
      | inr other ↦ rw other refl
    ],
  )
  | inr (done, _) ↦ (
    record {
      accounts =
          update h.accounts key
            (record (h.accounts key) { bytes = terminated_bytes c.now (h.accounts key).bytes });
      terminated_count = h.terminated_count + 1;
    },
    rw done (ground arith),
    omega arith,
    λ j.
        rw (after-some c (h.accounts key) (terminated_bytes c.now (h.accounts key).bytes) done)
          refl,
  )
]

-- A round on top of a round: what it does to an account that the first has treated or not.
twice :
    (c : HaltContext) (x y : AccountInfo) (treated listed : Bool)
    → x ≡ (if treated then after c y else y)
    → (if listed then after c x else x) ≡ (if treated || listed then after c y else y)
twice c x y true true e = ap (after c) e ∙ after_idem c y
twice c x y true false e = e
twice c x y false true e = ap (after c) e
twice c x y false false e = e

-- Under a test for equality either name will do.
relabel :
    (f g : Pubkey → AccountInfo) (j key : Pubkey)
    → (if j == key then f key else g j) ≡ (if j == key then f j else g j)
relabel f g j key = elim (Bool-cases (j == key)) [
  | inl same ↦ rw same (ap f (sym (==→≡ j key same)))
  | inr other ↦ rw other refl
]

-- After the loop every listed account is as the loop's body leaves it, and every other one unchanged.
halt_accounts_lem :
    (c : HaltContext) (keys : List Pubkey) (h : Halting)
    → h.terminated_count + length keys < 2 ^ 64
    → (h' : Halting) × (halt_accounts c keys h ≡ ok h')
      × ((j : Pubkey)
          → h'.accounts j ≡ (if contains j keys then after c (h.accounts j) else h.accounts j))
unfolding halt_accounts
halt_accounts_lem c [] h fits = (h, refl, λ j. refl)
halt_accounts_lem c (key ∷ keys) h fits =
    let (h1, run, le, at) = store_after c key h (omega arith) in
    let (h2, rest, final) = halt_accounts_lem c keys h1 (omega arith) in
    (
      h2,
      sym (
            >>=-assoc (halt_account c (h.accounts key)) (λ b. store_halted key b h)
              (halt_accounts c keys))
          ∙ ap (λ r. r >>= halt_accounts c keys) run
          ∙ rest,
      λ j.
          final j
          ∙ twice c (h1.accounts j) (h.accounts j) (j == key) (contains j keys)
              (at j ∙ relabel (λ k. after c (h.accounts k)) h.accounts j key),
    )

-- An emergency halt by the owner, over fewer than 2^64 accounts, always succeeds: the pool is paused, every
-- listed account is as the loop's body leaves it, however often and in whatever order it is listed, and
-- every other account is unchanged. By anyone else it fails as unauthorized.
pub emergency_halt_succeeds :
    (c : HaltContext) (authority : Pubkey) (remaining_accounts : List Pubkey) (pool : StakingPool)
    (accounts : Pubkey → AccountInfo)
    → length remaining_accounts < 2 ^ 64
    → (accounts' : Pubkey → AccountInfo) × (handle_emergency_halt c authority remaining_accounts
          pool accounts
        ≡ (if authority == pool.owner
            then ok (record pool { is_paused = true }, accounts')
            else err (staking unauthorized)))
      × ((j : Pubkey)
          → accounts' j
            ≡ (if contains j remaining_accounts then after c (accounts j) else accounts j))
unfolding handle_emergency_halt
emergency_halt_succeeds c authority remaining_accounts pool accounts fits =
    let (h, run, final) =
      halt_accounts_lem c remaining_accounts (record { accounts = accounts; terminated_count = 0 })
        (omega arith) in
    (
      h.accounts,
      elim (Bool-cases (authority == pool.owner)) [
        | inl same ↦ rw (same, run) refl
        | inr other ↦ rw other refl
      ],
      final,
    )

-- What a halt does to the pool, and who can order it.
pub halted-eq :
    (c : HaltContext) (authority : Pubkey) (remaining_accounts : List Pubkey)
    (pool pool' : StakingPool) (accounts accounts' : Pubkey → AccountInfo)
    → handle_emergency_halt c authority remaining_accounts pool accounts ≡ ok (pool', accounts')
    → (authority ≡ pool.owner) × (pool' ≡ record pool { is_paused = true })
unfolding handle_emergency_halt
halted-eq c authority remaining_accounts pool pool' accounts accounts' h =
    let (signed, h1) = require-eq-ok (authority == pool.owner) unauthorized _ h in
    let (_, _, h2) =
      >>=-eq-ok
        (halt_accounts c remaining_accounts (record { accounts = accounts; terminated_count = 0 }))
        _ h1 in
    (==→≡ authority pool.owner signed, ground (arith, ok-injective h2))
