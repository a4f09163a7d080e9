-- ===== src/Runtime/Laws.antt =====
-- What is assumed of the two transfers, which is their documented behaviour: a transfer between two
-- accounts that succeeds moves the amount, and changes no other balance.
use dlmm_auto_sell_assets_in.Base.{ℕ, ◌+◌, ◌≡◌, ◌≢◌}
use dlmm_auto_sell_assets_in.Errors.{ok}
use dlmm_auto_sell_assets_in.State.{Pubkey}
use dlmm_auto_sell_assets_in.Runtime.{Bank, Transfer, Runtime}

pub record MovesLamports (transfer : Transfer) : Type 0 where
  pub source :
      (from to : Pubkey) (n : ℕ) (b b' : Bank)
      → transfer from to n b ≡ ok b'
      → from ≢ to
      → b'.lamports from + n ≡ b.lamports from
  pub target :
      (from to : Pubkey) (n : ℕ) (b b' : Bank)
      → transfer from to n b ≡ ok b'
      → from ≢ to
      → b'.lamports to ≡ b.lamports to + n
  pub other :
      (from to k : Pubkey) (n : ℕ) (b b' : Bank)
      → transfer from to n b ≡ ok b'
      → k ≢ from
      → k ≢ to
      → b'.lamports k ≡ b.lamports k
  pub tokens_kept :
      (from to k : Pubkey) (n : ℕ) (b b' : Bank)
      → transfer from to n b ≡ ok b'
      → b'.tokens k ≡ b.tokens k

pub record MovesTokens (transfer : Transfer) : Type 0 where
  pub source :
      (from to : Pubkey) (n : ℕ) (b b' : Bank)
      → transfer from to n b ≡ ok b'
      → from ≢ to
      → (b'.tokens from).amount + n ≡ (b.tokens from).amount
  pub target :
      (from to : Pubkey) (n : ℕ) (b b' : Bank)
      → transfer from to n b ≡ ok b'
      → from ≢ to
      → (b'.tokens to).amount ≡ (b.tokens to).amount + n
  pub other :
      (from to k : Pubkey) (n : ℕ) (b b' : Bank)
      → transfer from to n b ≡ ok b'
      → k ≢ from
      → k ≢ to
      → b'.tokens k ≡ b.tokens k
  pub owner_kept :
      (from to k : Pubkey) (n : ℕ) (b b' : Bank)
      → transfer from to n b ≡ ok b'
      → (b'.tokens k).owner ≡ (b.tokens k).owner
  pub lamports_kept :
      (from to k : Pubkey) (n : ℕ) (b b' : Bank)
      → transfer from to n b ≡ ok b'
      → b'.lamports k ≡ b.lamports k

pub record IsRuntime (rt : Runtime) : Type 0 where
  pub system : MovesLamports rt.system_transfer
  pub token : (authority : Pubkey) → MovesTokens (rt.token_transfer authority)
