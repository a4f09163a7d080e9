-- ===== src/Halt/Account.antt =====
-- One account of the halt: the loop's body never panics, and repeating it changes nothing.
use dlmm_auto_sell_assets_in.Base.{
  ℕ, ◌≡◌, ◌≤◌, ◌⊎◌, inl, inr, arith, refl, ◌∙◌, List, true, none, some, ltb, ◌==◌, length,
  get_elem?, set, length-set, Bool-cases, ==→≡,
}
use dlmm_auto_sell_assets_in.Base.Bytes.{
  take, eq_bytes, le_bytes, get_elem?-lt, get_elem?-set, get_elem?-splice,
}
use dlmm_auto_sell_assets_in.Base.Int.{ℤ}
use dlmm_auto_sell_assets_in.Errors.{ok}
use dlmm_auto_sell_assets_in.Halt.{
  status_offset, completed_at_offset, dlmm_exit_data_len, HaltContext, AccountInfo, exit_pool_key,
  i64_bits, terminated_bytes, halt_account,
}

-- The account is an active tracker of the context's pool, as far as the handler can tell.
pub record IsActive (c : HaltContext) (a : AccountInfo) : Type 0 where
  pub owner : a.owner ≡ c.program_id
  pub writable : a.is_writable ≡ true
  pub long : dlmm_exit_data_len ≤ length a.bytes
  pub tagged : eq_bytes (take 8 a.bytes) c.discriminator ≡ true
  pub pool : exit_pool_key a.bytes ≡ c.pool_key
  pub status : get_elem? a.bytes status_offset ≡ some 0

-- An account is left alone, or it is active and terminated.
pub halt_account_cases :
    (c : HaltContext) (a : AccountInfo)
    → ((halt_account c a ≡ ok none) × ¬ IsActive c a)
      ⊎ ((halt_account c a ≡ ok (some (terminated_bytes c.now a.bytes))) × IsActive c a)
unfolding halt_account
halt_account_cases c a = elim (Bool-cases (ltb (length a.bytes) dlmm_exit_data_len)) [
  | inl short ↦ inl (ground arith, λ i. ground (arith, i.long))
  | inr long ↦
      let (status, e) = get_elem?-lt a.bytes status_offset (ground arith) in
      elim (Bool-cases (a.owner == c.program_id)) [
        | inr foreign ↦ inl (ground arith, λ i. ground (arith, i.owner))
        | inl ours ↦ elim (Bool-cases a.is_writable) [
          | inr read_only ↦ inl (ground arith, λ i. ground (arith, i.writable))
          | inl writable ↦ elim (Bool-cases (eq_bytes (take 8 a.bytes) c.discriminator)) [
            | inr untagged ↦ inl (ground arith, λ i. ground (arith, i.tagged))
            | inl tagged ↦ elim (Bool-cases (exit_pool_key a.bytes == c.pool_key)) [
              | inr other ↦ inl (ground arith, λ i. ground (arith, i.pool))
              | inl same ↦ elim (Bool-cases (status == 0)) [
                | inr inactive ↦ inl (ground arith, λ i. ground (arith, i.status))
                | inl active ↦ inr (
                  ground arith,
                  record {
                    owner = ==→≡ a.owner c.program_id ours;
                    writable = writable;
                    long = ground arith;
                    tagged = tagged;
                    pool = ground arith;
                    status = ground arith;
                  },
                )
              ]
            ]
          ]
        ]
      ]
]

-- Its status byte is 2 afterwards.
terminated_status :
    (now : ℤ) (bytes : List ℕ)
    → dlmm_exit_data_len ≤ length bytes
    → get_elem? (terminated_bytes now bytes) status_offset ≡ some 2
unfolding terminated_bytes
terminated_status now bytes long =
    get_elem?-splice completed_at_offset status_offset (le_bytes 8 (i64_bits now))
      (set bytes status_offset 2) (omega arith) (omega (arith, length-set bytes status_offset 2))
    ∙ get_elem?-set bytes status_offset 2 (omega arith)

-- The account after the loop's body.
abbrev pub after : HaltContext → AccountInfo → AccountInfo
after c a = elim (halt_account c a) [ ok (some bytes) ↦ record a { bytes = bytes } | _ ↦ a ]

pub after-none : (c : HaltContext) (a : AccountInfo) → halt_account c a ≡ ok none → after c a ≡ a
after-none c a h = rw (h, after) refl

pub after-some :
    (c : HaltContext) (a : AccountInfo) (bytes : List ℕ)
    → halt_account c a ≡ ok (some bytes)
    → after c a ≡ record a { bytes = bytes }
after-some c a bytes h = rw (h, after) refl

-- A terminated account is not active, so that the body leaves it alone.
pub terminated-not_active :
    (c : HaltContext) (a : AccountInfo)
    → IsActive c a
    → halt_account c (record a { bytes = terminated_bytes c.now a.bytes }) ≡ ok none
terminated-not_active c a i =
    elim (halt_account_cases c (record a { bytes = terminated_bytes c.now a.bytes })) [
      | inl (skipped, _) ↦ skipped
      | inr (_, again) ↦
          let two = terminated_status c.now a.bytes i.long in let zero_status = again.status in cc
    ]
