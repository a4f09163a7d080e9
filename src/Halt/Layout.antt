-- ===== src/Halt/Layout.antt =====
-- The trackers as bytes: what the halt's offsets mean, and that it does to the bytes what
-- terminate_exit.rs does to the account.
use mathlib.Core.List.{append_assoc}
use dlmm_auto_sell_assets_in.Base.{
  ℕ, ◌+◌, ◌^◌, ◌≡◌, ◌≢◌, ◌<◌, inl, inr, arith, refl, sym, ap, ◌∙◌, List, [], ◌∷◌, ◌++◌, true, some,
  ◌==◌, length, get_elem?, Bool-cases, ==→≡,
}
use dlmm_auto_sell_assets_in.Base.Bytes.{
  take, eq_bytes, le_bytes, length-append, take-append, drop-append, splice-set, get_elem?-append,
  from_le_bytes-le_bytes, eq_bytes_refl,
}
use dlmm_auto_sell_assets_in.Base.Int.{ℤ}
use dlmm_auto_sell_assets_in.Errors.{Result, ok, err}
use dlmm_auto_sell_assets_in.State.{StakingPool, DlmmExit}
use dlmm_auto_sell_assets_in.Exits.{Call, terminate_exit}
use dlmm_auto_sell_assets_in.Halt.{
  status_offset, HaltContext, AccountInfo, exit_pool_key, i64_bits, terminated_bytes,
}
use dlmm_auto_sell_assets_in.Halt.Account.{
  IsActive, halt_account_cases, after, after-none, after-some,
}

-- The bytes between the pool and the status, and those after the completion time.
abbrev pub middle : DlmmExit → List ℕ
middle e =
    le_bytes 32 e.owner
    ++ (le_bytes 32 e.asset_mint
        ++ (le_bytes 32 e.dlmm_pool ++ (le_bytes 32 e.position ++ le_bytes 8 e.total_sol_claimed)))

abbrev last_bytes : DlmmExit → List ℕ
last_bytes e = le_bytes 8 e.proposal_id ++ (le_bytes 8 e.last_claimed_amount ++ (e.bump ∷ []))

-- What follows the status.
abbrev pub rest : DlmmExit → List ℕ
rest e =
    le_bytes 8 (i64_bits e.created_at) ++ (le_bytes 8 (i64_bits e.completed_at) ++ last_bytes e)

-- An encoding writes the discriminator of eight bytes, and then the fields in the order of
-- state/dlmm_exit.rs, each little-endian and as wide as its type.
pub record WritesFields (discriminator : List ℕ) (encode : DlmmExit → List ℕ) : Type 0 where
  pub eight : length discriminator ≡ 8
  pub fields :
      (e : DlmmExit)
      → encode e ≡ discriminator ++ ((le_bytes 32 e.pool ++ middle e) ++ (e.status ∷ rest e))

module _ (c : HaltContext) (encode : DlmmExit → List ℕ)
    (w : WritesFields c.discriminator encode) where
  abbrev front : DlmmExit → List ℕ
  front e = c.discriminator ++ (le_bytes 32 e.pool ++ middle e)

  length-front : (e : DlmmExit) → length (front e) ≡ 176
  length-front e =
      length-append c.discriminator (le_bytes 32 e.pool ++ middle e) ∙ ap (λ n. n + 168) w.eight

  split_at_status : (e : DlmmExit) → encode e ≡ front e ++ (e.status ∷ rest e)
  split_at_status e =
      w.fields e
      ∙ sym (append_assoc c.discriminator (le_bytes 32 e.pool ++ middle e) (e.status ∷ rest e))

  encoded_tag : (e : DlmmExit) → eq_bytes (take 8 (encode e)) c.discriminator ≡ true
  encoded_tag e =
      rw (w.fields e, take-append 8 c.discriminator _ w.eight) (eq_bytes_refl c.discriminator)

  encoded_pool : (e : DlmmExit) → e.pool < 256 ^ 32 → exit_pool_key (encode e) ≡ e.pool
  unfolding exit_pool_key
  encoded_pool e h =
      rw (w.fields e, drop-append 8 c.discriminator _ w.eight) (from_le_bytes-le_bytes 32 e.pool h)

  encoded_status : (e : DlmmExit) → get_elem? (encode e) status_offset ≡ some e.status
  encoded_status e =
      rw (split_at_status e) (get_elem?-append 176 (front e) (rest e) e.status (length-front e))

  -- The two writes are a change of the two fields.
  encoded_termination :
      (e : DlmmExit)
      → terminated_bytes c.now (encode e) ≡ encode (record e { status = 2; completed_at = c.now })
  unfolding terminated_bytes
  encoded_termination e =
      let e' = record e { status = 2; completed_at = c.now } in
      ap (terminated_bytes c.now) (split_at_status e)
      ∙ splice-set 176 185 (front e) (le_bytes 8 (i64_bits e.created_at))
          (le_bytes 8 (i64_bits e.completed_at)) (le_bytes 8 (i64_bits c.now)) (last_bytes e)
          e.status 2 (length-front e) (ap (λ n. n + 9) (length-front e)) refl
      ∙ sym (split_at_status e')

  -- A writable account of the program that holds a tracker of the pool.
  encoded-IsActive :
      (a : AccountInfo) (e : DlmmExit)
      → a.owner ≡ c.program_id
      → a.is_writable ≡ true
      → a.bytes ≡ encode e
      → e.pool < 256 ^ 32
      → e.pool ≡ c.pool_key
      → e.status ≡ 0
      → IsActive c a
  encoded-IsActive a e owner writable holds key pool active = record {
    owner = owner;
    writable = writable;
    long =
        rw (holds, split_at_status e)
          (omega (arith, length-append (front e) (e.status ∷ rest e), length-front e));
    tagged = rw holds (encoded_tag e);
    pool = rw holds (encoded_pool e key) ∙ pool;
    status = ap (λ b. get_elem? b status_offset) holds ∙ encoded_status e ∙ ap some active;
  }

-- The tracker after `terminate_exit`, or as it was where that fails.
abbrev pub or_unchanged : DlmmExit → Result DlmmExit → DlmmExit
or_unchanged e (ok e') = e'
or_unchanged e (err x) = e

terminated_result :
    (call : Call) (pool : StakingPool) (e : DlmmExit) (now : ℤ)
    → call.authority ≡ pool.owner
    → call.now ≡ now
    → e.status ≡ 0
    → or_unchanged e (terminate_exit call pool e) ≡ record e { status = 2; completed_at = now }
unfolding terminate_exit
terminated_result call pool e now signed at active = ground arith

refused_result :
    (call : Call) (pool : StakingPool) (e : DlmmExit)
    → e.status ≢ 0
    → or_unchanged e (terminate_exit call pool e) ≡ e
unfolding terminate_exit
refused_result call pool e inactive = ground arith

-- If encoding writes the fields in order, little-endian after a discriminator of eight bytes, then the
-- halt does to the bytes of a tracker of its pool what terminate_exit, called by the owner at the same
-- time, does to the tracker: the bytes afterwards are those of the terminated tracker, or the same where
-- terminate_exit refuses.
pub halt_terminates :
    (c : HaltContext) (encode : DlmmExit → List ℕ) (a : AccountInfo) (e : DlmmExit) (call : Call)
    (pool : StakingPool)
    → WritesFields c.discriminator encode
    → a.owner ≡ c.program_id
    → a.is_writable ≡ true
    → a.bytes ≡ encode e
    → e.pool < 256 ^ 32
    → e.pool ≡ c.pool_key
    → call.authority ≡ pool.owner
    → call.now ≡ c.now
    → after c a ≡ record a { bytes = encode (or_unchanged e (terminate_exit call pool e)) }
halt_terminates c encode a e call pool w owner writable holds key same signed now =
    let with_bytes = λ (b : List ℕ). record a { bytes = b } in
    elim (Bool-cases (e.status == 0)) [
      | inl active ↦
          let zero_status : e.status ≡ 0 = ==→≡ e.status 0 active in
          elim (halt_account_cases c a) [
            | inl (_, idle) ↦
                absurd
                  (idle (encoded-IsActive c encode w a e owner writable holds key same zero_status))
            | inr (done, _) ↦
                after-some c a (terminated_bytes c.now a.bytes) done
                ∙ ap with_bytes (
                    ap (terminated_bytes c.now) holds
                    ∙ encoded_termination c encode w e
                    ∙ ap encode (sym (terminated_result call pool e c.now signed now zero_status)))
          ]
      | inr inactive ↦
          let nonzero : e.status ≢ 0 = ground arith in
          let kept = ap with_bytes (holds ∙ ap encode (sym (refused_result call pool e nonzero))) in
          elim (halt_account_cases c a) [
            | inl (skipped, _) ↦ after-none c a skipped ∙ kept
            | inr (_, active) ↦
                let held =
                  ap (λ b. get_elem? b status_offset) holds ∙ encoded_status c encode w e in
                let again = active.status in absurd (nonzero (cc))
          ]
    ]
