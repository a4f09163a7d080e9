-- ===== src/Governance/Closing/Plurality.antt =====
-- The loop of close_proposal.rs against the meaning of a plurality: the greatest count, where it
-- stands, and whether it stands twice.
use native.Mathlib.Nat.{sub-zero}
use dlmm_auto_sell_assets_in.Base.{
  ℕ, suc, ◌+◌, ◌-◌, ◌≤◌, ◌<◌, ◌≡◌, ◌≢◌, ◌⊎◌, inl, inr, arith, refl, subst, List, [], ◌∷◌, true,
  false, ◌&&◌, ◌||◌, some, ltb, ◌==◌, if◌then◌else◌, get_elem?, sum, Bool-cases,
}
use dlmm_auto_sell_assets_in.Governance.Closing.{Tally, tally_step, tally_from, tally}

abbrev pub AllLe : ℕ → List ℕ → Type 0
AllLe w [] = Unit
AllLe w (x ∷ xs) = (x ≤ w) × AllLe w xs

abbrev pub occurrences : ℕ → List ℕ → ℕ
occurrences w [] = 0
occurrences w (x ∷ xs) = (if x == w then 1 else 0) + occurrences w xs

-- What the loop makes of `counts` from a given state, with the index of the first one.
record Run (i : ℕ) (counts : List ℕ) (t t' : Tally) : Type 0 where
  grows : t.max_weight ≤ t'.max_weight
  greatest : AllLe t'.max_weight counts
  outcome :
      ((t'.max_weight ≡ t.max_weight)
        × (t'.max_index ≡ t.max_index)
        × (0 < t.max_weight → t'.is_tie ≡ (t.is_tie || ltb 0 (occurrences t.max_weight counts))))
      ⊎ ((t.max_weight < t'.max_weight)
          × (i ≤ t'.max_index)
          × (get_elem? counts (t'.max_index - i) ≡ some t'.max_weight)
          × (t'.is_tie ≡ ltb 1 (occurrences t'.max_weight counts)))

occurrences-above : (w v : ℕ) (xs : List ℕ) → AllLe w xs → w < v → occurrences v xs ≡ 0
occurrences-above w v [] h lt = refl
occurrences-above w v (x ∷ xs) h lt = ground (arith, occurrences-above w v xs h.1 lt)

AllLe-mono : (w v : ℕ) (xs : List ℕ) → AllLe w xs → w ≤ v → AllLe v xs
AllLe-mono w v [] h le = tt
AllLe-mono w v (x ∷ xs) h le = (omega arith, AllLe-mono w v xs h.1 le)

-- One more count in front, by how it compares with the greatest so far.
Run-greater :
    (i x : ℕ) (xs : List ℕ) (t t' : Tally)
    → t.max_weight < x
    → Run (i + 1) xs (record { max_weight = x; max_index = i; is_tie = false }) t'
    → Run i (x ∷ xs) t t'
Run-greater i x xs t t' gt r = record {
  grows = omega (arith, r.grows);
  greatest = (r.grows, r.greatest);
  outcome = elim r.outcome [
    | inl (w, j, tie) ↦
        let z : t'.max_index - i ≡ 0 = omega arith in
        inr (omega arith, omega arith, rw (z, w), ground (arith, tie (omega arith)))
    | inr (w, le, at, tie) ↦
        let z : t'.max_index - i ≡ suc (t'.max_index - (i + 1)) = omega arith in
        inr (omega arith, omega arith, rw z at, ground arith)
  ];
}

Run-equal :
    (i x : ℕ) (xs : List ℕ) (t t' : Tally)
    → x ≡ t.max_weight
    → Run (i + 1) xs (record t { is_tie = true }) t'
    → Run i (x ∷ xs) t t'
Run-equal i x xs t t' eq r = record {
  grows = r.grows;
  greatest = (omega (arith, r.grows), r.greatest);
  outcome = elim r.outcome [
    | inl (w, j, tie) ↦ inl (w, j, λ h. ground (arith, tie h))
    | inr (w, le, at, tie) ↦
        let z : t'.max_index - i ≡ suc (t'.max_index - (i + 1)) = omega arith in
        inr (omega arith, omega arith, rw z at, ground arith)
  ];
}

Run-smaller :
    (i x : ℕ) (xs : List ℕ) (t t' : Tally)
    → x ≤ t.max_weight
    → (0 < t.max_weight → x ≢ t.max_weight)
    → Run (i + 1) xs t t'
    → Run i (x ∷ xs) t t'
Run-smaller i x xs t t' le ne r = record {
  grows = r.grows;
  greatest = (omega (arith, r.grows), r.greatest);
  outcome = elim r.outcome [
    | inl (w, j, tie) ↦ inl (w, j, λ h. ground (arith, tie h, ne h))
    | inr (w, le', at, tie) ↦
        let z : t'.max_index - i ≡ suc (t'.max_index - (i + 1)) = omega arith in
        inr (omega arith, omega arith, rw z at, ground arith)
  ];
}

run : (i : ℕ) (counts : List ℕ) (t : Tally) → Run i counts t (tally_from i counts t)
unfolding tally_from tally_step
run i [] t = record {
  grows = omega arith;
  greatest = tt;
  outcome = inl (refl, refl, λ h. ground arith);
}
run i (x ∷ xs) t = elim (Bool-cases (ltb t.max_weight x)) [
  | inl gt ↦ rw gt (
      Run-greater i x xs t _ (ground arith)
        (run (i + 1) xs (record { max_weight = x; max_index = i; is_tie = false })))
  | inr le ↦ elim (Bool-cases (x == t.max_weight && ltb 0 x)) [
    | inl eq ↦
        rw (le, eq)
          (Run-equal i x xs t _ (ground arith) (run (i + 1) xs (record t { is_tie = true })))
    | inr ne ↦
        rw (le, ne) (Run-smaller i x xs t _ (ground arith) (λ h. ground arith) (run (i + 1) xs t))
  ]
]

sum-le-zero : (counts : List ℕ) → AllLe 0 counts → sum counts ≡ 0
sum-le-zero [] h = refl
sum-le-zero (x ∷ xs) h = omega (arith, h.0, sum-le-zero xs h.1)

-- If some vote was cast, the loop finds the greatest count and an option that has it, and reports a
-- tie exactly when more than one option has it.
pub tally_plurality :
    (counts : List ℕ)
    → 0 < sum counts
    → AllLe (tally counts).max_weight counts
      × (get_elem? counts (tally counts).max_index ≡ some (tally counts).max_weight)
      × ((tally counts).is_tie ≡ ltb 1 (occurrences (tally counts).max_weight counts))
unfolding tally
tally_plurality counts h =
    let r = run 0 counts (record { max_weight = 0; max_index = 0; is_tie = false }) in
    elim r.outcome [
      | inl (w, j, tie) ↦
          absurd (omega (arith, sum-le-zero counts (subst (λ m. AllLe m counts) w r.greatest)))
      | inr (w, le, at, tie) ↦ (r.greatest, rw sub-zero at at, tie)
    ]
