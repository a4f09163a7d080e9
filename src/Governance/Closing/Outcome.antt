-- ===== src/Governance/Closing/Outcome.antt =====
-- When close_proposal.rs passes a proposal.
use dlmm_auto_sell_assets_in.Base.{
  ℕ, zero, suc, ◌*◌, ◌/◌, ◌^◌, ◌≤◌, ◌<◌, ◌≡◌, ◌⊎◌, ◌↔◌, inl, inr, arith, refl, subst, sym, List, [],
  ◌∷◌, true, false, some, ltb, ◌==◌, if◌then◌else◌, get_elem?, sum, Bool-cases,
}
use dlmm_auto_sell_assets_in.Base.Int.{ℤ, ◌≤ℤ◌}
use dlmm_auto_sell_assets_in.Errors.{ok}
use dlmm_auto_sell_assets_in.State.{StakingPool, GovernanceConfig, Proposal}
use dlmm_auto_sell_assets_in.Governance.Closing.{
  tally, required_votes, quorum_met, reject_unresolved, resolve, close_proposal,
}
use dlmm_auto_sell_assets_in.Governance.Closing.Plurality.{AllLe, occurrences, tally_plurality}

-- The total weight is the sum of the counts.
abbrev pub IsCounted : Proposal → Type 0
IsCounted p = sum p.vote_counts ≡ p.total_vote_weight

abbrev pub AllLt : ℕ → List ℕ → Type 0
AllLt w [] = Unit
AllLt w (x ∷ xs) = (x < w) × AllLt w xs

-- The first option has more weight than each other one.
abbrev pub FirstWins : List ℕ → Type 0
FirstWins [] = ⊥
FirstWins (c ∷ cs) = AllLt c cs

pub get-below : (w m j : ℕ) (xs : List ℕ) → AllLt w xs → get_elem? xs j ≡ some m → m < w
get-below w m j [] h e = ground arith
get-below w m zero (x ∷ xs) h e = ground arith
get-below w m (suc j) (x ∷ xs) h e = get-below w m j xs h.1 e

AllLt-occurrences : (w : ℕ) (xs : List ℕ) → AllLt w xs → occurrences w xs ≡ 0
AllLt-occurrences w [] h = refl
AllLt-occurrences w (x ∷ xs) h = ground (arith, AllLt-occurrences w xs h.1)

AllLt-of-occurrences : (w : ℕ) (xs : List ℕ) → AllLe w xs → occurrences w xs ≡ 0 → AllLt w xs
AllLt-of-occurrences w [] h e = tt
AllLt-of-occurrences w (x ∷ xs) h e = ground (arith, AllLt-of-occurrences w xs h.1)

first_wins :
    (counts : List ℕ) (m j : ℕ)
    → FirstWins counts
    → AllLe m counts
    → get_elem? counts j ≡ some m
    → (j ≡ 0) × (occurrences m counts ≤ 1)
first_wins [] m j h le at = absurd h
first_wins (c ∷ cs) m zero h le at = (refl, ground (arith, AllLt-occurrences c cs h))
first_wins (c ∷ cs) m (suc j) h le at = absurd (omega (arith, get-below c m j cs h at, le.0))

wins_first :
    (counts : List ℕ) (m j : ℕ)
    → j ≡ 0
    → occurrences m counts ≤ 1
    → AllLe m counts
    → get_elem? counts j ≡ some m
    → FirstWins counts
wins_first [] m j z o le at = ground arith
wins_first (c ∷ cs) m zero z o le at =
    let e : c ≡ m = ground arith in
    AllLt-of-occurrences c cs (subst (λ w. AllLe w cs) (sym e) le.1) (ground arith)
wins_first (c ∷ cs) m (suc j) z o le at = absurd (omega arith)

-- The result of the loop says whether the first option wins.
tally_first :
    (counts : List ℕ)
    → 0 < sum counts
    → (((tally counts).is_tie ≡ false) × ((tally counts).max_index ≡ 0)) ↔ FirstWins counts
tally_first counts h =
    let (le, at, tie) = tally_plurality counts h in
    let t = tally counts in
    (
      λ r. wins_first counts t.max_weight t.max_index r.1 (ground arith) le at,
      λ w. let (j, o) = first_wins counts t.max_weight t.max_index w le at in (ground arith, j),
    )

required_votes-eq :
    (base bps : ℕ) → base * bps < 2 ^ 128 → required_votes base bps ≡ base * bps / 10000
unfolding required_votes
required_votes-eq base bps h = ground arith

quorum_iff :
    (config : GovernanceConfig) (p : Proposal)
    → p.quorum_snapshot * config.min_quorum_bps < 2 ^ 128
    → (quorum_met config p ≡ true)
      ↔ (p.quorum_snapshot * config.min_quorum_bps / 10000 ≤ p.total_vote_weight)
unfolding quorum_met
quorum_iff config p h =
    let e = required_votes-eq p.quorum_snapshot config.min_quorum_bps h in
    elim (Bool-cases (ltb 0 config.min_quorum_bps)) [
      | inl asked ↦ rw asked (λ q. ground (arith, e), λ q. ground (arith, e))
      | inr free ↦
          let z : config.min_quorum_bps ≡ 0 = ground arith in
          let n : p.quorum_snapshot * config.min_quorum_bps / 10000 ≡ 0 = rw z (omega arith) in
          rw free (λ q. omega (arith, n), λ q. refl)
    ]

-- A closing that succeeds: the checks that passed, and the result.
pub close_proposal-eq :
    (now : ℤ) (pool : StakingPool) (config : GovernanceConfig) (p p' : Proposal)
    → close_proposal now pool config p ≡ ok p'
    → (p.status ≡ 0)
      × (p.voting_ends ≤ℤ now)
      × (p' ≡ (
          if p.total_vote_weight == 0
          then reject_unresolved p
          else if quorum_met config p
          then resolve now (tally p.vote_counts) p
          else reject_unresolved p))
unfolding close_proposal
close_proposal-eq now pool config p p' h = (ground arith, ground arith, ground arith)

-- The status that each branch gives.
module _ (now : ℤ) (config : GovernanceConfig) (p p' : Proposal)
    (e : p' ≡ (
      if p.total_vote_weight == 0
      then reject_unresolved p
      else if quorum_met config p
      then resolve now (tally p.vote_counts) p
      else reject_unresolved p)) where
  passed_needs :
      p'.status ≡ 1
      → (0 < p.total_vote_weight)
        × (quorum_met config p ≡ true)
        × ((tally p.vote_counts).is_tie ≡ false)
        × ((tally p.vote_counts).max_index ≡ 0)
  unfolding resolve
  passed_needs one = (ground arith, ground arith, ground arith, ground arith)

  passed_if :
      0 < p.total_vote_weight
      → quorum_met config p ≡ true
      → (tally p.vote_counts).is_tie ≡ false
      → (tally p.vote_counts).max_index ≡ 0
      → p'.status ≡ 1
  unfolding resolve
  passed_if voted met tie first = ground arith

  pub closed_status : (p'.status ≡ 1) ⊎ (p'.status ≡ 2)
  unfolding resolve
  closed_status = ground arith

-- A proposal whose total is the sum of its counts, and whose quorum does not overflow, passes exactly
-- when some vote was cast, the votes reach the quorum and the first option has more weight than each
-- other one; otherwise it is rejected. Only an active proposal whose voting period is over is closed.
pub close_proposal_passes :
    (now : ℤ) (pool : StakingPool) (config : GovernanceConfig) (p p' : Proposal)
    → IsCounted p
    → p.quorum_snapshot * config.min_quorum_bps < 2 ^ 128
    → close_proposal now pool config p ≡ ok p'
    → (p.status ≡ 0)
      × (p.voting_ends ≤ℤ now)
      × ((p'.status ≡ 1) ↔ (
          (0 < p.total_vote_weight)
          × (p.quorum_snapshot * config.min_quorum_bps / 10000 ≤ p.total_vote_weight)
          × FirstWins p.vote_counts))
      × ((p'.status ≡ 1) ⊎ (p'.status ≡ 2))
close_proposal_passes now pool config p p' counted fits h =
    let (active, over, e) = close_proposal-eq now pool config p p' h in
    let q = quorum_iff config p fits in
    (
      active,
      over,
      (
        λ one.
            let (voted, met, tie, first) = passed_needs now config p p' e one in
            (voted, q.0 met, (tally_first p.vote_counts (rw counted voted)).0 (tie, first)),
        λ w.
            let (tie, first) = (tally_first p.vote_counts (rw counted w.0)).1 w.2 in
            passed_if now config p p' e w.0 (q.1 w.1) tie first,
      ),
      closed_status now config p p' e,
    )
