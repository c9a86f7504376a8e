-- ===== src/Validator/Score/Range.antt =====
-- The range of `_score_agent` of neurons/validator.py, and the counts behind it.
use mathlib.Core.Path.{subst}
use phylax_subnet.Prelude.{
  ℕ, ◌+◌, ◌≤◌, ◌<◌, ◌⊎◌, ◌≡◌, refl, Bool, String, Option, List, [], ◌∷◌, arith, length, Bool-cases,
  Option-cases, inl, inr, ◌^◌, is_empty, ◌=ℕ◌,
}
use phylax_subnet.Prelude.Text.{Text}
use phylax_subnet.Number.{Float, nought, IsUnit}
use phylax_subnet.Number.Laws.{IsFloat, nought-le-one, nought_refl}
use phylax_subnet.Value.{Value, Outcome, returns, >>=-eq-returns, returned, Conversions}
use phylax_subnet.Scoring.Bounds.{clip01-IsUnit, clamped_mcc-IsUnit}
use phylax_subnet.Proof.{ProbeSpec}
use phylax_subnet.Tracks.Common.{label_risk}
use phylax_subnet.Rounds.{Budgets}
use phylax_subnet.Validator.Verdict.{Item, Ledger, Inference, TaskVerdict}
use phylax_subnet.Validator.Score.{
  Confusion, scored, count_verdict, Tally, AgentScore, agent_score, quality_of, tally_verdict,
  tally_tasks, score_agent,
}

-- Each verdict is counted in one of the four counts.
scored-count_verdict :
    (malicious : Bool) (verdict : String) (c : Confusion)
    → scored (count_verdict malicious verdict c) ≡ scored c + 1
unfolding count_verdict
scored-count_verdict malicious verdict c = ground arith

module _ {F : Type 0} ⦃num : Float F⦄ where
  open num use {lit, le}

  -- No more verdicts than attempts, and no more attempts than tasks.
  record IsCounted (n : ℕ) (t : Tally F) : Type 0 where
    few : scored t.confusion ≤ t.attempted
    tried : t.attempted ≤ n

  module _ (conv : Conversions F) where
    tally_verdict-IsCounted :
        (n : ℕ) (target : F) (item : Item F) (t : Tally F) (v : TaskVerdict F) (t' : Tally F)
        → IsCounted n t
        → tally_verdict conv target item t v ≡ returns t'
        → IsCounted (n + 1) t'
    unfolding tally_verdict
    tally_verdict-IsCounted n target item t v t' c h = elim (Option-cases v.decision) [
      | inl e ↦
          subst (IsCounted (n + 1)) (returned _ _ (rw e at h))
            (record { few = omega (arith, c.few); tried = omega (arith, c.tried) })
      | inr (verdict, e) ↦
          let malicious = le (lit 5 10) target in
          let (qs, e1, h1) =
            >>=-eq-returns (quality_of conv malicious verdict item v.findings) _ (rw e at h) in
          let counted = scored-count_verdict malicious verdict t.confusion in
          subst (IsCounted (n + 1)) (returned _ _ h1)
            (record { few = omega (arith, c.few, counted); tried = omega (arith, c.tried) })
    ]

    tally_tasks-IsCounted :
        (judge_task : Item F → F → Ledger F → Outcome (TaskVerdict F)) (items : List (Item F))
        (n : ℕ) (t t' : Tally F)
        → IsCounted n t
        → tally_tasks conv judge_task items t ≡ returns t'
        → IsCounted (n + length items) t'
    unfolding tally_tasks
    tally_tasks-IsCounted judge_task [] n t t' c h =
        subst (IsCounted (n + 0)) (returned _ _ h)
          (record { few = c.few; tried = omega (arith, c.tried) })
    tally_tasks-IsCounted judge_task (item ∷ items) n t t' c h =
        elim (Option-cases (label_risk {F = F} item.label)) [
          | inl e ↦
              let all =
                tally_tasks-IsCounted judge_task items n t t' c (rw (tally_tasks, e) at h) in
              record { few = all.few; tried = omega (arith, all.tried) }
          | inr (target, e) ↦
              let (v, e1, h1) =
                >>=-eq-returns (judge_task item t.wall_used t.ledger) _
                  (rw (tally_tasks, e) at h) in
              let (next, e2, h2) = >>=-eq-returns (tally_verdict conv target item t v) _ h1 in
              let one_more = tally_verdict-IsCounted n target item t v next c e2 in
              let all = tally_tasks-IsCounted judge_task items (n + 1) next t' one_more h2 in
              record { few = all.few; tried = omega (arith, all.tried) }
        ]

  module _ (laws : IsFloat F) where
    agent_score-none : (c : Confusion) (qs : List F) → (0 < scored c) ⊎ (agent_score c qs ≡ nought)
    unfolding agent_score
    agent_score-none c qs = elim (Bool-cases (scored c =ℕ 0)) [
      | inl e ↦ inr (rw e)
      | inr e ↦ inl (ground arith)
    ]

    agent_score-IsUnit :
        (c : Confusion) (qs : List F) → scored c ≤ 2 ^ 13 → IsUnit (agent_score c qs)
    unfolding agent_score
    agent_score-IsUnit c qs h = elim (Bool-cases (scored c =ℕ 0)) [
      | inl e ↦ rw e (nought_refl laws, nought-le-one laws)
      | inr e ↦ elim (Bool-cases (is_empty qs)) [
        | inl e' ↦ rw (e, e') (clamped_mcc-IsUnit laws c.tp c.tn c.fp c.fn h)
        | inr e' ↦ rw (e, e') (clip01-IsUnit laws _)
      ]
    ]

    -- What is claimed of the score of an agent on n tasks.
    abbrev pub IsScore : ℕ → AgentScore F → Type 0
    IsScore n r =
        IsUnit r.score
        × (r.scored ≤ r.attempted)
        × (r.attempted ≤ n)
        × ((0 < r.scored) ⊎ (r.score ≡ nought))

    module _ (conv : Conversions F) (trace_hash : Value F → Text) (sha256 : Text → Text)
        (require_inference : Bool) (inference : Text → Inference)
        (run : Item F → Text → ProbeSpec → ℕ → F → Outcome (Option (Value F) × F)) where
      -- On up to 8192 tasks, the score of an agent that is scored lies in the unit interval, it has
      -- no more verdicts than attempts and no more attempts than tasks, and with no verdict its
      -- score is 0.0.
      pub score_agent-IsUnit :
          (track hotkey : String) (tasks : List (Item F)) (seed : Text) (budgets : Budgets)
          (ledger : Ledger F) (r : AgentScore F)
          → length tasks ≤ 2 ^ 13
          → score_agent conv trace_hash sha256 require_inference inference run track hotkey tasks
              seed budgets ledger
            ≡ returns r
          → IsScore (length tasks) r
      unfolding score_agent
      score_agent-IsUnit track hotkey [] seed budgets ledger r few h =
          subst (IsScore 0) (returned _ _ h)
            ((nought_refl laws, nought-le-one laws), omega arith, omega arith, inr refl)
      score_agent-IsUnit track hotkey (item ∷ items) seed budgets ledger r few h =
          let (t, e, h1) = >>=-eq-returns (tally_tasks conv _ (item ∷ items) _) _ h in
          let counted =
            tally_tasks-IsCounted conv _ (item ∷ items) 0 _ t
              (record { few = omega arith; tried = omega arith }) e in
          subst (IsScore (length (item ∷ items))) (returned _ _ h1) (
            agent_score-IsUnit t.confusion t.quality_scores
                (omega (arith, counted.few, counted.tried)),
            counted.few,
            omega (arith, counted.tried),
            agent_score-none t.confusion t.quality_scores,
          )
