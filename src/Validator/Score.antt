-- ===== src/Validator/Score.antt =====
-- The score of an agent on the tasks of one of the tracks whose artifacts are run: `_score_agent` of
-- neurons/validator.py.
pub mod Range
use phylax_subnet.Prelude.{
  ℕ, ◌+◌, ◌≡◌, Bool, true, false, not, ◌&&◌, ◌=ℕ◌, String, Option, none, some, List, [], ◌∷◌, ◌++◌,
  ◌==◌, if◌then◌else◌, length, is_empty, ltb,
}
use phylax_subnet.Prelude.Text.{Text}
use phylax_subnet.Number.{Float, nought, sum}
use phylax_subnet.Value.{Value, arr, nil, truthy, or_else, Outcome, returns, ◌>>=◌, Conversions}
use phylax_subnet.Scoring.{clip01, clamped_mcc}
use phylax_subnet.Proof.{ProbeSpec}
use phylax_subnet.Tracks.Common.{label_risk, flags}
use phylax_subnet.Quality.{finding_quality}
use phylax_subnet.Rounds.{Budgets, agent_wall_cap_s}
use phylax_subnet.Validator.Verdict.{Item, Ledger, Inference, TaskVerdict, task_verdict}

-- The four counts of the confusion matrix.
pub record Confusion : Type 0 where
  pub tp : ℕ
  pub tn : ℕ
  pub fp : ℕ
  pub fn : ℕ

abbrev pub scored : Confusion → ℕ
scored c = c.tp + c.tn + c.fp + c.fn

unfoldable pub count_verdict : Bool → String → Confusion → Confusion
count_verdict malicious verdict c =
    if malicious && flags verdict
    then record c { tp = c.tp + 1 }
    else if malicious
    then record c { fn = c.fn + 1 }
    else if verdict == "ALLOW"
    then record c { tn = c.tn + 1 }
    else record c { fp = c.fp + 1 }

-- The state of the loop over the tasks.
pub record Tally (F : Type 0) : Type 0 where
  pub confusion : Confusion
  pub attempted : ℕ
  pub quality_scores : List F
  pub wall_used : F
  pub ledger : Ledger F

-- `attempted` and `scored` are what is added to the validator's counters of the track.
pub record AgentScore (F : Type 0) : Type 0 where
  pub score : F
  pub attempted : ℕ
  pub scored : ℕ
  pub ledger : Ledger F

module _ {F : Type 0} ⦃num : Float F⦄ where
  open num use {lit, add, mul, div, le}

  abbrev pub run_w_correctness : F
  run_w_correctness = lit 7 10

  abbrev pub run_w_quality : F
  run_w_quality = lit 3 10

  -- The end of `_score_agent`.
  unfoldable pub agent_score : Confusion → List F → F
  agent_score c quality_scores =
      if scored c =ℕ 0
      then nought
      else let correctness = clamped_mcc c.tp c.tn c.fp c.fn in
        if is_empty quality_scores
        then correctness
        else let q = div (sum quality_scores) (lit (length quality_scores) 1) in
          clip01 (add (mul run_w_correctness correctness) (mul run_w_quality q))

  module _ (conv : Conversions F) where
    -- The quality scores that a verdict adds.
    unfoldable pub quality_of : Bool → String → Item F → Value F → Outcome (List F)
    quality_of malicious verdict item findings =
        let expected = or_else item.expected_findings (arr nil) in
        if not (truthy expected)
        then returns []
        else if (if malicious then flags verdict else verdict == "ALLOW")
        then (do q ← finding_quality conv expected findings item.observed; returns (q ∷ []))
        else returns (nought ∷ [])

    -- The body of the loop once the verdict on a task of this risk is known.
    unfoldable pub tally_verdict : F → Item F → Tally F → TaskVerdict F → Outcome (Tally F)
    tally_verdict target item t v = elim v.decision [
      | none ↦
          returns
            record t { attempted = t.attempted + 1; wall_used = v.wall_used; ledger = v.ledger }
      | some verdict ↦
          let malicious = le (lit 5 10) target in
          (do
            qs ← quality_of malicious verdict item v.findings
            returns record {
              confusion = count_verdict malicious verdict t.confusion;
              attempted = t.attempted + 1;
              quality_scores = t.quality_scores ++ qs;
              wall_used = v.wall_used;
              ledger = v.ledger;
            })
    ]

    -- The loop over the tasks, with `judge_task` for the call of `_task_verdict`. A task without a
    -- label of either kind is passed over.
    unfoldable pub tally_tasks :
        (Item F → F → Ledger F → Outcome (TaskVerdict F))
        → List (Item F)
        → Tally F
        → Outcome (Tally F)
    tally_tasks judge_task [] t = returns t
    tally_tasks judge_task (item ∷ items) t = elim (label_risk item.label) [
      | none ↦ tally_tasks judge_task items t
      | some target ↦ do
        v ← judge_task item t.wall_used t.ledger
        t' ← tally_verdict target item t v
        tally_tasks judge_task items t'
    ]

    module _ (trace_hash : Value F → Text) (sha256 : Text → Text) (require_inference : Bool)
        (inference : Text → Inference)
        (run : Item F → Text → ProbeSpec → ℕ → F → Outcome (Option (Value F) × F)) where
      -- The tracks whose artifacts are run; `repositories` has its own path.
      unfoldable pub score_agent :
          String → String → List (Item F) → Text → Budgets → Ledger F → Outcome (AgentScore F)
      score_agent track hotkey [] seed budgets ledger =
          returns record { score = nought; attempted = 0; scored = 0; ledger = ledger }
      score_agent track hotkey (item ∷ items) seed budgets ledger =
          let judge_task = λ (i : Item F) (wall_used : F) (l : Ledger F).
            task_verdict conv trace_hash sha256 require_inference inference (run i) track hotkey i
              seed budgets.repetitions wall_used (lit (agent_wall_cap_s track) 1) l in
          let start : Tally F = record {
            confusion = record { tp = 0; tn = 0; fp = 0; fn = 0 };
            attempted = 0;
            quality_scores = [];
            wall_used = nought;
            ledger = ledger;
          } in
          (do
            t ← tally_tasks judge_task (item ∷ items) start
            returns record {
              score = agent_score t.confusion t.quality_scores;
              attempted = t.attempted;
              scored = scored t.confusion;
              ledger = t.ledger;
            })
