-- ===== src/Scoring.antt =====
-- The score of one run: phylax/analysis/scoring.py up to `fbeta`.
pub mod Bounds
use phylax_subnet.Prelude.{ℕ, ◌+◌, ◌-◌, ◌*◌, Bool, true, false, [], if◌then◌else◌, leb}
use phylax_subnet.Prelude.Text.{Text, codes}
use phylax_subnet.Number.{Float, nought, one, max, min, equal}

module _ {F : Type 0} ⦃num : Float F⦄ where
  open num use {lit, negative, add, sub, mul, div, sqrt, le, lt}

  abbrev pub evidence_gate : F
  evidence_gate = lit 10 100

  abbrev pub w_verdict : F
  w_verdict = lit 40 100

  abbrev pub w_solution : F
  w_solution = lit 35 100

  abbrev pub w_benchmark : F
  w_benchmark = lit 25 100

  unfoldable pub clip01 : F → F
  clip01 x = max nought (min one x)

pub record ScoreComponents (F : Type 0) : Type 0 where
  pub verdict_correctness : F
  pub evidence_integrity : F
  pub solution_quality : F
  pub benchmark_agreement : F

pub record ScoreResult (F : Type 0) : Type 0 where
  pub score : F
  pub gate_passed : Bool
  pub components : ScoreComponents F
  pub reason : Text

module _ {F : Type 0} ⦃num : Float F⦄ where
  open num use {lit, negative, add, sub, mul, div, sqrt, le, lt}

  abbrev pub no_components : ScoreComponents F
  no_components = record {
    verdict_correctness = nought;
    evidence_integrity = nought;
    solution_quality = nought;
    benchmark_agreement = nought;
  }

  unfoldable pub zero_result : Text → ScoreResult F
  zero_result why = record {
    score = nought;
    gate_passed = false;
    components = no_components;
    reason = why;
  }

  unfoldable pub combine : ScoreComponents F → ScoreResult F
  combine c =
      if lt c.evidence_integrity evidence_gate
      then record {
        score = nought;
        gate_passed = false;
        components = c;
        reason = codes "evidence below gate";
      }
      else let base =
          add (add (mul w_verdict c.verdict_correctness) (mul w_solution c.solution_quality))
            (mul w_benchmark c.benchmark_agreement) in
        record {
          score = clip01 (mul base c.evidence_integrity);
          gate_passed = true;
          components = c;
          reason = [];
        }

  -- `tp * tn - fp * fn` is an `int` of either sign, converted by the division.
  abbrev pub covariance : ℕ → ℕ → ℕ → ℕ → F
  covariance tp tn fp fn =
      if leb (fp * fn) (tp * tn)
      then lit (tp * tn - fp * fn) 1
      else negative (fp * fn - tp * tn - 1)

  unfoldable pub mcc_denominator : ℕ → ℕ → ℕ → ℕ → F
  mcc_denominator tp tn fp fn =
      sqrt (mul (mul (mul (lit (tp + fp) 1) (lit (tp + fn) 1)) (lit (tn + fp) 1)) (lit (tn + fn) 1))

  unfoldable pub mcc : ℕ → ℕ → ℕ → ℕ → F
  mcc tp tn fp fn =
      let denom = mcc_denominator tp tn fp fn in
      if equal denom nought then nought else div (covariance tp tn fp fn) denom

  unfoldable pub clamped_mcc : ℕ → ℕ → ℕ → ℕ → F
  clamped_mcc tp tn fp fn = max nought (mcc tp tn fp fn)

  unfoldable pub fbeta : F → F → F → F
  fbeta precision recall beta =
      let denom = add (mul (mul beta beta) precision) recall in
      if equal denom nought
      then nought
      else div (mul (mul (add one (mul beta beta)) precision) recall) denom
