-- ===== src/Examples/Metering.antt =====
-- The meter of a nonce with twelve calls.
use phylax_subnet.Prelude.{◌≡◌, refl, true, [], ◌∷◌, some, none}
use phylax_subnet.Number.Fixed.{Fixed, fixed_float}
use phylax_subnet.Value.{pos, returns, null, obj, end}
use phylax_subnet.Proxy.{Metrics, no_usage}
use phylax_subnet.Metering.Blind.{inference_calls_blind}
use phylax_subnet.Examples.{plain, hash_of, result_or}
use phylax_subnet.Prelude.Text.{codes}
use phylax_subnet.Metering.Refusal.{metered_decide-none}
use phylax_subnet.Validator.Verdict.{Item, Ledger, Reps, TaskVerdict, decide}

abbrev twelve : Metrics
twelve =
    ("4f2a", record no_usage { requests = 12; input_tokens = pos 900; output_tokens = pos 80 }) ∷ []

abbrev task : Item Fixed
task = record { ref = []; label = some "malicious"; expected_findings = null; observed = null }

abbrev ledger : Ledger Fixed
ledger = record { rejections = []; failure_reasons = []; attestations = [] }

-- Three repetitions that all say BLOCK.
abbrev blocked : Reps Fixed
blocked = record {
  wall_used = 9000;
  ordinals = 2 ∷ 2 ∷ 2 ∷ [];
  last_result = some (obj end);
  rejections = [];
}

abbrev verdict : TaskVerdict Fixed
verdict =
    result_or (record { decision = none; wall_used = 0; findings = null; ledger = ledger })
      (decide plain hash_of true (record { calls = pos 0; failure_reason = "no_inference" }) "miner"
        task (codes "4f2a") ledger blocked)

verdict_returns :
    decide plain hash_of true
      (record { calls = pos 0; failure_reason = "no_inference" })
      "miner"
      task
      (codes "4f2a")
      ledger
      blocked
    ≡ returns verdict
unfolding decide
verdict_returns = refl

metered_decide-none_example : verdict.decision ≡ none
metered_decide-none_example =
    metered_decide-none plain hash_of twelve "4f2a" (pos 0) "no_inference" "miner" task ledger
      blocked verdict refl refl (inference_calls_blind plain twelve "4f2a" refl refl)
      verdict_returns
