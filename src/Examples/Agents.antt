-- ===== src/Examples/Agents.antt =====
-- A run of an agent that flags its artifact, and the agent's score on two tasks.
use phylax_subnet.Prelude.{ℕ, ◌≡◌, refl, true, String, Option, some, List, [], ◌∷◌, arith, get}
use phylax_subnet.Prelude.Text.{
  Text, codes, same, starts_with, contains, ends_with, lower, upper, strip,
}
use phylax_subnet.Number.Fixed.{Fixed, fixed_root, fixed_float, Fixed-IsFloat}
use phylax_subnet.Value.{
  Value, null, negsuc, str, arr, nil, cons, obj, field, end, Outcome, returns, lookup, iterate, len,
  truthy, or_else, to_str, to_int, text_field,
}
use phylax_subnet.Quality.{
  split_words, tokens, norm_ref, same_category, first_text, matches, delta_findings,
  finding_quality,
}
use phylax_subnet.Matching.{first_match, count_hits}
use phylax_subnet.Scoring.{zero_result, clip01, combine, mcc_denominator, mcc, clamped_mcc, fbeta}
use phylax_subnet.Proof.Evidence.{
  text_or_empty, first_mismatch, verify_probe_evidence, any_event, fs_has_probe, network_has_probe,
  texts_of, process_has_probe, check_hashes, check_effects, check_traces, verify_proof_of_execution,
}
use phylax_subnet.Tracks.Common.{
  build_manifest, manifest_of, manifest_entry, entry_texts, integrity_from_caps,
  verdict_correctness, is_labelled, label_risk,
}
use phylax_subnet.Capability
use phylax_subnet.Tracks.{
  evaluate, evaluate_skills, after_proof, with_dict, score_planes, skills_quality, count_of,
}
use phylax_subnet.Emission.Sort.{sort, insert}
use phylax_subnet.Proof.{ProbeSpec, derive_probe, observe, observe_all, verify_validator_trace}
use phylax_subnet.Rounds.{budgets_for, agent_wall_cap_s}
use phylax_subnet.Validator.{
  Rejections, run_rep, index, ordinal_of, verdict_of, judge, note_rejection,
}
use phylax_subnet.Validator.Verdict.{
  Item, Ledger, Inference, run_reps, findings_of, decide, task_verdict, median,
}
use phylax_subnet.Rounds.{task_nonce}
use phylax_subnet.Validator.Verified.{HasProof, HasTrace, run_rep-IsVerified}
use phylax_subnet.Validator.Score.{
  AgentScore, count_verdict, agent_score, quality_of, tally_verdict, tally_tasks, score_agent,
}
use phylax_subnet.Validator.Score.Range.{IsScore, score_agent-IsUnit}
use phylax_subnet.Examples.{digest, hash_of, plain, result_or, flagged}

abbrev probe : ProbeSpec
probe = derive_probe digest (codes "nonce")

rep_runs :
    run_rep plain hash_of "skills" (some "malicious") probe (some flagged) [] ≡ returns (some 2, [])
unfolding get codes same starts_with contains lower upper lookup iterate len truthy or_else to_str
    to_int text_field derive_probe text_or_empty first_mismatch verify_probe_evidence any_event
    fs_has_probe network_has_probe texts_of process_has_probe check_hashes check_effects
    check_traces verify_proof_of_execution zero_result clip01 combine evaluate evaluate_skills
    after_proof with_dict score_planes skills_quality count_of build_manifest manifest_of
    manifest_entry entry_texts integrity_from_caps verdict_correctness is_labelled Capability.lookup
    observe observe_all verify_validator_trace index ordinal_of verdict_of judge note_rejection
    run_rep
rep_runs = refl

run_rep-IsVerified_example :
    HasTrace Fixed-IsFloat plain hash_of "skills" (some "malicious") probe flagged
    × HasProof Fixed-IsFloat plain hash_of "skills" (some "malicious") probe flagged
    × (◌≡◌ {A = Rejections} [] [])
run_rep-IsVerified_example =
    run_rep-IsVerified Fixed-IsFloat plain hash_of "skills" (some "malicious") probe flagged [] [] 2
      rep_runs

abbrev task : String → String → Item Fixed
task ref label = record {
  ref = codes ref;
  label = some label;
  expected_findings = null;
  observed = null;
}

abbrev tasks : List (Item Fixed)
tasks = task "a" "malicious" ∷ task "b" "unknown" ∷ []

abbrev empty_ledger : Ledger Fixed
empty_ledger = record { rejections = []; failure_reasons = []; attestations = [] }

abbrev unread : Text → Inference
unread nonce = record { calls = negsuc 0; failure_reason = "no_inference" }

abbrev run : Item Fixed → Text → ProbeSpec → ℕ → Fixed → Outcome (Option (Value Fixed) × Fixed)
run item nonce p i remaining = returns (some flagged, 1000)

abbrev agent : AgentScore Fixed
agent =
    result_or (record { score = 0; attempted = 0; scored = 0; ledger = empty_ledger })
      (score_agent plain hash_of digest true unread run "skills" "miner" tasks (codes "seed")
        (budgets_for "skills") empty_ledger)

agent_returns :
    score_agent plain hash_of digest true unread run "skills" "miner" tasks
      (codes "seed")
      (budgets_for "skills")
      empty_ledger
    ≡ returns agent
unfolding get codes same starts_with contains lower upper lookup iterate len truthy or_else to_str
    to_int text_field derive_probe text_or_empty first_mismatch verify_probe_evidence any_event
    fs_has_probe network_has_probe texts_of process_has_probe check_hashes check_effects
    check_traces verify_proof_of_execution zero_result clip01 combine evaluate evaluate_skills
    after_proof with_dict score_planes skills_quality count_of build_manifest manifest_of
    manifest_entry entry_texts integrity_from_caps verdict_correctness is_labelled Capability.lookup
    observe observe_all verify_validator_trace index ordinal_of verdict_of judge note_rejection
    run_rep run_reps findings_of decide task_verdict task_nonce median sort insert label_risk
    mcc_denominator mcc clamped_mcc count_verdict agent_score quality_of tally_verdict tally_tasks
    score_agent budgets_for agent_wall_cap_s fixed_root
agent_returns = refl

score_agent-IsUnit_example : IsScore Fixed-IsFloat 2 agent
score_agent-IsUnit_example =
    score_agent-IsUnit Fixed-IsFloat plain hash_of digest true unread run "skills" "miner" tasks
      (codes "seed") (budgets_for "skills") empty_ledger agent (omega arith) agent_returns

abbrev finding : String → Value Fixed
finding title = obj (field "category" (str "injection") (field "title" (str title) end))

abbrev found : Fixed
found = result_or 0 (
    finding_quality plain (arr (cons (finding "sql injection") nil))
      (arr (cons (finding "injection by sql") nil)) null)

found_returns :
    finding_quality plain
      (arr (cons (finding "sql injection") nil))
      (arr (cons (finding "injection by sql") nil))
      null
    ≡ returns found
unfolding get codes same ends_with lower strip iterate truthy or_else to_str text_field split_words
    tokens norm_ref same_category first_text matches delta_findings finding_quality first_match
    count_hits fbeta clip01
found_returns = refl
