-- ===== src/Examples/Audit.antt =====
-- The audit of a repository with one known vulnerability, reported under another form of its path.
use phylax_subnet.Prelude.{
  ℕ, ◌≡◌, ◌≤◌, refl, String, Option, none, some, List, [], ◌∷◌, arith, get, length,
}
use phylax_subnet.Prelude.Text.{Text, codes, same, starts_with, ends_with, lower, strip}
use phylax_subnet.Number.{IsUnit}
use phylax_subnet.Number.Fixed.{Fixed, fixed_float, Fixed-IsFloat}
use phylax_subnet.Value.{
  Value, pos, int, str, arr, nil, cons, obj, Fields, field, end, Outcome, returns, lookup, iterate,
  len, truthy, or_else, to_string, to_str, to_int, text_field,
}
use phylax_subnet.Quality.{split_words}
use phylax_subnet.Matching.{first_match, count_hits}
use phylax_subnet.Scoring.{zero_result, clip01, combine, fbeta}
use phylax_subnet.Tracks.Common.{TrackEvaluation, verdict_correctness, is_labelled}
use phylax_subnet.Tracks.{zeroed}
use phylax_subnet.Proof.{ProbeSpec, derive_probe}
use phylax_subnet.Rounds.{Budgets, budgets_for, agent_wall_cap_s, task_nonce}
use phylax_subnet.Validator.{index}
use phylax_subnet.Validator.Verdict.{Attestation}
use phylax_subnet.Validator.Audit.{
  Repo, take_result, run_passes, score_passes, score_repo_task, score_repos, score_audits,
}
use phylax_subnet.Validator.Audit.Range.{score_audits-IsUnit}
use phylax_subnet.Repositories.Finding.{
  strip_slashes, drop_dot, is_rooted, unroot, digits, first_digits, strip_zeros, words_of, is_near,
  norm_file, file_ok, cwe_num, cwe_set, title_overlap, near, vuln_matches,
}
use phylax_subnet.Repositories.{
  clean_precision, dim_score, entries_of, flatten_supply_chain, sc_matches, secret_matches,
  heuristic_quality, dimensions, blend_dims, score_audit, evaluate_repositories, evaluate_track,
}
use phylax_subnet.Repositories.Audited.{
  graded, IsFairAudit, evaluate_repositories-verdict, evaluate_repositories-IsFairAudit,
}
use phylax_subnet.Examples.{digest, hash_of, plain, result_or}

abbrev vuln : String → String → Fields Fixed
vuln file cwe = field "file" (str file) (field "cwe" (str cwe) end)

rooted_path : norm_file plain (vuln ".//./src/App.py" "89") ≡ codes "src/app.py"
unfolding norm_file text_field to_string to_str get strip lower unroot is_rooted drop_dot
    strip_slashes starts_with codes
rooted_path = refl

abbrev report : Value Fixed
report = obj (
    field "audit" (obj (field "files_analysed" (int (pos 3)) end))
      (field "vulnerabilities" (arr (cons (obj (vuln "./src/App.py" "CWE-089")) nil)) end))

abbrev truth : Option (Value Fixed)
truth = some (obj (field "vulnerabilities" (arr (cons (obj (vuln "src/app.py" "89")) nil)) end))

abbrev graded_report : TrackEvaluation Fixed
graded_report =
    result_or (zeroed []) (evaluate_repositories plain report "BLOCK" (some "malicious") truth)

report_returns :
    evaluate_repositories plain report "BLOCK" (some "malicious") truth ≡ returns graded_report
unfolding get codes same starts_with ends_with lower strip lookup iterate len truthy or_else
    to_string to_str to_int text_field split_words first_match count_hits zero_result clip01 combine
    fbeta verdict_correctness is_labelled strip_slashes drop_dot is_rooted unroot digits
    first_digits strip_zeros words_of is_near norm_file file_ok cwe_num cwe_set title_overlap near
    vuln_matches clean_precision dim_score entries_of flatten_supply_chain sc_matches secret_matches
    heuristic_quality dimensions blend_dims score_audit evaluate_repositories
report_returns = refl

evaluate_repositories-IsFairAudit_example : IsFairAudit Fixed-IsFloat plain report graded_report
evaluate_repositories-IsFairAudit_example =
    evaluate_repositories-IsFairAudit Fixed-IsFloat plain report "BLOCK" (some "malicious") truth
      graded_report report_returns

evaluate_repositories-verdict_example :
    graded plain (evaluate_repositories plain report "BLOCK" (some "malicious") truth)
    ≡ graded plain (evaluate_repositories plain report "ALLOW" none truth)
evaluate_repositories-verdict_example =
    evaluate_repositories-verdict plain report "BLOCK" "ALLOW" (some "malicious") none truth refl

abbrev repo : Repo Fixed
repo = record { ref = codes "a"; label = some "malicious"; ground_truth = truth }

abbrev run : Repo Fixed → Text → ProbeSpec → ℕ → Fixed → Outcome (Option (Value Fixed) × Fixed)
run item nonce p i remaining = returns (
  some (
      obj
        (field "verdict" (obj (field "decision" (str "BLOCK") end)) (field "evidence" report end))),
  1000,
)

abbrev two : Budgets
two = record { tasks = 50; repetitions = 2; cpu_s = 90 }

abbrev agent : Fixed × List (Attestation Fixed)
agent =
    result_or (0, [])
      (score_audits plain hash_of digest run "miner" (repo ∷ []) (codes "seed") two [])

agent_returns :
    score_audits plain hash_of digest run "miner" (repo ∷ []) (codes "seed") two [] ≡ returns agent
unfolding get codes same starts_with ends_with lower strip lookup iterate len truthy or_else
    to_string to_str to_int text_field split_words first_match count_hits zero_result clip01 combine
    fbeta verdict_correctness is_labelled strip_slashes drop_dot is_rooted unroot digits
    first_digits strip_zeros words_of is_near norm_file file_ok cwe_num cwe_set title_overlap near
    vuln_matches clean_precision dim_score entries_of flatten_supply_chain sc_matches secret_matches
    heuristic_quality dimensions blend_dims score_audit evaluate_repositories evaluate_track
    derive_probe task_nonce budgets_for agent_wall_cap_s index take_result run_passes score_passes
    score_repo_task score_repos score_audits
agent_returns = refl

score_audits-IsUnit_example : IsUnit {F = Fixed} agent.0 × (length agent.1 ≤ 1)
score_audits-IsUnit_example =
    score_audits-IsUnit Fixed-IsFloat plain hash_of digest run "miner" (repo ∷ []) (codes "seed")
      two [] agent (omega arith) (omega arith) agent_returns
