-- ===== src/Validator/Audit.antt =====
-- The score of an agent on the repositories track: `_score_repo_task` and the branch of
-- `_score_agent` for it, in neurons/validator.py. `run` is one call of `run_task`, with the seconds
-- that the clock measured.
pub mod Range
use phylax_subnet.Prelude.{
  ℕ, zero, suc, ◌+◌, Bool, true, false, not, String, Option, none, some, List, [], ◌∷◌, ◌++◌,
  if◌then◌else◌, get, length, is_empty,
}
use phylax_subnet.Prelude.Text.{Text, codes}
use phylax_subnet.Number.{Float, nought, sum}
use phylax_subnet.Value.{Value, Fields, entries, Outcome, returns, ◌>>=◌, Conversions, to_string}
use phylax_subnet.Proof.{ProbeSpec, derive_probe}
use phylax_subnet.Rounds.{Budgets, task_nonce, agent_wall_cap_s}
use phylax_subnet.Scoring.{clip01}
use phylax_subnet.Validator.{index, dict_or_empty}
use phylax_subnet.Validator.Verdict.{Attestation, attest}
use phylax_subnet.Repositories.{evaluate_track}

-- One repository as the round serves it.
pub record Repo (F : Type 0) : Type 0 where
  pub ref : Text
  pub label : Option String
  pub ground_truth : Option (Value F)

-- The state of the loop over the repetitions.
pub record Passes (F : Type 0) : Type 0 where
  pub wall_used : F
  pub rep_scores : List F
  pub last_result : Option (Value F)

pub record RepoScore (F : Type 0) : Type 0 where
  pub score : F
  pub wall_used : F
  pub attestations : List (Attestation F)

module _ {F : Type 0} ⦃num : Float F⦄ where
  open num use {lit, add, sub, div, le}

  module _ (conv : Conversions F) (trace_hash : Value F → Text) where
    -- str(verdict.get("decision", "")) of a dict with these fields
    abbrev pub decision_of : Fields F → String
    decision_of fs = elim (get (entries fs) "decision") [ none ↦ "" | some v ↦ to_string conv v ]

    -- The scores with that of a result, and the last result that counts.
    unfoldable pub take_result :
        ProbeSpec → Repo F → Passes F → Option (Value F) → Outcome (Passes F)
    take_result probe item reps none = returns reps
    take_result probe item reps (some result) = do
      verdict ← index result "verdict"
      let decision = decision_of (dict_or_empty verdict)
      evidence ← index result "evidence"
      ev ←
          evaluate_track conv trace_hash probe "repositories" evidence decision item.label
            item.ground_truth
      returns (
          if not ev.result.gate_passed then reps else record reps {
            rep_scores = reps.rep_scores ++ (clip01 ev.result.score ∷ []);
            last_result = some result;
          })

    -- The loop over the repetitions left, from the repetition `i`.
    unfoldable pub run_passes :
        ProbeSpec
        → Repo F
        → (ℕ → F → Outcome (Option (Value F) × F))
        → F
        → ℕ
        → ℕ
        → Passes F
        → Outcome (Passes F)
    run_passes probe item run wall_cap i zero reps = returns reps
    run_passes probe item run wall_cap i (suc n) reps =
        let remaining = sub wall_cap reps.wall_used in
        if le remaining nought then returns reps else (do
          (ran, elapsed) ← run i remaining
          reps' ←
              take_result probe item (record reps { wall_used = add reps.wall_used elapsed }) ran
          run_passes probe item run wall_cap (i + 1) n reps')

    -- The end of `_score_repo_task`.
    unfoldable pub score_passes :
        String → Repo F → Text → List (Attestation F) → Passes F → RepoScore F
    score_passes hotkey item nonce attestations reps =
        if is_empty reps.rep_scores
        then record { score = nought; wall_used = reps.wall_used; attestations = attestations }
        else record {
          score = div (sum reps.rep_scores) (lit (length reps.rep_scores) 1);
          wall_used = reps.wall_used;
          attestations =
              attest conv trace_hash attestations hotkey item.ref nonce reps.last_result none;
        }

    module _ (sha256 : Text → Text)
        (run : Repo F → Text → ProbeSpec → ℕ → F → Outcome (Option (Value F) × F)) where
      -- `_score_repo_task`
      unfoldable pub score_repo_task :
          String → Repo F → Text → ℕ → F → F → List (Attestation F) → Outcome (RepoScore F)
      score_repo_task hotkey item seed repetitions wall_used wall_cap attestations =
          let nonce = task_nonce sha256 seed item.ref (codes hotkey) in
          let probe = derive_probe sha256 nonce in
          let start : Passes F = record {
            wall_used = wall_used;
            rep_scores = [];
            last_result = none;
          } in
          (do
            reps ← run_passes probe item (run item nonce probe) wall_cap 0 repetitions start
            returns (score_passes hotkey item nonce attestations reps))

      -- The loop over the repositories, to their scores and what was published.
      unfoldable pub score_repos :
          String
          → Text
          → ℕ
          → F
          → List (Repo F)
          → F
          → List (Attestation F)
          → Outcome (List F × List (Attestation F))
      score_repos hotkey seed repetitions wall_cap [] wall_used attestations =
          returns ([], attestations)
      score_repos hotkey seed repetitions wall_cap (item ∷ items) wall_used attestations = do
        done ← score_repo_task hotkey item seed repetitions wall_used wall_cap attestations
        (scores, published) ←
            score_repos hotkey seed repetitions wall_cap items done.wall_used done.attestations
        returns (done.score ∷ scores, published)

      -- `_score_agent` on the repositories track, and what it has published.
      unfoldable pub score_audits :
          String
          → List (Repo F)
          → Text
          → Budgets
          → List (Attestation F)
          → Outcome (F × List (Attestation F))
      score_audits hotkey task_set seed budgets attestations =
          if is_empty task_set then returns (nought, attestations) else (do
            (scores, published) ←
                score_repos hotkey seed budgets.repetitions
                  (lit (agent_wall_cap_s "repositories") 1) task_set nought attestations
            returns (div (sum scores) (lit (length task_set) 1), published))
