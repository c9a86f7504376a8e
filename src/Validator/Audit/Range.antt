-- ===== src/Validator/Audit/Range.antt =====
-- The range of the score of the repositories track in neurons/validator.py.
use phylax_subnet.Prelude.{
  ℕ, zero, suc, ◌+◌, ◌≤◌, ◌<◌, ◌≡◌, refl, subst, not, false, String, Option, none, some, List, [],
  ◌∷◌, arith, All, All-append, length, length-append, is_empty, Bool-cases, inl, inr,
}
use phylax_subnet.Prelude.Text.{Text, codes}
use phylax_subnet.Number.{Float, nought, IsUnit}
use phylax_subnet.Number.Laws.{IsFloat, exact, mean-IsUnit, nought_refl, nought-le-one}
use phylax_subnet.Value.{Value, Outcome, returns, >>=-eq-returns, returned, by_branch, Conversions}
use phylax_subnet.Proof.{ProbeSpec, derive_probe}
use phylax_subnet.Rounds.{Budgets, agent_wall_cap_s, task_nonce}
use phylax_subnet.Scoring.{clip01}
use phylax_subnet.Scoring.Bounds.{clip01-IsUnit}
use phylax_subnet.Validator.{index, dict_or_empty}
use phylax_subnet.Validator.Verdict.{Attestation, attest}
use phylax_subnet.Repositories.{evaluate_track}
use phylax_subnet.Validator.Audit.{
  Repo, Passes, RepoScore, decision_of, take_result, run_passes, score_passes, score_repo_task,
  score_repos, score_audits,
}

filled : {A : Type 0} (xs : List A) → is_empty xs ≡ false → 0 < length xs
filled [] e = cc
filled (x ∷ xs) e = omega arith

module _ {F : Type 0} ⦃num : Float F⦄ (laws : IsFloat F) where
  open num use {lit, add, sub, div, le}

  -- The scores so far lie in the unit interval, and there are at most `n` of them.
  record IsScored (n : ℕ) (reps : Passes F) : Type 0 where
    unit : All IsUnit reps.rep_scores
    few : length reps.rep_scores ≤ n

  module _ (conv : Conversions F) (trace_hash : Value F → Text) where
    take_result-IsScored :
        (n : ℕ) (probe : ProbeSpec) (item : Repo F) (reps reps' : Passes F) (ran : Option (Value F))
        → IsScored n reps
        → take_result conv trace_hash probe item reps ran ≡ returns reps'
        → IsScored (n + 1) reps'
    unfolding take_result
    take_result-IsScored n probe item reps reps' none s h =
        subst (IsScored (n + 1)) (returned _ _ h)
          (record { unit = s.unit; few = omega (arith, s.few) })
    take_result-IsScored n probe item reps reps' (some result) s h =
        let (verdict, e1, h1) = >>=-eq-returns (index result "verdict") _ h in
        let (evidence, e2, h2) = >>=-eq-returns (index result "evidence") _ h1 in
        let (ev, e3, h3) =
          >>=-eq-returns
            (evaluate_track conv trace_hash probe "repositories" evidence
              (decision_of conv trace_hash (dict_or_empty verdict)) item.label item.ground_truth)
            _ h2 in
        elim (Bool-cases (not ev.result.gate_passed)) [
          | inl e ↦
              subst (IsScored (n + 1)) (returned _ _ (rw e at h3))
                (record { unit = s.unit; few = omega (arith, s.few) })
          | inr e ↦ subst (IsScored (n + 1)) (returned _ _ (rw e at h3)) (record {
            unit = All-append IsUnit _ _ s.unit (clip01-IsUnit laws ev.result.score, tt);
            few = omega (arith, s.few, length-append reps.rep_scores (clip01 ev.result.score ∷ []));
          })
        ]

    run_passes-IsScored :
        (probe : ProbeSpec) (item : Repo F) (run : ℕ → F → Outcome (Option (Value F) × F))
        (wall_cap : F) (i n m : ℕ) (reps reps' : Passes F)
        → IsScored m reps
        → run_passes conv trace_hash probe item run wall_cap i n reps ≡ returns reps'
        → IsScored (m + n) reps'
    unfolding run_passes
    run_passes-IsScored probe item run wall_cap i zero m reps reps' s h =
        subst (IsScored (m + 0)) (returned _ _ h)
          (record { unit = s.unit; few = omega (arith, s.few) })
    run_passes-IsScored probe item run wall_cap i (suc n) m reps reps' s h =
        by_branch (le (sub wall_cap reps.wall_used) nought)
          (λ k.
            subst (IsScored (m + suc n)) (returned _ _ k)
              (record { unit = s.unit; few = omega (arith, s.few) }))
          (λ k.
            let (ran, e1, h1) = >>=-eq-returns (run i (sub wall_cap reps.wall_used)) _ k in
            let timed : Passes F = record reps { wall_used = add reps.wall_used ran.1 } in
            let (next, e2, h2) =
              >>=-eq-returns (take_result conv trace_hash probe item timed ran.0) _ h1 in
            let one_more =
              take_result-IsScored m probe item timed next ran.0
                (record { unit = s.unit; few = s.few }) e2 in
            let all =
              run_passes-IsScored probe item run wall_cap (i + 1) n (m + 1) next reps' one_more
                h2 in
            record { unit = all.unit; few = omega (arith, all.few) })
          h

    length-attest :
        (published : List (Attestation F)) (hotkey : String) (ref nonce : Text)
        (result : Option (Value F))
        → length (attest conv trace_hash published hotkey ref nonce result none)
          ≤ length published + 1
    length-attest published hotkey ref nonce none = omega arith
    length-attest published hotkey ref nonce (some result) =
        omega (arith, length-append published _)

    -- A score of the unit interval, and one attestation more at most.
    abbrev IsDone : ℕ → RepoScore F → Type 0
    IsDone n done = IsUnit done.score × (length done.attestations ≤ n + 1)

    score_passes-IsDone :
        (hotkey : String) (item : Repo F) (nonce : Text) (published : List (Attestation F)) (n : ℕ)
        (reps : Passes F)
        → n ≤ exact
        → IsScored n reps
        → IsDone (length published) (score_passes conv trace_hash hotkey item nonce published reps)
    unfolding score_passes
    score_passes-IsDone hotkey item nonce published n reps few s =
        elim (Bool-cases (is_empty reps.rep_scores)) [
          | inl e ↦ rw e ((nought_refl laws, nought-le-one laws), omega arith)
          | inr e ↦ rw e (
            mean-IsUnit laws reps.rep_scores (filled reps.rep_scores e) (omega (arith, s.few))
                s.unit,
            length-attest published hotkey item.ref nonce reps.last_result,
          )
        ]

    module _ (sha256 : Text → Text)
        (run : Repo F → Text → ProbeSpec → ℕ → F → Outcome (Option (Value F) × F)) where
      score_repo_task-IsDone :
          (hotkey : String) (item : Repo F) (seed : Text) (n : ℕ) (wall_used wall_cap : F)
          (published : List (Attestation F)) (done : RepoScore F)
          → n ≤ exact
          → score_repo_task conv trace_hash sha256 run hotkey item seed n wall_used wall_cap
              published
            ≡ returns done
          → IsDone (length published) done
      unfolding score_repo_task
      score_repo_task-IsDone hotkey item seed n wall_used wall_cap published done few h =
          let nonce = task_nonce sha256 seed item.ref (codes hotkey) in
          let start : Passes F = record {
            wall_used = wall_used;
            rep_scores = [];
            last_result = none;
          } in
          let (reps, e1, h1) =
            >>=-eq-returns
              (run_passes conv trace_hash (derive_probe sha256 nonce) item
                (run item nonce (derive_probe sha256 nonce)) wall_cap 0 n start)
              _ h in
          let s =
            run_passes-IsScored (derive_probe sha256 nonce) item
              (run item nonce (derive_probe sha256 nonce)) wall_cap 0 n 0 start reps
              (record { unit = tt; few = omega arith }) e1 in
          subst (IsDone (length published)) (returned _ _ h1) (
            score_passes-IsDone hotkey item nonce published n reps few
              (record { unit = s.unit; few = omega (arith, s.few) }))

      -- Scores of the unit interval, one for each repository, and one attestation each at most.
      abbrev IsAll : ℕ → ℕ → List F × List (Attestation F) → Type 0
      IsAll n published r = All IsUnit r.0 × (length r.0 ≡ n) × (length r.1 ≤ published + n)

      score_repos-IsAll :
          (hotkey : String) (seed : Text) (n : ℕ) (wall_cap : F) (items : List (Repo F))
          (wall_used : F) (published : List (Attestation F)) (r : List F × List (Attestation F))
          → n ≤ exact
          → score_repos conv trace_hash sha256 run hotkey seed n wall_cap items wall_used published
            ≡ returns r
          → IsAll (length items) (length published) r
      unfolding score_repos
      score_repos-IsAll hotkey seed n wall_cap [] wall_used published r few h =
          subst (IsAll 0 (length published)) (returned _ _ h) (tt, refl, omega arith)
      score_repos-IsAll hotkey seed n wall_cap (item ∷ items) wall_used published r few h =
          let (done, e1, h1) =
            >>=-eq-returns
              (score_repo_task conv trace_hash sha256 run hotkey item seed n wall_used wall_cap
                published)
              _ h in
          let (rest, e2, h2) =
            >>=-eq-returns
              (score_repos conv trace_hash sha256 run hotkey seed n wall_cap items done.wall_used
                done.attestations)
              _ h1 in
          let (unit, one_more) =
            score_repo_task-IsDone hotkey item seed n wall_used wall_cap published done few e1 in
          let (units, len, more) =
            score_repos-IsAll hotkey seed n wall_cap items done.wall_used done.attestations rest few
              e2 in
          subst (IsAll (suc (length items)) (length published)) (returned _ _ h2)
            ((unit, units), omega arith, omega arith)

      -- The score of an agent on up to 2 ^ 53 repositories, of up to as many repetitions each,
      -- lies in the unit interval, and at most one attestation is published for each.
      pub score_audits-IsUnit :
          (hotkey : String) (task_set : List (Repo F)) (seed : Text) (budgets : Budgets)
          (published : List (Attestation F)) (r : F × List (Attestation F))
          → length task_set ≤ exact
          → budgets.repetitions ≤ exact
          → score_audits conv trace_hash sha256 run hotkey task_set seed budgets published
            ≡ returns r
          → IsUnit r.0 × (length r.1 ≤ length published + length task_set)
      unfolding score_audits
      score_audits-IsUnit hotkey task_set seed budgets published r many few h =
          elim (Bool-cases (is_empty task_set)) [
            | inl e ↦
                subst
                  (λ (q : F × List (Attestation F)).
                    IsUnit q.0 × (length q.1 ≤ length published + length task_set))
                  (returned _ _ (rw e at h)) ((nought_refl laws, nought-le-one laws), omega arith)
            | inr e ↦
                let (all, e1, h1) =
                  >>=-eq-returns
                    (score_repos conv trace_hash sha256 run hotkey seed budgets.repetitions
                      (lit (agent_wall_cap_s "repositories") 1) task_set nought published)
                    _ (rw e at h) in
                let (units, len, more) =
                  score_repos-IsAll hotkey seed _ _ task_set nought published all few e1 in
                let some_task = filled task_set e in
                let mean = mean-IsUnit laws all.0 (omega arith) (omega arith) units in
                subst
                  (λ (q : F × List (Attestation F)).
                    IsUnit q.0 × (length q.1 ≤ length published + length task_set))
                  (returned _ _ h1) (rw len at mean, more)
          ]
