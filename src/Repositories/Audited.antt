-- ===== src/Repositories/Audited.antt =====
-- What the evaluation of an audit depends on: `evaluate` of phylax/analysis/repositories.py.
use phylax_subnet.Prelude.{
  ℕ, ◌<◌, ◌≡◌, refl, sym, subst, Bool, true, false, ◌⊎◌, inl, inr, String, Option, arith, leb,
  Bool-cases,
}
use phylax_subnet.Prelude.Text.{codes}
use phylax_subnet.Number.{Float, nought, IsUnit}
use phylax_subnet.Number.Laws.{IsFloat, nought_refl, nought-le-one}
use phylax_subnet.Value.{
  Value, obj, end, arr, nil, is_dict, or_else, lookup, iterate, Outcome, returns, ◌>>=◌,
  Outcome-cases, >>=-eq-returns, returned, by_branch, Conversions,
}
use phylax_subnet.Scoring.{zero_result}
use phylax_subnet.Scoring.Bounds.{combine_gate, clip01-IsUnit}
use phylax_subnet.Tracks.{zeroed}
use phylax_subnet.Tracks.Common.{TrackEvaluation}
use phylax_subnet.Repositories.{
  files_of, truth_of, is_labelled_truth, unlabelled_components, dimensions, blend_dims, score_audit,
  evaluate_repositories,
}

module _ {F : Type 0} ⦃num : Float F⦄ where
  module _ (conv : Conversions F) where
    -- An audit of at least one file.
    abbrev pub IsAudited : Value F → Type 0
    IsAudited evidence =
        (audit : Value F) × (files : ℕ) × (lookup (or_else evidence (obj end)) "audit"
          ≡ returns audit)
        × (is_dict audit ≡ true)
        × (files_of conv audit ≡ returns files)
        × (0 < files)

    -- The evaluation of evidence without such an audit, or what the rest makes of its files.
    evaluate_cases :
        (evidence : Value F) (verdict : String) (label : Option String)
        (ground_truth : Option (Value F)) (t : TrackEvaluation F)
        → evaluate_repositories conv evidence verdict label ground_truth ≡ returns t
        → (t ≡ zeroed (codes "audit evidence missing"))
          ⊎ (IsAudited evidence
              × ((files : ℕ) × (score_audit conv
                      (or_else evidence (obj end))
                      verdict
                      label
                      ground_truth
                      files
                    ≡ returns t)))
    unfolding evaluate_repositories
    evaluate_cases evidence verdict label ground_truth t h =
        let (audit, e1, h1) = >>=-eq-returns (lookup (or_else evidence (obj end)) "audit") _ h in
        elim (Bool-cases (is_dict audit)) [
          | inr e ↦ inl (sym (returned _ _ (rw e at h1)))
          | inl e ↦
              let (files, e2, h2) = >>=-eq-returns (files_of conv audit) _ (rw e at h1) in
              elim (Bool-cases (leb files 0)) [
                | inl f ↦ inl (sym (returned _ _ (rw f at h2)))
                | inr f ↦ inr ((audit, files, e1, e, e2, ground arith), (files, rw f at h2))
              ]
        ]

    -- The score and the gate of an evaluation that returns.
    abbrev pub graded : Outcome (TrackEvaluation F) → Outcome (F × Bool)
    graded m = m >>= λ t. returns (t.result.score, t.result.gate_passed)

    score_audit-verdict :
        (evidence : Value F) (verdict verdict' : String) (label label' : Option String)
        (ground_truth : Option (Value F)) (files : ℕ)
        → is_labelled_truth (truth_of ground_truth) ≡ true
        → graded (score_audit conv evidence verdict label ground_truth files)
          ≡ graded (score_audit conv evidence verdict' label' ground_truth files)
    unfolding score_audit
    score_audit-verdict evidence verdict verdict' label label' ground_truth files h =
        elim (Outcome-cases (lookup evidence "vulnerabilities")) [
          | inl e ↦ rw e refl
          | inr (found, e) ↦
              elim (Outcome-cases (dimensions conv evidence (truth_of ground_truth))) [
                | inl f ↦ rw (e, h, f) refl
                | inr (dims, f) ↦ rw (e, h, f) refl
              ]
        ]

    -- Where the corpus labels the vulnerabilities, the supply chain or the secrets of a repository,
    -- neither the verdict of the agent nor the label of the task plays a part in its score.
    pub evaluate_repositories-verdict :
        (evidence : Value F) (verdict verdict' : String) (label label' : Option String)
        (ground_truth : Option (Value F))
        → is_labelled_truth (truth_of ground_truth) ≡ true
        → graded (evaluate_repositories conv evidence verdict label ground_truth)
          ≡ graded (evaluate_repositories conv evidence verdict' label' ground_truth)
    unfolding evaluate_repositories
    evaluate_repositories-verdict evidence verdict verdict' label label' ground_truth h =
        elim (Outcome-cases (lookup (or_else evidence (obj end)) "audit")) [
          | inl e ↦ rw e refl
          | inr (audit, e) ↦ elim (Bool-cases (is_dict audit)) [
            | inr f ↦ rw (e, f) refl
            | inl f ↦ elim (Outcome-cases (files_of conv audit)) [
              | inl g ↦ rw (e, f, g) refl
              | inr (files, g) ↦ elim (Bool-cases (leb files 0)) [
                | inl k ↦ rw (e, f, g, k) refl
                | inr k ↦
                    rw (e, f, g, k)
                      (score_audit-verdict (or_else evidence (obj end)) verdict verdict' label
                        label' ground_truth files h)
              ]
            ]
          ]
        ]

  module _ (laws : IsFloat F) (conv : Conversions F) where
    -- The score of an evaluation lies in the unit interval, is 0.0 where the gate failed, and
    -- passes the gate only with an audit of at least one file.
    abbrev pub IsFairAudit : Value F → TrackEvaluation F → Type 0
    IsFairAudit evidence t =
        IsUnit t.result.score
        × ((t.result.gate_passed ≡ true) ⊎ (t.result.score ≡ nought))
        × ((t.result.gate_passed ≡ false) ⊎ IsAudited conv evidence)

    score_audit-IsFair :
        (evidence : Value F) (verdict : String) (label : Option String)
        (ground_truth : Option (Value F)) (files : ℕ) (t : TrackEvaluation F)
        → score_audit conv evidence verdict label ground_truth files ≡ returns t
        → IsUnit t.result.score × ((t.result.gate_passed ≡ true) ⊎ (t.result.score ≡ nought))
    unfolding score_audit
    score_audit-IsFair evidence verdict label ground_truth files t h =
        let IsFair : TrackEvaluation F → Type 0 = λ u.
          IsUnit u.result.score × ((u.result.gate_passed ≡ true) ⊎ (u.result.score ≡ nought)) in
        let (found, e1, h1) = >>=-eq-returns (lookup evidence "vulnerabilities") _ h in
        by_branch (is_labelled_truth (truth_of ground_truth))
          (λ k.
            let (dims, e2, h2) =
              >>=-eq-returns (dimensions conv evidence (truth_of ground_truth)) _ k in
            subst IsFair (returned _ _ h2) (clip01-IsUnit laws (blend_dims dims), inl refl))
          (λ k.
            let (vs, e2, h2) = >>=-eq-returns (iterate (or_else found (arr nil))) _ k in
            let (unit, _, closed) =
              combine_gate laws (unlabelled_components verdict label files vs) in
            subst IsFair (returned _ _ h2) (unit, closed))
          h1

    pub evaluate_repositories-IsFairAudit :
        (evidence : Value F) (verdict : String) (label : Option String)
        (ground_truth : Option (Value F)) (t : TrackEvaluation F)
        → evaluate_repositories conv evidence verdict label ground_truth ≡ returns t
        → IsFairAudit evidence t
    unfolding zero_result
    evaluate_repositories-IsFairAudit evidence verdict label ground_truth t h =
        elim (evaluate_cases conv evidence verdict label ground_truth t h) [
          | inl e ↦ rw e ((nought_refl laws, nought-le-one laws), inr refl, inl refl)
          | inr (audited, (files, e)) ↦
              let (unit, gate) = score_audit-IsFair _ verdict label ground_truth files t e in
              (unit, gate, inr audited)
        ]
