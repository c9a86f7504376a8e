-- ===== src/Tracks/Gate.antt =====
-- The gate of an evaluation: phylax/analysis/skills.py, mcp.py and packages.py.
use mathlib.Core.Path.{subst}
use phylax_subnet.Prelude.{
  ◌≡◌, refl, true, false, not, ◌==◌, String, Option, List, Bool-cases, inl, inr, ◌⊎◌,
}
use phylax_subnet.Prelude.Text.{Text}
use phylax_subnet.Number.{Float, nought, IsUnit}
use phylax_subnet.Number.Laws.{IsFloat, nought-le-one, nought_refl}
use phylax_subnet.Value.{
  Value, arr, nil, obj, end, is_dict, or_else, iterate, Outcome, returns, >>=-eq-returns, returned,
  Conversions, lookup,
}
use phylax_subnet.Scoring.{ScoreComponents, zero_result, combine}
use phylax_subnet.Scoring.Bounds.{combine_gate}
use phylax_subnet.Proof.{ProbeSpec, ProofResult}
use phylax_subnet.Proof.Evidence.{verify_proof_of_execution}
use phylax_subnet.Tracks.Common.{
  ManifestEntry, TrackEvaluation, verdict_correctness, build_manifest, integrity_from_caps,
}
use phylax_subnet.Tracks.{
  zeroed, after_proof, with_dict, score_planes, evaluate_skills, evaluate_mcp, evaluate_packages,
  evaluate,
}

module _ {F : Type 0} ⦃num : Float F⦄ where
  module _ (laws : IsFloat F) where
    module _ (conv : Conversions F) (trace_hash : Value F → Text) (probe : ProbeSpec) where
      -- The score of an evaluation lies in the unit interval, and is 0.0 where the gate failed.
      abbrev pub IsFair : TrackEvaluation F → Type 0
      IsFair t = IsUnit t.result.score × ((t.result.gate_passed ≡ true) ⊎ (t.result.score ≡ nought))

      zeroed-IsFair : (why : Text) → IsFair (zeroed why)
      unfolding zero_result
      zeroed-IsFair why = ((nought_refl laws, nought-le-one laws), inr refl)

      combined-IsFair :
          (c : ScoreComponents F) (m : List (ManifestEntry F))
          → IsFair record { result = combine c; capability_manifest = m }
      combined-IsFair c m = let (unit, gate, closed) = combine_gate laws c in (unit, closed)

      score_planes-IsFair :
          (track : String) (plane : Value F) (verdict : String) (label : Option String)
          (quality : List (ManifestEntry F) → Outcome F) (t : TrackEvaluation F)
          → score_planes conv trace_hash probe track plane verdict label quality ≡ returns t
          → IsFair t
      unfolding score_planes
      score_planes-IsFair track plane verdict label quality t h =
          let (found, e1, h1) = >>=-eq-returns (lookup plane "capabilities") _ h in
          let (caps, e2, h2) = >>=-eq-returns (iterate (or_else found (arr nil))) _ h1 in
          let (built, e3, h3) = >>=-eq-returns (build_manifest conv track caps) _ h2 in
          let (solution, e4, h4) = >>=-eq-returns (quality built.0) _ h3 in
          subst IsFair (returned _ _ h4) (
            combined-IsFair
              record {
                verdict_correctness = verdict_correctness verdict label;
                evidence_integrity = integrity_from_caps caps built.1;
                solution_quality = solution;
                benchmark_agreement = verdict_correctness verdict label;
              }
              built.0)

      with_dict-IsFair :
          (evidence : Value F) (key : String) (rest : Value F → Outcome (TrackEvaluation F))
          (t : TrackEvaluation F)
          → ((plane : Value F) (t' : TrackEvaluation F) → rest plane ≡ returns t' → IsFair t')
          → with_dict conv trace_hash probe evidence key rest ≡ returns t
          → IsFair t
      unfolding with_dict
      with_dict-IsFair evidence key rest t fair h =
          let (plane, e1, h1) = >>=-eq-returns (lookup (or_else evidence (obj end)) key) _ h in
          elim (Bool-cases (not (is_dict plane))) [
            | inl e ↦ subst IsFair (returned _ _ (rw e at h1)) (zeroed-IsFair _)
            | inr e ↦ fair plane t (rw e at h1)
          ]

      -- The proof of execution of the evidence passes.
      abbrev pub IsProved : Value F → Type 0
      IsProved evidence =
          (poe : ProofResult) × (verify_proof_of_execution conv trace_hash probe evidence true
            ≡ returns poe)
          × (poe.passed ≡ true)

      abbrev pub IsGated : Value F → TrackEvaluation F → Type 0
      IsGated evidence t =
          IsFair t × ((t.result.gate_passed ≡ false) ⊎ IsProved (or_else evidence (obj end)))

      zeroed-IsGated : (evidence : Value F) (why : Text) → IsGated evidence (zeroed why)
      unfolding zero_result
      zeroed-IsGated evidence why = (zeroed-IsFair why, inl refl)

      after_proof-IsGated :
          (evidence : Value F) (rest : Outcome (TrackEvaluation F)) (t : TrackEvaluation F)
          → ((t' : TrackEvaluation F) → rest ≡ returns t' → IsFair t')
          → after_proof conv trace_hash probe evidence rest ≡ returns t
          → IsGated evidence t
      unfolding after_proof
      after_proof-IsGated evidence rest t fair h =
          let (poe, e1, h1) =
            >>=-eq-returns
              (verify_proof_of_execution conv trace_hash probe (or_else evidence (obj end)) true) _
              h in
          elim (Bool-cases (poe.passed)) [
            | inl e ↦ (fair t (rw e at h1), inr (poe, e1, e))
            | inr e ↦
                subst (IsGated evidence) (returned _ _ (rw e at h1)) (zeroed-IsGated evidence _)
          ]

      evaluate_skills-IsGated :
          (evidence : Value F) (verdict : String) (label : Option String) (t : TrackEvaluation F)
          → evaluate_skills conv trace_hash probe evidence verdict label ≡ returns t
          → IsGated evidence t
      unfolding evaluate_skills
      evaluate_skills-IsGated evidence verdict label t h =
          after_proof-IsGated evidence _ t
            (λ t1 h1.
              with_dict-IsFair evidence "action_plane" _ t1
                (λ action t2 h2.
                  with_dict-IsFair evidence "context_plane" _ t2
                    (λ context t3 h3. score_planes-IsFair "skills" action verdict label _ t3 h3) h2)
                h1)
            h

      evaluate_mcp-IsGated :
          (evidence : Value F) (verdict : String) (label : Option String) (t : TrackEvaluation F)
          → evaluate_mcp conv trace_hash probe evidence verdict label ≡ returns t
          → IsGated evidence t
      unfolding evaluate_mcp
      evaluate_mcp-IsGated evidence verdict label t h =
          after_proof-IsGated evidence _ t
            (λ t1 h1.
              with_dict-IsFair evidence "action_plane" _ t1
                (λ action t2 h2.
                  with_dict-IsFair evidence "context_plane" _ t2
                    (λ context t3 h3.
                      with_dict-IsFair evidence "mcp_surface" _ t3
                        (λ surface t4 h4.
                          score_planes-IsFair "mcp_servers" action verdict label _ t4 h4)
                        h3)
                    h2)
                h1)
            h

      evaluate_packages-IsGated :
          (evidence : Value F) (verdict : String) (label : Option String) (t : TrackEvaluation F)
          → evaluate_packages conv trace_hash probe evidence verdict label ≡ returns t
          → IsGated evidence t
      unfolding evaluate_packages
      evaluate_packages-IsGated evidence verdict label t h =
          after_proof-IsGated evidence _ t
            (λ t1 h1.
              with_dict-IsFair evidence "action_plane" _ t1
                (λ action t2 h2.
                  with_dict-IsFair evidence "lifecycle" _ t2
                    (λ lifecycle t3 h3.
                      with_dict-IsFair evidence "supply_chain" _ t3
                        (λ chain t4 h4. score_planes-IsFair "packages" action verdict label _ t4 h4)
                        h3)
                    h2)
                h1)
            h

      -- An evaluation of a behavioural run that returns has its score in the unit interval, scores
      -- 0.0 where its gate failed, and passes the gate only if the proof of execution of its
      -- evidence passes.
      pub evaluate-IsGated :
          (track : String) (evidence : Value F) (verdict : String) (label : Option String)
          (t : TrackEvaluation F)
          → evaluate conv trace_hash probe track evidence verdict label ≡ returns t
          → IsGated evidence t
      unfolding evaluate
      evaluate-IsGated track evidence verdict label t h = elim (Bool-cases (track == "skills")) [
        | inl e ↦ evaluate_skills-IsGated evidence verdict label t (rw e at h)
        | inr e ↦ elim (Bool-cases (track == "mcp_servers")) [
          | inl e' ↦ evaluate_mcp-IsGated evidence verdict label t (rw (e, e') at h)
          | inr e' ↦ elim (Bool-cases (track == "packages")) [
            | inl e'' ↦ evaluate_packages-IsGated evidence verdict label t (rw (e, e', e'') at h)
            | inr e'' ↦
                subst (IsGated evidence) (returned _ _ (rw (e, e', e'') at h))
                  (zeroed-IsGated evidence _)
          ]
        ]
      ]
