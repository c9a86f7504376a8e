-- ===== src/Validator/Verified.antt =====
-- What a counted repetition has shown: `_run_rep` of neurons/validator.py.
use mathlib.Core.Path.{subst, sym}
use phylax_subnet.Prelude.{
  ℕ, ◌≡◌, ap, true, String, Option, none, some, List, Bool-cases, Option-cases, inl, inr,
}
use phylax_subnet.Prelude.Text.{Text, upper}
use phylax_subnet.Number.{Float}
use phylax_subnet.Number.Laws.{IsFloat}
use phylax_subnet.Value.{
  Value, obj, end, or_else, Outcome, returns, >>=-eq-returns, returned, by_branch, Conversions,
  lookup, text_field,
}
use phylax_subnet.Proof.{ProbeSpec, verify_validator_trace}
use phylax_subnet.Tracks.{evaluate}
use phylax_subnet.Tracks.Gate.{IsProved, evaluate-IsGated}
use phylax_subnet.Validator.{
  Rejections, ordinal_of, verdict_of, is_false, index, fields_of, dict_or_empty, trace_of, judge,
  run_rep,
}

refused_judge :
    {A P : Type 0} {o : A} → ◌≡◌ {A = Outcome (Option A)} (returns none) (returns (some o)) → P
refused_judge h = cc

refused_rep :
    {A B P : Type 0} {o : A} {x y : B}
    → ◌≡◌ {A = Outcome (Option A × B)} (returns (none, x)) (returns (some o, y))
    → P
refused_rep {A} h = refused_judge {A = A} (ap returns (ap (λ p. p.0) (returned _ _ h)))

module _ {F : Type 0} ⦃num : Float F⦄ (laws : IsFloat F) (conv : Conversions F)
    (trace_hash : Value F → Text) (track : String) (label : Option String) (probe : ProbeSpec) where
  -- The evidence of the result passes the proof of execution.
  abbrev pub HasProof : Value F → Type 0
  HasProof result =
      (evidence : Value F) × (index result "evidence" ≡ returns evidence)
      × IsProved laws conv trace_hash probe (or_else evidence (obj end))

  -- The trace that the validator recorded of the result passes its verification.
  abbrev pub HasTrace : Value F → Type 0
  HasTrace result =
      (trace : Value F) × (events : Option (List (Value F))) × (lookup result "validator_trace"
        ≡ returns trace)
      × (trace_of trace ≡ returns events)
      × ((verify_validator_trace conv probe events).passed ≡ true)

  judge-HasProof :
      (result : Value F) (o : ℕ)
      → judge conv trace_hash track label probe result ≡ returns (some o)
      → HasProof result
  unfolding judge
  judge-HasProof result o h =
      let (verdict, e1, h1) = >>=-eq-returns (index result "verdict") _ h in
      elim (Option-cases
        (ordinal_of (upper (text_field conv (dict_or_empty verdict) "decision")))) [
          | inl e ↦ refused_judge (rw e at h1)
          | inr (ordinal, e) ↦
              let (evidence, e2, h2) = >>=-eq-returns (index result "evidence") _ (rw e at h1) in
              let (ev, e3, h3) =
                >>=-eq-returns
                  (evaluate conv trace_hash probe track evidence (verdict_of ordinal) label) _ h2 in
              let (fair, gated) =
                evaluate-IsGated laws conv trace_hash probe track evidence (verdict_of ordinal)
                  label ev e3 in
              elim gated [
                | inl failed ↦ refused_judge (rw failed at h3)
                | inr proof ↦ (evidence, e2, proof)
              ]
        ]

  -- A repetition gives an ordinal only if the agent produced a result, the validator's own trace of
  -- the run shows the probe, and the evidence passes the proof of execution.
  pub run_rep-IsVerified :
      (result : Value F) (rejections after : Rejections) (o : ℕ)
      → run_rep conv trace_hash track label probe (some result) rejections ≡ returns (some o, after)
      → HasTrace result × HasProof result × (after ≡ rejections)
  unfolding run_rep
  run_rep-IsVerified result rejections after o h =
      let (file, e1, h1) = >>=-eq-returns (lookup result "observed_probe_file") _ h in
      by_branch (is_false file)
        (λ k. let (fs, e2, h2) = >>=-eq-returns (fields_of result) _ k in refused_rep h2)
        (λ k.
          let (trace, e2, h2) = >>=-eq-returns (lookup result "validator_trace") _ k in
          let (events, e3, h3) = >>=-eq-returns (trace_of trace) _ h2 in
          elim (Bool-cases (verify_validator_trace conv probe events).passed) [
            | inl e ↦
                let accepted = rw e at h3 in
                let (ordinal, e4, h4) =
                  >>=-eq-returns (judge conv trace_hash track label probe result) _ accepted in
                let both = returned _ _ h4 in
                (
                  (trace, events, e2, e3, e),
                  judge-HasProof result o (
                      subst (λ x. judge conv trace_hash track label probe result ≡ returns x)
                        (ap (λ p. p.0) both) e4),
                  ap (λ p. p.1) (sym both),
                )
            | inr e ↦ refused_rep (rw e at h3)
          ])
        h1
