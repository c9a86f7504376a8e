-- ===== src/Proof/Evidence/Replay.antt =====
-- Submitted evidence is bound to one probe: `verify_probe_evidence` and `verify_proof_of_execution`
-- of phylax/analysis/proof.py.
use phylax_subnet.Prelude.{
  ◌≡◌, refl, Bool, true, String, [], ◌∷◌, arith, Bool-cases, inl, inr, Dict, All,
}
use phylax_subnet.Prelude.Text.{Text, same, same→≡}
use phylax_subnet.Number.{Float}
use phylax_subnet.Value.{
  Value, null, obj, Fields, end, Outcome, returns, ◌>>=◌, >>=-eq-returns, Conversions, lookup,
  or_else,
}
use phylax_subnet.Proof.{ProbeSpec, ProofResult, expected_probe_evidence}
use phylax_subnet.Proof.Evidence.{
  text_or_empty, first_mismatch, verify_probe_evidence, verify_proof_of_execution,
}

module _ {F : Type 0} ⦃num : Float F⦄ (conv : Conversions F) where
  first_mismatch-All :
      (fs : Fields F) (wanted : Dict Text)
      → (first_mismatch conv fs wanted).passed ≡ true
      → All (λ (e : String × Text). text_or_empty conv fs e.0 ≡ e.1) wanted
  unfolding first_mismatch
  first_mismatch-All fs [] h = tt
  first_mismatch-All fs ((key, want) ∷ rest) h =
      elim (Bool-cases (same (text_or_empty conv fs key) want)) [
        | inl e ↦ (same→≡ _ _ e, first_mismatch-All fs rest (ground arith))
        | inr e ↦ ground arith
      ]

  submitted_fields :
      (submitted : Value F) (probe : ProbeSpec)
      → (verify_probe_evidence conv submitted probe).passed ≡ true
      → (fs : Fields F) × (submitted ≡ obj fs)
        × All
            (λ (e : String × Text). text_or_empty conv fs e.0 ≡ e.1)
            (expected_probe_evidence probe)
  unfolding verify_probe_evidence
  submitted_fields (obj fs) probe h =
      (fs, refl, first_mismatch-All fs (expected_probe_evidence probe) (ground arith))
  submitted_fields null probe h = cc
  submitted_fields _ probe h = cc

  -- The evidence that is compared with the probe.
  abbrev submission : Value F → Outcome (Value F)
  submission evidence = do
    given ← lookup (or_else evidence (obj end)) "proof_of_execution"
    lookup (or_else given (obj end)) "probe_evidence"

  submission_of_proof :
      (trace_hash : Value F → Text) (probe : ProbeSpec) (evidence : Value F) (detonation : Bool)
      (res : ProofResult)
      → verify_proof_of_execution conv trace_hash probe evidence detonation ≡ returns res
      → res.passed ≡ true
      → (s : Value F) × (submission evidence ≡ returns s)
        × ((verify_probe_evidence conv s probe).passed ≡ true)
  unfolding verify_proof_of_execution
  submission_of_proof trace_hash probe evidence detonation res run passed =
      let (given, e, run') =
        >>=-eq-returns (lookup (or_else evidence (obj end)) "proof_of_execution") _ run in
      let (s, e', run'') =
        >>=-eq-returns (lookup (or_else given (obj end)) "probe_evidence") _ run' in
      (
        s,
        rw (e, ◌>>=◌) e',
        elim (Bool-cases (verify_probe_evidence conv s probe).passed) [
          | inl ok ↦ ok
          | inr bad ↦ ground arith
        ],
      )

  agreed :
      (fs gs : Fields F) (p q : ProbeSpec)
      → obj fs ≡ obj gs
      → All (λ (e : String × Text). text_or_empty conv fs e.0 ≡ e.1) (expected_probe_evidence p)
      → All (λ (e : String × Text). text_or_empty conv gs e.0 ≡ e.1) (expected_probe_evidence q)
      → (p.file_path ≡ q.file_path)
        × (p.dns_host ≡ q.dns_host)
        × (p.process_echo ≡ q.process_echo)
        × (p.canary ≡ q.canary)
  agreed fs gs p q e (a, (b, (c, (d, _)))) (a', (b', (c', (d', _)))) = (cc, cc, cc, cc)

  -- Evidence that passes the proof of execution under two probes shows that they are one: they
  -- agree in path, host, token and canary. So evidence recorded for one nonce does not pass under
  -- another whose probe differs in any of these.
  pub proof_binds_probe :
      (trace_hash : Value F → Text) (p q : ProbeSpec) (evidence : Value F) (d d' : Bool)
      (r r' : ProofResult)
      → verify_proof_of_execution conv trace_hash p evidence d ≡ returns r
      → r.passed ≡ true
      → verify_proof_of_execution conv trace_hash q evidence d' ≡ returns r'
      → r'.passed ≡ true
      → (p.file_path ≡ q.file_path)
        × (p.dns_host ≡ q.dns_host)
        × (p.process_echo ≡ q.process_echo)
        × (p.canary ≡ q.canary)
  proof_binds_probe trace_hash p q evidence d d' r r' run passed run' passed' =
      let (s, e, ok) = submission_of_proof trace_hash p evidence d r run passed in
      let (t, f, ok') = submission_of_proof trace_hash q evidence d' r' run' passed' in
      let (fs, is_fs, all_p) = submitted_fields s p ok in
      let (gs, is_gs, all_q) = submitted_fields t q ok' in agreed fs gs p q (cc) all_p all_q
