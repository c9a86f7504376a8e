-- ===== src/Examples/Runs.antt =====
-- The proof of execution and the evaluation of one agent's evidence.
use phylax_subnet.Prelude.{List, [], ◌∷◌, ◌≡◌, refl, true, false, none, some, [], any, get, ◌&&◌}
use phylax_subnet.Prelude.Text.{codes, same, starts_with, contains, lower}
use phylax_subnet.Number.Fixed.{Fixed, fixed_float, Fixed-IsFloat}
use phylax_subnet.Value.{
  Value, str, returns, lookup, iterate, len, truthy, or_else, to_str, to_int, text_field,
}
use phylax_subnet.Proof.{ProbeSpec, proved, derive_probe, verify_validator_trace}
use phylax_subnet.Proof.Trace.{shows_fs, shows_net, shows_proc, verify_validator_trace_exact}
use phylax_subnet.Proof.Evidence.{
  text_or_empty, first_mismatch, verify_probe_evidence, any_event, fs_has_probe, network_has_probe,
  texts_of, process_has_probe, check_hashes, check_effects, check_traces, verify_proof_of_execution,
}
use phylax_subnet.Proof.Evidence.Replay.{proof_binds_probe}
use phylax_subnet.Scoring.{zero_result, clip01, combine}
use phylax_subnet.Tracks.Common.{
  ManifestEntry, TrackEvaluation, build_manifest, manifest_of, manifest_entry, entry_texts,
  integrity_from_caps, verdict_correctness, is_labelled,
}
use phylax_subnet.Capability
use phylax_subnet.Tracks.{
  zeroed, evaluate, evaluate_skills, after_proof, with_dict, score_planes, skills_quality, count_of,
}
use phylax_subnet.Tracks.Gate.{IsGated, evaluate-IsGated}
use phylax_subnet.Capability.{
  is_valid_for, same_group, taxonomy, permissions_of, find_last, track_groups, groups_for_track,
}
use phylax_subnet.Examples.{digest, hash_of, plain, result_or, evidence, trace}

abbrev probe : ProbeSpec
probe = derive_probe digest (codes "nonce")

-- The probe of a nonce with the same digest.
abbrev twin : ProbeSpec
twin = derive_probe digest (codes "other")

verify_validator_trace_exact_example :
    ((verify_validator_trace {F = Fixed} plain probe (some trace)).passed ≡ (
      any (shows_fs plain probe) trace
      && any (shows_net plain probe) trace
      && any (shows_proc plain probe) trace))
    × ((verify_validator_trace {F = Fixed} plain probe none).passed ≡ false)
verify_validator_trace_exact_example = verify_validator_trace_exact plain probe trace

evidence_passes :
    (verify_proof_of_execution plain hash_of probe evidence true ≡ returns proved)
    × (verify_proof_of_execution plain hash_of twin evidence true ≡ returns proved)
unfolding get codes same starts_with contains lower lookup iterate truthy or_else to_str to_int
    text_field derive_probe text_or_empty first_mismatch verify_probe_evidence any_event
    fs_has_probe network_has_probe texts_of process_has_probe check_hashes check_effects
    check_traces verify_proof_of_execution
evidence_passes = (refl, refl)

proof_binds_probe_example :
    (probe.file_path ≡ twin.file_path)
    × (probe.dns_host ≡ twin.dns_host)
    × (probe.process_echo ≡ twin.process_echo)
    × (probe.canary ≡ twin.canary)
proof_binds_probe_example =
    proof_binds_probe plain hash_of probe twin evidence true true proved proved evidence_passes.0
      refl evidence_passes.1 refl

abbrev evaluation : TrackEvaluation Fixed
evaluation =
    result_or (zeroed [])
      (evaluate plain hash_of probe "skills" evidence "BLOCK" (some "malicious"))

evaluation_returns :
    evaluate plain hash_of probe "skills" evidence "BLOCK" (some "malicious") ≡ returns evaluation
unfolding get codes same starts_with contains lower lookup iterate len truthy or_else to_str to_int
    text_field derive_probe text_or_empty first_mismatch verify_probe_evidence any_event
    fs_has_probe network_has_probe texts_of process_has_probe check_hashes check_effects
    check_traces verify_proof_of_execution zero_result clip01 combine evaluate evaluate_skills
    after_proof with_dict score_planes skills_quality count_of build_manifest manifest_of
    manifest_entry entry_texts integrity_from_caps verdict_correctness is_labelled Capability.lookup
evaluation_returns = refl

evaluate-IsGated_example : IsGated Fixed-IsFloat plain hash_of probe evidence evaluation
evaluate-IsGated_example =
    evaluate-IsGated Fixed-IsFloat plain hash_of probe "skills" evidence "BLOCK" (some "malicious")
      evaluation evaluation_returns

abbrev capabilities : List (Value Fixed)
capabilities = str "READ_FILE" ∷ str "no.such.capability" ∷ []

abbrev manifest : List (ManifestEntry Fixed) × Fixed
manifest = result_or ([], 0) (build_manifest plain "skills" capabilities)

manifest_returns : build_manifest plain "skills" capabilities ≡ returns (manifest.0, manifest.1)
unfolding codes same build_manifest manifest_of manifest_entry entry_texts is_valid_for same_group
    taxonomy permissions_of find_last track_groups groups_for_track get Capability.lookup
manifest_returns = refl
