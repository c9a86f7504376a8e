-- ===== src/Proof/Evidence.antt =====
-- The evidence that an agent submits: `verify_probe_evidence` and `verify_proof_of_execution` of
-- phylax/analysis/proof.py.
pub mod Replay
use phylax_subnet.Prelude.{
  ℕ, ◌≡◌, Bool, true, false, not, ◌&&◌, ◌||◌, String, Option, none, some, List, [], ◌∷◌, ◌++◌, map,
  if◌then◌else◌, Dict, get, keys, any, ◌=ℕ◌,
}
use phylax_subnet.Prelude.Text.{Text, codes, same, contains, starts_with, lower}
use phylax_subnet.Number.{Float}
use phylax_subnet.Value.{
  ℤ, pos, Value, null, str, arr, obj, int, Items, nil, Fields, end, Outcome, returns, raises, ◌>>=◌,
  Conversions, items, entries, lookup, or_else, iterate, truthy, to_str, to_int, text_field,
}
use phylax_subnet.Proof.{ProbeSpec, ProofResult, proved, refused, expected_probe_evidence}

abbrev pub singletons : Text → List Text
singletons [] = []
singletons (c ∷ s) = (c ∷ []) ∷ singletons s

abbrev pub is_port : ℤ → ℕ → Bool
is_port (pos n) port = n =ℕ port
is_port _ port = false

module _ {F : Type 0} ⦃num : Float F⦄ (conv : Conversions F) where
  -- str(e.get(k, "") or "")
  unfoldable pub text_or_empty : Fields F → String → Text
  text_or_empty fs k = elim (get (entries fs) k) [
    | none ↦ []
    | some v ↦ if truthy v then to_str conv v else []
  ]

  unfoldable pub first_mismatch : Fields F → Dict Text → ProofResult
  first_mismatch fs [] = proved
  first_mismatch fs ((key, want) ∷ rest) =
      let later = first_mismatch fs rest in
      if same (text_or_empty fs key) want
      then later
      else refused (codes "probe_evidence." ++ codes key ++ codes " mismatch")

  unfoldable pub verify_probe_evidence : Value F → ProbeSpec → ProofResult
  verify_probe_evidence (obj fs) probe =
      if truthy (obj fs)
      then first_mismatch fs (expected_probe_evidence probe)
      else refused (codes "probe_evidence missing")
  verify_probe_evidence _ probe = refused (codes "probe_evidence missing")

  -- any(test(e) for e in events), where `test` calls `e.get`
  unfoldable pub any_event : (Fields F → Outcome Bool) → List (Value F) → Outcome Bool
  any_event test [] = returns false
  any_event test (obj e ∷ es) =
      let rest = any_event test es in do b ← test e; if b then returns true else rest
  any_event test (_ ∷ es) = raises

  unfoldable pub fs_has_probe : ProbeSpec → List (Value F) → Outcome Bool
  fs_has_probe probe = any_event λ e. returns (same (text_field conv e "path") probe.file_path)

  unfoldable pub network_has_probe : ProbeSpec → List (Value F) → Outcome Bool
  network_has_probe probe = any_event λ e.
      if same (text_or_empty e "domain") probe.dns_host then returns true else do
        let query = text_or_empty e "query"
        let proto = lower (text_field conv e "proto")
        dst_port ← lookup (obj e) "dst_port"
        port ← to_int conv (or_else dst_port (int (pos 0)))
        returns ((same proto (codes "dns") || is_port port 53) && contains query probe.dns_host)

  -- [str(a) for a in args], of any value that is iterable
  unfoldable pub texts_of : Value F → Outcome (List Text)
  texts_of (arr xs) = returns (map (to_str conv) (items xs))
  texts_of (str s) = returns (singletons (codes s))
  texts_of (obj fs) = returns (map codes (keys (entries fs)))
  texts_of _ = raises

  unfoldable pub process_has_probe : ProbeSpec → List (Value F) → Outcome Bool
  process_has_probe probe = any_event λ e. do
    let cmd = text_field conv e "cmd"
    given ← lookup (obj e) "args"
    let args = or_else given (arr nil)
    let joined = contains cmd (codes "echo") && contains cmd probe.process_echo
    if starts_with cmd (codes "echo")
        then (do
          texts ← texts_of args
          returns (any (λ a. contains a probe.process_echo) texts || joined))
        else returns joined

  -- The dict of one plane, `traces.get(plane) or {}`.
  abbrev pub plane_of : Value F → String → Outcome (Value F)
  plane_of traces plane = do found ← lookup traces plane; returns (or_else found (obj end))

  -- `trace_hash` is the hash of the canonical JSON of the events.
  module _ (trace_hash : Value F → Text) where
    unfoldable pub check_hashes : Value F → List String → Outcome ProofResult
    check_hashes traces [] = returns proved
    check_hashes traces (plane ∷ planes) =
        let rest = check_hashes traces planes in
        do
          trace ← plane_of traces plane
          hash ← lookup trace "hash"
          events ← lookup trace "events"
          let declared = if truthy hash then to_str conv hash else []
          if same (trace_hash (or_else events (arr nil))) declared
              then rest
              else returns (refused (codes plane ++ codes " trace hash mismatch"))

    -- (traces.get(plane) or {}).get("events") or []
    abbrev pub events_of : Value F → String → Outcome (Value F)
    events_of traces plane = do
      trace ← plane_of traces plane
      events ← lookup trace "events"
      returns (or_else events (arr nil))

    unfoldable pub check_effects : ProbeSpec → Value F → Outcome ProofResult
    check_effects probe traces = do
      fs ← events_of traces "filesystem"
      network ← events_of traces "network"
      process ← events_of traces "process"
      fs_events ← iterate fs
      in_fs ← fs_has_probe probe fs_events
      if not in_fs
          then returns (refused (codes "probe file write absent from filesystem trace"))
          else (do
            network_events ← iterate network
            in_network ← network_has_probe probe network_events
            if not in_network
                then returns (refused (codes "probe dns lookup absent from network trace"))
                else (do
                  process_events ← iterate process
                  in_process ← process_has_probe probe process_events
                  if not in_process
                      then returns (refused (codes "probe process echo absent from process trace"))
                      else returns proved))

    unfoldable pub check_traces : ProbeSpec → Value F → Outcome ProofResult
    check_traces probe poe = do
      found ← lookup poe "traces"
      let traces = or_else found (obj end)
      res ← check_hashes traces ("filesystem" ∷ "network" ∷ "process" ∷ [])
      if not res.passed then returns res else check_effects probe traces

    unfoldable pub verify_proof_of_execution : ProbeSpec → Value F → Bool → Outcome ProofResult
    verify_proof_of_execution probe evidence detonation = do
      given ← lookup (or_else evidence (obj end)) "proof_of_execution"
      let poe = or_else given (obj end)
      submitted ← lookup poe "probe_evidence"
      let res = verify_probe_evidence submitted probe
      if not res.passed
          then returns res
          else (if not detonation then returns proved else check_traces probe poe)
