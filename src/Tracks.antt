-- ===== src/Tracks.antt =====
-- The evaluation of one run by track: phylax/analysis/tracks.py, skills.py, mcp.py and packages.py.
pub mod Common
pub mod Gate
pub mod Manifest
use phylax_subnet.Prelude.{
  ℕ, ◌+◌, ◌*◌, Bool, true, false, not, ◌&&◌, ◌||◌, String, Option, none, some, List, [], ◌∷◌, ◌++◌,
  ◌==◌, if◌then◌else◌, length,
}
use phylax_subnet.Prelude.Text.{Text, codes}
use phylax_subnet.Number.{Float, nought, one, min}
use phylax_subnet.Value.{
  Value, null, arr, nil, obj, end, is_dict, truthy, or_else, iterate, len, Outcome, returns, raises,
  ◌>>=◌, Conversions, lookup,
}
use phylax_subnet.Scoring.{ScoreResult, ScoreComponents, clip01, zero_result, combine}
use phylax_subnet.Proof.{ProbeSpec, ProofResult}
use phylax_subnet.Proof.Evidence.{verify_proof_of_execution}
use Common.{
  ManifestEntry, TrackEvaluation, verdict_correctness, build_manifest, integrity_from_caps,
}

module _ {F : Type 0} ⦃num : Float F⦄ where
  open num use {lit, add, mul}

  abbrev pub zeroed : Text → TrackEvaluation F
  zeroed why = record { result = zero_result why; capability_manifest = [] }

  -- min(1.0, n / d)
  abbrev pub depth : ℕ → ℕ → F
  depth n d = min one (lit n d)

  -- len(v.get(k) or [])
  unfoldable pub count_of : Value F → String → Outcome ℕ
  count_of v k = do found ← lookup v k; len (or_else found (arr nil))

  -- How many elements of (v.get(k) or []) are dicts with a truthy field.
  unfoldable pub count_dicts : String → List (Value F) → ℕ
  count_dicts key [] = 0
  count_dicts key (v ∷ vs) =
      let rest = count_dicts key vs in
      elim (lookup v key) [ returns x ↦ if truthy x then rest + 1 else rest | raises ↦ rest ]

  unfoldable pub skills_quality : List (ManifestEntry F) → Value F → Outcome F
  skills_quality manifest context_plane = do
    injected ← count_of context_plane "injected_instructions"
    returns (
        clip01
          (add (mul (lit 6 10) (depth (length manifest) 6)) (mul (lit 4 10) (depth injected 3))))

  unfoldable pub mcp_quality : List (ManifestEntry F) → Value F → Value F → Outcome F
  mcp_quality manifest context_plane mcp_surface = do
    injected ← count_of context_plane "injected_instructions"
    exposed ← lookup mcp_surface "exposed_tools"
    let tools = or_else exposed (arr nil)
    poisoning ← lookup mcp_surface "tool_poisoning"
    listed ← iterate tools
    poison ← len (or_else poisoning (arr nil))
    returns (
        clip01 (
          add
            (add (mul (lit 45 100) (depth (length manifest) 6))
              (mul (lit 25 100) (depth injected 3)))
            (mul (lit 30 100)
              (depth (length listed + 2 * poison + count_dicts "schema_mismatch" listed) 6))))

  -- Whether a phase of the lifecycle counts.
  unfoldable pub phase_counts : Value F → String → Outcome Bool
  phase_counts lifecycle key = do
    found ← lookup lifecycle key
    let phase = or_else found (obj end)
    if not (is_dict phase) then returns false else (do
      hook ← lookup phase "hook_executed"
      effects ← lookup phase "side_effects"
      capabilities ← lookup phase "capabilities"
      returns (truthy hook || truthy effects || truthy capabilities))

  unfoldable pub lifecycle_depth : Value F → Outcome F
  lifecycle_depth lifecycle = do
    install ← phase_counts lifecycle "install_time"
    imported ← phase_counts lifecycle "import_time"
    let first : F = if install then add nought (lit 5 10) else nought
    returns (min one (if imported then add first (lit 5 10) else first))

  -- sum(len(d.get("cve") or []) for d in deps if isinstance(d, dict))
  unfoldable pub count_cves : List (Value F) → Outcome ℕ
  count_cves [] = returns 0
  count_cves (d ∷ ds) =
      let rest = count_cves ds in
      if is_dict d then (do n ← count_of d "cve"; m ← rest; returns (n + m)) else rest

  unfoldable pub supply_chain_depth : Value F → Outcome F
  supply_chain_depth supply_chain = do
    found ← lookup supply_chain "dependencies"
    deps ← iterate (or_else found (arr nil))
    cve ← count_cves deps
    squat ← lookup supply_chain "typosquat"
    suspected ← lookup (or_else squat (obj end)) "suspected"
    confused ← lookup supply_chain "dependency_confusion"
    let typo : ℕ = if truthy suspected then 1 else 0
    let confusion : ℕ = if truthy confused then 1 else 0
    returns (depth (length deps + 2 * cve + 2 * typo + 2 * confusion) 6)

  unfoldable pub packages_quality : List (ManifestEntry F) → Value F → Value F → Outcome F
  packages_quality manifest lifecycle supply_chain = do
    life ← lifecycle_depth lifecycle
    chain ← supply_chain_depth supply_chain
    returns (
        clip01 (
          add (add (mul (lit 4 10) (depth (length manifest) 6)) (mul (lit 3 10) life))
            (mul (lit 3 10) chain)))

  module _ (conv : Conversions F) (trace_hash : Value F → Text) (probe : ProbeSpec) where
    -- The end that the three behavioural tracks share: the manifest and the combined score.
    unfoldable pub score_planes :
        String
        → Value F
        → String
        → Option String
        → (List (ManifestEntry F) → Outcome F)
        → Outcome (TrackEvaluation F)
    score_planes track action_plane verdict label quality = do
      found ← lookup action_plane "capabilities"
      capabilities ← iterate (or_else found (arr nil))
      (manifest, fraction) ← build_manifest conv track capabilities
      solution ← quality manifest
      returns record {
        result = combine record {
          verdict_correctness = verdict_correctness verdict label;
          evidence_integrity = integrity_from_caps capabilities fraction;
          solution_quality = solution;
          benchmark_agreement = verdict_correctness verdict label;
        };
        capability_manifest = manifest;
      }

    -- The start that they share: a failed proof of execution scores zero.
    unfoldable pub after_proof : Value F → Outcome (TrackEvaluation F) → Outcome (TrackEvaluation F)
    after_proof evidence rest = do
      poe ← verify_proof_of_execution conv trace_hash probe (or_else evidence (obj end)) true
      if not poe.passed then returns (zeroed poe.reason) else rest

    -- The evidence must hold a dict under the key.
    unfoldable pub with_dict :
        Value F → String → (Value F → Outcome (TrackEvaluation F)) → Outcome (TrackEvaluation F)
    with_dict evidence key rest = do
      plane ← lookup (or_else evidence (obj end)) key
      if not (is_dict plane) then returns (zeroed (codes key ++ codes " missing")) else rest plane

    unfoldable pub evaluate_skills : Value F → String → Option String → Outcome (TrackEvaluation F)
    evaluate_skills evidence verdict label = after_proof evidence (
        with_dict evidence "action_plane" λ action_plane.
          with_dict evidence "context_plane" λ context_plane.
            score_planes "skills" action_plane verdict label
              λ manifest. skills_quality manifest context_plane)

    unfoldable pub evaluate_mcp : Value F → String → Option String → Outcome (TrackEvaluation F)
    evaluate_mcp evidence verdict label = after_proof evidence (
        with_dict evidence "action_plane" λ action_plane.
          with_dict evidence "context_plane" λ context_plane.
            with_dict evidence "mcp_surface" λ mcp_surface.
              score_planes "mcp_servers" action_plane verdict label
                λ manifest. mcp_quality manifest context_plane mcp_surface)

    unfoldable pub evaluate_packages :
        Value F → String → Option String → Outcome (TrackEvaluation F)
    evaluate_packages evidence verdict label = after_proof evidence (
        with_dict evidence "action_plane" λ action_plane.
          with_dict evidence "lifecycle" λ lifecycle.
            with_dict evidence "supply_chain" λ supply_chain.
              score_planes "packages" action_plane verdict label
                λ manifest. packages_quality manifest lifecycle supply_chain)

    -- `tracks.evaluate` on the tracks whose artifacts are run; `repositories` has its own path.
    unfoldable pub evaluate :
        String → Value F → String → Option String → Outcome (TrackEvaluation F)
    evaluate track evidence verdict label =
        if track == "skills"
        then evaluate_skills evidence verdict label
        else if track == "mcp_servers"
        then evaluate_mcp evidence verdict label
        else if track == "packages"
        then evaluate_packages evidence verdict label
        else returns (zeroed (codes "unknown track '" ++ codes track ++ codes "'"))
