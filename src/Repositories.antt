-- ===== src/Repositories.antt =====
-- The evaluation of a repository audit: phylax/analysis/repositories.py. Digits, lower-casing and
-- white space are those of ASCII, and no number of the evidence is infinite.
pub mod Finding
pub mod Paths
pub mod Audited
use phylax_subnet.Prelude.{
  ℕ, ◌+◌, ◌≡◌, Bool, true, false, not, ◌&&◌, ◌||◌, String, Option, none, some, List, [], ◌∷◌, ◌++◌,
  ◌==◌, leb, if◌then◌else◌, any, length, is_empty, get, map, keep, member, keys,
}
use phylax_subnet.Prelude.Text.{Text, codes, same, lower, strip}
use phylax_subnet.Number.{Float, nought, one, min, sum, equal}
use phylax_subnet.Value.{
  ℤ, Value, null, items, arr, nil, int, pos, negsuc, obj, Fields, end, entries, is_dict, truthy,
  or_else, iterate, Outcome, returns, raises, ◌>>=◌, Conversions, text_field, lookup, to_int,
}
use phylax_subnet.Scoring.{ScoreComponents, ScoreResult, clip01, fbeta, zero_result, combine}
use phylax_subnet.Matching.{count_hits}
use phylax_subnet.Quality.{dicts}
use phylax_subnet.Proof.{ProbeSpec}
use phylax_subnet.Tracks.{depth, zeroed, evaluate}
use phylax_subnet.Tracks.Common.{TrackEvaluation, verdict_correctness}
use Finding.{norm_file, vuln_matches, near}

-- An entry of the supply chain, with its type and its name.
pub record Supply : Type 0 where
  pub kind : Text
  pub name : Text

module _ {F : Type 0} ⦃num : Float F⦄ where
  open num use {lit, add, sub, mul, div}

  -- `_clean_precision`, of that many reported
  unfoldable pub clean_precision : ℕ → F
  clean_precision reported = clip01 (sub one (lit reported 5))

  -- The score of a dimension: how many are reported, dicts or not, the reported ones that are
  -- matched, and the expected ones. (`_dim_score` with `_match_counts`)
  unfoldable pub dim_score : {R : Type 0} → (Fields F → R → Bool) → ℕ → List R → List (Fields F) → F
  dim_score matcher reported rep exp =
      let hits = count_hits matcher rep [] exp in
      if is_empty exp
      then clean_precision reported
      else if is_empty rep
      then nought
      else fbeta (lit hits (length rep)) (lit hits (length exp)) (lit 2 1)

  -- `_entries`
  unfoldable pub entries_of : Value F → List (Fields F)
  entries_of (obj fs) = fs ∷ []
  entries_of (arr xs) = dicts (items xs)
  entries_of _ = []

  -- v.get(k) of a dict
  abbrev pub at : Fields F → String → Value F
  at fs k = elim (get (entries fs) k) [ none ↦ null | some v ↦ v ]

  -- sum(1 for v in vs if isinstance(v, dict) and v.get("remediation") and v.get("cwe"))
  abbrev pub detailed : List (Value F) → ℕ
  detailed vs = length (keep (λ v. truthy (at v "remediation") && truthy (at v "cwe")) (dicts vs))

  -- `_heuristic_quality`, of a list that is not falsy
  unfoldable pub heuristic_quality : List (Value F) → F
  heuristic_quality vs =
      if is_empty vs
      then nought
      else clip01 (
          add (mul (lit 6 10) (depth (length vs) 5))
            (mul (lit 4 10) (lit (detailed vs) (length vs))))

  -- sum(w * s for w, s in dims) / total_w if total_w else 0.0
  unfoldable pub blend_dims : List (F × F) → F
  blend_dims dims =
      let total_w = sum (map (λ d. d.0) dims) in
      if equal total_w nought then nought else div (sum (map (λ d. mul d.0 d.1) dims)) total_w

  -- ground_truth if isinstance(ground_truth, dict) else {}
  abbrev pub truth_of : Option (Value F) → Fields F
  truth_of (some (obj fs)) = fs
  truth_of _ = end

  -- any(k in gt for k in ("vulnerabilities", "supply_chain", "secrets"))
  abbrev pub is_labelled_truth : Fields F → Bool
  is_labelled_truth gt =
      any (λ k. member k (keys (entries gt))) ("vulnerabilities" ∷ "supply_chain" ∷ "secrets" ∷ [])

  abbrev pub integrity_of : ℕ → F
  integrity_of files = clip01 (add (lit 5 10) (mul (lit 5 10) (depth files 5)))

  -- What a labelled repository scores.
  abbrev pub labelled_result : String → Option String → ℕ → F → TrackEvaluation F
  labelled_result verdict label files benchmark = record {
    result = record {
      score = clip01 benchmark;
      gate_passed = true;
      components = record {
        verdict_correctness = verdict_correctness verdict label;
        evidence_integrity = integrity_of files;
        solution_quality = benchmark;
        benchmark_agreement = benchmark;
      };
      reason = [];
    };
    capability_manifest = [];
  }

  -- The components of one without ground truth.
  abbrev pub unlabelled_components : String → Option String → ℕ → List (Value F) → ScoreComponents F
  unlabelled_components verdict label files vulnerabilities = record {
    verdict_correctness = verdict_correctness verdict label;
    evidence_integrity = integrity_of files;
    solution_quality = heuristic_quality vulnerabilities;
    benchmark_agreement = verdict_correctness verdict label;
  }

  abbrev pub unlabelled_result : String → Option String → ℕ → List (Value F) → TrackEvaluation F
  unlabelled_result verdict label files vulnerabilities = record {
    result = combine (unlabelled_components verdict label files vulnerabilities);
    capability_manifest = [];
  }

  module _ (conv : Conversions F) where
    -- str(e.get(k, "")).strip().lower()
    abbrev pub tidy : Fields F → String → Text
    tidy fs k = lower (strip (text_field conv fs k))

    abbrev pub named : String → Fields F → Supply
    named kind fs = record { kind = codes kind; name = lower (text_field conv fs "name") }

    -- `_flatten_supply_chain`
    unfoldable pub flatten_supply_chain : Value F → List Supply
    flatten_supply_chain (obj sc) =
        map (named "typosquat") (entries_of (at sc "typosquat"))
        ++ map (named "dependency_confusion") (entries_of (at sc "dependency_confusion"))
        ++ map (λ (_ : Fields F). record { kind = codes "install_script"; name = [] })
            (entries_of (at sc "install_scripts"))
        ++ map (named "vulnerable_dependency")
            (keep (λ d. truthy (at d "cve")) (entries_of (at sc "dependencies")))
    flatten_supply_chain _ = []

    -- `_sc_matches`
    unfoldable pub sc_matches : Fields F → Supply → Bool
    sc_matches expected reported =
        if not (same (tidy expected "type") (lower (strip reported.kind)))
        then false
        else let name_e = tidy expected "name" in
          is_empty name_e || same name_e (lower (strip reported.name))

    -- `_secret_matches`
    unfoldable pub secret_matches : Fields F → Fields F → Bool
    secret_matches expected reported =
        let type_e = tidy expected "type" in
        let type_r = tidy reported "type" in
        if not (same (norm_file conv expected) (norm_file conv reported))
        then false
        else if not (is_empty type_e) && not (is_empty type_r) && not (same type_e type_r)
        then near conv expected reported
        else true

    -- int((audit or {}).get("files_analysed", 0) or 0) of a dict; a negative count is none at all
    abbrev pub files_of : Value F → Outcome ℕ
    files_of audit = do
      found ← lookup audit "files_analysed"
      n ← to_int conv (or_else found (int (pos 0)))
      returns (elim n [ pos k ↦ k | negsuc k ↦ 0 ])

    -- The list under the key, `or []`.
    abbrev pub listed : Value F → String → Outcome (List (Value F))
    listed v k = do found ← lookup v k; iterate (or_else found (arr nil))

    -- The dimension under a key of the ground truth, if it is there.
    abbrev pub dimension :
        Option (Value F) → (List (Fields F) → Outcome (F × F)) → Outcome (List (F × F))
    dimension none score = returns []
    dimension (some v) score = do
      exp ← iterate (or_else v (arr nil))
      d ← score (dicts exp)
      returns (d ∷ [])

    -- The weight and the score of each dimension that the ground truth has.
    unfoldable pub dimensions : Value F → Fields F → Outcome (List (F × F))
    dimensions evidence gt = do
      vulns ← dimension (get (entries gt) "vulnerabilities") (λ exp. do
        rep ← listed evidence "vulnerabilities"
        returns (lit 5 10, dim_score (vuln_matches conv) (length rep) (dicts rep) exp))
      chain ← dimension (get (entries gt) "supply_chain") (λ exp. do
        found ← lookup evidence "supply_chain"
        let rep = flatten_supply_chain found
        returns (lit 3 10, dim_score sc_matches (length rep) rep exp))
      secrets ← dimension (get (entries gt) "secrets") (λ exp. do
        rep ← listed evidence "secrets"
        returns (lit 2 10, dim_score secret_matches (length rep) (dicts rep) exp))
      returns (vulns ++ chain ++ secrets)

    -- The score of an audit of this many files.
    unfoldable pub score_audit :
        Value F → String → Option String → Option (Value F) → ℕ → Outcome (TrackEvaluation F)
    score_audit evidence verdict label ground_truth files = do
      found ← lookup evidence "vulnerabilities"
      let gt = truth_of ground_truth
      if is_labelled_truth gt
          then (do
            dims ← dimensions evidence gt
            returns (labelled_result verdict label files (blend_dims dims)))
          else (do
            vulnerabilities ← iterate (or_else found (arr nil))
            returns (unlabelled_result verdict label files vulnerabilities))

    -- `repositories.evaluate`
    unfoldable pub evaluate_repositories :
        Value F → String → Option String → Option (Value F) → Outcome (TrackEvaluation F)
    evaluate_repositories agent_evidence verdict label ground_truth = do
      let evidence = or_else agent_evidence (obj end)
      audit ← lookup evidence "audit"
      if not (is_dict audit) then returns (zeroed (codes "audit evidence missing")) else (do
        files ← files_of audit
        if leb files 0
            then returns (zeroed (codes "audit evidence missing"))
            else score_audit evidence verdict label ground_truth files)

    -- `tracks.evaluate`
    unfoldable pub evaluate_track :
        (Value F → Text)
        → ProbeSpec
        → String
        → Value F
        → String
        → Option String
        → Option (Value F)
        → Outcome (TrackEvaluation F)
    evaluate_track trace_hash probe track evidence verdict label ground_truth =
        if track == "repositories"
        then evaluate_repositories evidence verdict label ground_truth
        else evaluate conv trace_hash probe track evidence verdict label
