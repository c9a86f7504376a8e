-- ===== src/Runner.antt =====
-- One run of an agent on one task: `run_task` of phylax/harness/runner.py, and what the container
-- makes of the agent (docker/agent/_agent_runner.py and entrypoint.py). An `InfraFailure` is
-- `abstains`. The file system, the archives, the download and the container are parameters.
pub mod Reports
pub mod Forged
use phylax_subnet.Prelude.{
  ℕ, zero, suc, ◌+◌, Bool, true, false, not, ◌&&◌, ◌||◌, String, Option, none, some, List, [], ◌∷◌,
  ◌++◌, ◌==◌, leb, ltb, if◌then◌else◌, any, get,
}
use phylax_subnet.Prelude.Text.{Text, codes, starts_with}
use phylax_subnet.Number.{Float}
use phylax_subnet.Value.{
  Value, null, bool, int, pos, str, arr, nil, obj, Fields, end, field, entries, truthy, or_else,
  to_string, Conversions,
}
use phylax_subnet.Round.{Attempt, done, abstains, fails, ◌>>=◌}

-- `_INFRA_ERRORS`
abbrev pub infra_errors : List String
infra_errors =
    "image pull failed" ∷ "container create failed" ∷ "container start failed"
    ∷ "task copy-in failed" ∷ "docker command timed out" ∷ []

-- any(error.startswith(prefix) for prefix in _INFRA_ERRORS)
unfoldable pub is_infra_error : Text → Bool
is_infra_error error = any (λ (prefix : String). starts_with error (codes prefix)) infra_errors

-- s[:n]
unfoldable pub take_string : ℕ → String → String
take_string zero s = ""
take_string (suc n) String.[] = ""
take_string (suc n) (String.◌∷◌ c s) = String.◌∷◌ c (take_string n s)

-- How the agent's entrypoint ends: with what it returns, or with the text of an exception and the
-- traceback.
pub data Ended (F : Type 0) : Type 0 where
  returned_value : Value F → Ended F
  raised : String → String → Ended F

-- What entrypoint.py finds where the agent's process should have left its report: nothing, no JSON,
-- or the dict that the process wrote.
pub data Found (F : Type 0) : Type 0 where
  no_report : Bool → Found F
  no_json : Found F
  report_dict : Fields F → Found F

module _ {F : Type 0} where
  -- v.get(k) of a dict
  abbrev pub get_or_null : Fields F → String → Value F
  get_or_null fs k = elim (get (entries fs) k) [ none ↦ null | some v ↦ v ]

  abbrev pub failed : String → Fields F
  failed error = field "success" (bool false) (field "error" (str error) end)

  -- `main` of _agent_runner.py: the report that it writes.
  unfoldable pub agent_report : Ended F → Fields F
  agent_report (returned_value report) = field "success" (bool true) (field "report" report end)
  agent_report (raised message trace) =
      field "success" (bool false)
        (field "error" (str (take_string 400 message)) (field "trace" (str trace) end))

  -- result["validator_trace"] = events
  unfoldable pub with_trace : Fields F → Value F → Fields F
  with_trace end trace = field "validator_trace" trace end
  with_trace (field k v fs) trace =
      let rest = with_trace fs trace in
      if k == "validator_trace" then field k trace fs else field k v rest

  -- `main` of entrypoint.py: the result that it writes; the flag says whether the agent timed out.
  unfoldable pub container_result : Found F → Value F → Fields F
  container_result (no_report timed_out) trace =
      with_trace
        (failed
          (if timed_out then "agent exceeded its time budget" else "agent produced no report"))
        trace
  container_result no_json trace = with_trace (failed "agent report was not valid json") trace
  container_result (report_dict fs) trace = with_trace fs trace

module _ {F : Type 0} ⦃num : Float F⦄ (conv : Conversions F) where
  -- v.get(k) or default, which raises unless v is a dict
  abbrev pub get_else : Value F → String → Value F → Attempt (Value F)
  get_else (obj fs) k default = done (or_else (get_or_null fs k) default)
  get_else _ k default = fails

  -- A verdict that is a text stands for a decision.
  abbrev pub verdict_dict : Value F → Value F
  verdict_dict (str s) = obj (field "decision" (str s) (field "risk_score" (int (pos 0)) end))
  verdict_dict v = v

  -- The end of `run_task`, of the report that the executor returned.
  unfoldable pub read_report : Fields F → Attempt (Option (Value F))
  read_report report =
      let error = codes (to_string conv (or_else (get_or_null report "error") (str ""))) in
      if not (truthy (get_or_null report "success"))
      then (if is_infra_error error then abstains else done none)
      else (do
        let body = or_else (get_or_null report "report") (obj end)
        verdict ← get_else body "verdict" (obj end)
        evidence ← get_else body "evidence" (obj end)
        findings ← get_else body "findings" (arr nil)
        policy ← get_else body "policy" (obj end)
        done (
            some (
              obj (
                field "verdict" (verdict_dict verdict) (
                  field "evidence" evidence (
                    field "findings" findings (
                      field "policy" policy (
                        field "observed_probe_file" (get_or_null report "observed_probe_file") (
                          field "validator_trace"
                            (or_else (get_or_null report "validator_trace") (arr nil)) end)))))))))

-- A member of an archive.
pub record Member : Type 0 where
  pub filename : String
  pub file_size : ℕ

-- What `zf.extract` does with a member, and the places that it writes at: it writes all, raises
-- `BadZipFile` for a damaged member, maybe with a part of it written, or raises another exception.
pub data Extraction : Type 0 where
  wrote : List (List String) → Extraction
  bad_member : List (List String) → Extraction
  extraction_fails : Extraction

-- What the libraries do: `infolist` of the archive, or none for a bad archive; the target of a file
-- name, `(artifact_dir / filename).resolve()`; and `zf.extract`, whose place need not be the target.
pub record Zip : Type 0 where
  pub infolist : List ℕ → Option (List Member)
  pub target : List String → String → List String
  pub extract : List String → Member → Extraction

-- What was written in the directory of the artifact, and `artifact.bin`.
pub record Extracted : Type 0 where
  pub places : List (List String)
  pub artifact_bin : Option (List ℕ)

abbrev pub nothing : Extracted
nothing = record { places = []; artifact_bin = none }

abbrev pub max_artifact_bytes : ℕ
max_artifact_bytes = 268435456

-- target == root or root in target.parents
unfoldable pub is_under : List String → List String → Bool
is_under [] target = true
is_under (r ∷ root) [] = false
is_under (r ∷ root) (t ∷ target) = r == t && is_under root target

abbrev pub total_size : List Member → ℕ
total_size [] = 0
total_size (m ∷ ms) = m.file_size + total_size ms

-- The places before those of the other members.
abbrev pub with_places : List (List String) → Attempt Extracted → Attempt Extracted
with_places places (done x) = done (record x { places = places ++ x.places })
with_places places abstains = abstains
with_places places fails = fails

-- The loop over the members, and `artifact.bin` where a member is damaged.
unfoldable pub extract_members : Zip → List String → List ℕ → List Member → Attempt Extracted
extract_members zip root bytes [] = done nothing
extract_members zip root bytes (m ∷ ms) =
    let rest = extract_members zip root bytes ms in
    if not (is_under root (zip.target root m.filename)) then rest else elim (zip.extract root m) [
      | wrote places ↦ with_places places rest
      | bad_member places ↦ done (record { places = places; artifact_bin = some bytes })
      | extraction_fails ↦ fails
    ]

-- `_extract_into`
unfoldable pub extract_into : Zip → List String → List ℕ → Attempt Extracted
extract_into zip root bytes = elim (zip.infolist bytes) [
  | none ↦ done (record { places = []; artifact_bin = some bytes })
  | some ms ↦
      if ltb max_artifact_bytes (total_size ms)
      then done nothing
      else extract_members zip root bytes ms
]

-- What a task names as its artifact: encoded bytes, or a URL, "" being none.
pub record Dispatch : Type 0 where
  pub artifact_b64 : String
  pub artifact_url : String

abbrev pub extract_some : Zip → List String → List ℕ → Attempt Extracted
extract_some zip root [] = done nothing
extract_some zip root (b ∷ bytes) = extract_into zip root (b ∷ bytes)

-- The directory of the artifact: `materialise_bytes` and `materialise_artifact`.
unfoldable pub materialise :
    (String → Option (List ℕ))
    → (String → Option (List ℕ))
    → Zip
    → List String
    → Dispatch
    → Attempt Extracted
materialise decode download zip root d =
    if not (d.artifact_b64 == "")
    then elim (decode d.artifact_b64) [ none ↦ abstains | some bytes ↦ extract_some zip root bytes ]
    else if d.artifact_url == ""
    then done nothing
    else elim (download d.artifact_url) [
      | none ↦ abstains
      | some bytes ↦ extract_into zip root bytes
    ]

-- `run_task` with `execute` for the executor. Outside development there must be an image.
module _ {F : Type 0} ⦃num : Float F⦄ (conv : Conversions F) where
  unfoldable pub run_task :
      Attempt Extracted
      → Bool
      → String
      → (Extracted → Attempt (Fields F))
      → Attempt (Option (Value F))
  run_task artifact unsafe_executor image execute = do
    extracted ← artifact
    if not unsafe_executor && image == ""
        then abstains
        else (do report ← execute extracted; read_report conv report)
