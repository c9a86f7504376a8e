-- ===== src/Sandbox/Served.antt =====
-- The runs that the service answers with a report: neurons/sandbox.py.
use phylax_subnet.Prelude.{
  ℕ, ◌≡◌, refl, sym, ◌⊎◌, inl, inr, Bool, true, false, not, ◌&&◌, String, Option, none, some, List,
  ◌==◌, is_empty, if◌then◌else◌, Bool-cases, arith, eq_iff,
}
use phylax_subnet.Prelude.Text.{Text, codes, same}
use phylax_subnet.Number.{Float}
use phylax_subnet.Value.{Value, null, bool, int, float, str, arr, obj, Fields, truthy}
use phylax_subnet.Round.{Attempt, done, abstains, fails}
use phylax_subnet.Runner.{get_or_null}
use phylax_subnet.Sandbox.{
  is_allowed, Packing, refused, packed, pack, hash_part, Answer, report, failed, RunRequest, ran,
  serve_code, serve_value, serve_agent, serve_packed, serve,
}

module _ {F : Type 0} where
  not_report : {P : Type 0} {status : ℕ} {v : Value F} → failed status ≡ report v → P
  not_report h = cc

  -- The code of the agent is what the request names as its hash, where it names one.
  abbrev pub IsNamed : (Text → Text) → RunRequest → Value F → Type 0
  IsNamed sha256 r code =
      (is_empty r.agent_hash ≡ true)
      ⊎ ((s : String) × (code ≡ str s) × (same (sha256 (codes s)) (hash_part r.agent_hash) ≡ true))

  -- What stops at a test reports nothing.
  by_status :
      {P : Type 0} (status : ℕ) (b : Bool) {x : Answer F} {v : Value F}
      → (b ≡ false → x ≡ report v → P)
      → (if b then failed status else x) ≡ report v
      → P
  by_status status true k h = not_report h
  by_status status false k h = k refl h

module _ {F : Type 0} ⦃num : Float F⦄ (sha256 : Text → Text)
    (fetch : String → Attempt (Option (Fields F)))
    (run_task : List (Text × Text) → Fields F → Attempt (Option (Value F))) where
  ran-report :
      (m : Attempt (Option (Value F))) (v : Value F)
      → ran sha256 fetch run_task m ≡ report v
      → m ≡ done (some v)
  ran-report (done (some w)) v h = let same : w ≡ v = cc in rw same refl
  ran-report (done none) v h = not_report h
  ran-report abstains v h = not_report h
  ran-report fails v h = not_report h

  unnamed-report :
      (r : RunRequest) (files : List (Text × Text)) (fs : Fields F) (code v : Value F)
      → (if is_empty r.agent_hash
          then ran sha256 fetch run_task (run_task files fs)
          else failed 500)
        ≡ report v
      → IsNamed sha256 r code × (run_task files fs ≡ done (some v))
  unnamed-report r files fs code v h = elim (Bool-cases (is_empty r.agent_hash)) [
    | inl e ↦ (inl e, ran-report (run_task files fs) v (rw e at h))
    | inr e ↦ not_report (rw e at h)
  ]

  serve_value-report :
      (r : RunRequest) (files : List (Text × Text)) (fs : Fields F) (code v : Value F)
      → serve_value sha256 fetch run_task r files fs code ≡ report v
      → IsNamed sha256 r code × (run_task files fs ≡ done (some v))
  unfolding serve_code
  serve_value-report r files fs (str s) v h =
      by_status 409
        (not (is_empty r.agent_hash) && not (same (sha256 (codes s)) (hash_part r.agent_hash)))
        (λ e k. elim (Bool-cases (is_empty r.agent_hash)) [
          | inl f ↦ (inl f, ran-report (run_task files fs) v k)
          | inr f ↦ (inr (s, refl, ground arith), ran-report (run_task files fs) v k)
        ])
        h
  serve_value-report r files fs null v h = unnamed-report r files fs null v h
  serve_value-report r files fs (bool b) v h = unnamed-report r files fs (bool b) v h
  serve_value-report r files fs (int n) v h = unnamed-report r files fs (int n) v h
  serve_value-report r files fs (float x) v h = unnamed-report r files fs (float x) v h
  serve_value-report r files fs (arr vs) v h = unnamed-report r files fs (arr vs) v h
  serve_value-report r files fs (obj os) v h = unnamed-report r files fs (obj os) v h

  -- The run that a report comes from.
  abbrev pub IsRun : RunRequest → Value F → Type 0
  IsRun r v =
      (files : List (Text × Text)) × (fs : Fields F) × (pack r.files ≡ packed files)
      × (fetch r.hotkey ≡ done (some fs))
      × IsNamed sha256 r (get_or_null fs "code")
      × (run_task files fs ≡ done (some v))

  serve_agent-report :
      (r : RunRequest) (files : List (Text × Text)) (fetched : Attempt (Option (Fields F)))
      (v : Value F)
      → serve_agent sha256 fetch run_task r files fetched ≡ report v
      → (fs : Fields F) × (fetched ≡ done (some fs))
        × IsNamed sha256 r (get_or_null fs "code")
        × (run_task files fs ≡ done (some v))
  serve_agent-report r files (done (some fs)) v h =
      by_status 404 (not (truthy (get_or_null fs "code")))
        (λ e k.
          let (named, run) = serve_value-report r files fs (get_or_null fs "code") v k in
          (fs, refl, named, run))
        h
  serve_agent-report r files (done none) v h = not_report h
  serve_agent-report r files abstains v h = not_report h
  serve_agent-report r files fails v h = not_report h

  serve_packed-report :
      (r : RunRequest) (p : Packing) (v : Value F)
      → p ≡ pack r.files
      → serve_packed sha256 fetch run_task r p ≡ report v
      → IsRun r v
  serve_packed-report r (refused status) v e h = not_report h
  serve_packed-report r (packed files) v e h =
      let (fs, fetched, named, run) = serve_agent-report r files (fetch r.hotkey) v h in
      (files, fs, sym e, fetched, named, run)

  -- A request is answered with a report only with the token of the service, which is not empty, and
  -- the report is what the run returned of the agent that the backend has under the hotkey, on the
  -- files of the request as they are packed; the code of the agent has the hash, where one is named.
  pub serve-report :
      (expected : String) (r : RunRequest) (v : Value F)
      → serve sha256 fetch run_task expected r ≡ report v
      → (expected ≡ r.token) × ((expected == "") ≡ false) × IsRun r v
  unfolding serve is_allowed
  serve-report expected r v h =
      by_status 401 (not (is_allowed expected r.token))
        (λ e k. (
          ground (arith, eq_iff expected r.token),
          ground arith,
          serve_packed-report r (pack r.files) v refl k,
        ))
        h
