-- ===== src/Executor/Agent.antt =====
-- The runs of a container: `_observed_probe`, `run_agent_in_docker` and `detonate_in_docker` of
-- phylax/harness/executor.py.
use phylax_subnet.Prelude.{
  ℕ, zero, suc, Bool, true, false, not, String, Option, none, some, List, [], ◌∷◌, ◌++◌, ◌==◌,
  if◌then◌else◌,
}
use phylax_subnet.Prelude.Text.{codes, concat, strip_string, starts_with}
use phylax_subnet.Number.{Float, min}
use phylax_subnet.Value.{
  ℤ, pos, negsuc, Value, null, bool, str, arr, nil, obj, Fields, end, field, or_else, to_string,
  Conversions,
}
use phylax_subnet.Runner.{failed, get_or_null, read_report}
use phylax_subnet.Round.{Attempt, fails}
use phylax_subnet.Round.Agents.{at_or}
use phylax_subnet.Executor.Words.{last_string, pin}
use phylax_subnet.Executor.Action.{
  Reply, Copied, absent, unreadable, undecodable, text, Surroundings, Host, Called, ok, expired,
  errs, unfinished, Action, return, raise, ◌>>=◌, write, docker, monotonic, is_zero,
}
use phylax_subnet.Executor.Await.{
  remove_timeout, ensure_jail_network, ensure_image, exit_code, await_exit,
}

-- d[k] = v
unfoldable pub set_field : {F : Type 0} → String → Value F → Fields F → Fields F
set_field k v end = field k v end
set_field k v (field j w fs) =
    let rest = set_field k v fs in if j == k then field j v fs else field j w rest

-- max(1, n)
abbrev pub at_least_one : ℤ → ℕ
at_least_one (pos zero) = 1
at_least_one (pos (suc n)) = suc n
at_least_one (negsuc n) = 1

-- n <= 0
abbrev pub is_spent : ℤ → Bool
is_spent (pos zero) = true
is_spent (pos (suc n)) = false
is_spent (negsuc n) = true

-- The flags that `create` gets before the image.
abbrev pub jail_flags : String → List String
jail_flags network =
    "create" ∷ "--network" ∷ network ∷ "--label" ∷ "phylax.sandbox=1" ∷ "--cgroupns" ∷ "private"
    ∷ "--cap-drop=ALL" ∷ "--security-opt" ∷ "no-new-privileges" ∷ "--tmpfs" ∷ "/tmp:rw,size=64m"
    ∷ "--memory" ∷ "2g" ∷ "--memory-swap" ∷ "2g" ∷ "--cpus" ∷ "1.0" ∷ "--pids-limit" ∷ "256" ∷ []

module _ {F : Type 0} (env : Surroundings F) where
  -- The container is removed if it has an id, also where the calls raised.
  abbrev pub removed : {A : Type 0} → Called A → Host F × Called Reply → Host F × Called A
  removed ran (s, ok r) = (s, ran)
  removed ran (s, expired) = (s, expired)
  removed ran (s, errs) = (s, errs)
  removed ran (s, unfinished) = (s, unfinished)

  unfoldable pub remove_container : {A : Type 0} → String → Host F × Called A → Host F × Called A
  remove_container cid (s, ran) =
      if cid == ""
      then (s, ran)
      else removed ran (docker env ("rm" ∷ "-f" ∷ cid ∷ []) remove_timeout s)

  -- except subprocess.TimeoutExpired
  abbrev pub caught : Fields F → Host F × Called (Fields F) → Host F × Called (Fields F)
  caught report (s, ok a) = (s, ok a)
  caught report (s, expired) = (s, ok report)
  caught report (s, errs) = (s, errs)
  caught report (s, unfinished) = (s, unfinished)

  abbrev pub within : (String → Action F (Fields F)) → Fields F → String → Action F (Fields F)
  within steps timed_out cid s = remove_container cid (caught timed_out (steps cid s))

  abbrev pub after_create :
      Fields F
      → (Reply → Fields F)
      → (String → Action F (Fields F))
      → Host F × Called Reply
      → Host F × Called (Fields F)
  after_create timed_out not_created steps (s, ok r) =
      if is_zero r.returncode
      then within steps timed_out (strip_string r.stdout) s
      else (s, ok (not_created r))
  after_create timed_out not_created steps (s, expired) = (s, ok timed_out)
  after_create timed_out not_created steps (s, errs) = (s, errs)
  after_create timed_out not_created steps (s, unfinished) = (s, unfinished)

  -- The `try` of a run: a container is created, goes through the steps, and is removed.
  unfoldable pub in_container :
      List String
      → Fields F
      → (Reply → Fields F)
      → (String → Action F (Fields F))
      → Action F (Fields F)
  in_container args timed_out not_created steps s =
      after_create timed_out not_created steps (docker env args 30 s)

  module _ ⦃num : Float F⦄ (conv : Conversions F) where
    open num use {lit, sub}

    -- The file that the probe of the container left, against what it has to hold.
    abbrev pub compare_probe : String → Copied → Action F (Value F)
    compare_probe expected absent = return (bool false)
    compare_probe expected unreadable = return (bool false)
    compare_probe expected undecodable = raise
    compare_probe expected (text found) = return (bool (found == expected))

    abbrev pub copied_file : String → Action F Copied
    copied_file path s = (s, ok (env.copied s.history path))

    -- `_observed_probe` of a probe that is a dict
    unfoldable pub observed_file : String → Fields F → Action F (Value F)
    observed_file cid probe =
        let path = to_string conv (or_else (at_or conv probe "file_path" (str "")) (str "")) in
        let expected = to_string conv (at_or conv probe "file_content" (str "")) in
        let target = concat env.work "/probe_file" in
        if not (starts_with (codes path) (codes "/task/")) then return null else (do
          cp ← docker env ("cp" ∷ concat cid (concat ":" path) ∷ target ∷ []) 15
          if not (is_zero cp.returncode)
              then return (bool false)
              else (do file ← copied_file target; compare_probe expected file))

    abbrev pub of_probe : String → Value F → Action F (Value F)
    of_probe cid (obj probe) = observed_file cid probe
    of_probe cid _ = raise

    -- `_observed_probe`
    unfoldable pub observed_probe : String → Fields F → Action F (Value F)
    observed_probe cid context = of_probe cid (or_else (get_or_null context "probe") (obj end))

    -- What is left of a budget at a time.
    abbrev pub seconds_left : F → F → F → ℕ → ℤ
    seconds_left budget began now cap = env.trunc (min (num.lit cap 1) (sub budget (sub now began)))

    -- `left`: the seconds, at most `cap`, that are left of the budget.
    unfoldable pub left : Option F → F → ℕ → Action F ℤ
    left none began cap = return (pos cap)
    left (some budget) began cap = do
      now ← monotonic env
      return (seconds_left budget began now cap)

    -- The report read out of result.json, with what was seen of the probe.
    abbrev pub report_of : String → Fields F → Option (Value F) → Action F (Fields F)
    report_of cid context (some (obj report)) = do
      seen ← observed_probe cid context
      return (set_field "observed_probe_file" seen report)
    report_of cid context _ = return (failed "malformed result.json")

    abbrev pub tail_of : Reply → String
    tail_of logs = last_string 1500 (if logs.stderr == "" then logs.stdout else logs.stderr)

    abbrev pub no_result : (ℕ → Action F ℤ) → String → Action F (Fields F)
    no_result left cid = do
      seconds ← left 15
      logs ← docker env ("logs" ∷ "--tail" ∷ "50" ∷ cid ∷ []) (at_least_one seconds)
      code ← exit_code env cid
      return (
          field "success" (bool false) (
            field "error" (str (concat "no result.json (rc=" (concat code ")")))
              (field "stderr" (str (tail_of logs)) end)))

    abbrev pub collected : (ℕ → Action F ℤ) → Fields F → String → Copied → Action F (Fields F)
    collected left context cid absent = no_result left cid
    collected left context cid unreadable = report_of cid context none
    collected left context cid undecodable = report_of cid context none
    collected left context cid (text s) = report_of cid context (env.loads s)

    -- The end of a run, once the agent has exited.
    abbrev pub collect : (ℕ → Action F ℤ) → Fields F → String → Action F (Fields F)
    collect left context cid =
        let out = concat env.work "/result.json" in
        do
          seconds ← left 30
          cp ← docker env ("cp" ∷ concat cid ":/task/result.json" ∷ out ∷ []) (at_least_one seconds)
          if not (is_zero cp.returncode)
              then no_result left cid
              else (do file ← copied_file out; collected left context cid file)

    abbrev pub finish :
        (ℕ → Action F ℤ) → Fields F → String → Option (Fields F) → Action F (Fields F)
    finish left context cid none = collect left context cid
    finish left context cid (some report) = return report

    -- The steps of `run_agent_in_docker` with the container.
    unfoldable pub agent_steps : ℕ → (ℕ → Action F ℤ) → ℕ → Fields F → String → Action F (Fields F)
    agent_steps fuel left budget context cid = do
      copy_left ← left 60
      cp_in ←
          docker env ("cp" ∷ concat env.work "/task/." ∷ concat cid ":/task" ∷ [])
            (at_least_one copy_left)
      if not (is_zero cp_in.returncode)
          then return (failed (concat "task copy-in failed: " (last_string 400 cp_in.stderr)))
          else (do
            start_left ← left 30
            start ← docker env ("start" ∷ cid ∷ []) (at_least_one start_left)
            if not (is_zero start.returncode)
                then return
                    (failed (concat "container start failed: " (last_string 400 start.stderr)))
                else (do
                  wall ← left 10000
                  halted ← await_exit env conv fuel cid budget (some wall)
                  finish left context cid halted))

    -- The context that the container reads.
    abbrev pub context_for : String → Bool → Fields F → Fields F
    context_for entrypoint has_artifact context =
        let entered = set_field "entrypoint" (str entrypoint) context in
        if has_artifact then set_field "artifact_dir" (str "/task/artifact") entered else entered

    abbrev pub not_created : Reply → Fields F
    not_created r = failed (concat "container create failed: " (last_string 400 r.stderr))

    abbrev pub agent_args : String → List String
    agent_args ref =
        jail_flags env.jail_network
        ++ ("-e"
            ∷ "PHYLAX_TASK_DIR=/task"
            ∷ "-e"
            ∷ "PHYLAX_AGENT_PATH=/task/agent.py"
            ∷ "-e"
            ∷ concat "PHYLAX_INFERENCE_PROXY_URL=" env.proxy_url
            ∷ ref
            ∷ [])

    -- The end of `run_agent_in_docker`, once there is an image.
    unfoldable pub agent_container :
        ℕ → (ℕ → Action F ℤ) → String → String → Fields F → String → Bool → ℕ → Action F (Fields F)
    agent_container fuel left ref code context entrypoint has_artifact budget = do
      prepared ← write code (context_for entrypoint has_artifact context)
      in_container (agent_args ref) (failed "docker command timed out") not_created
          (agent_steps fuel left budget context)

    -- `run_agent_in_docker` from the network on
    unfoldable pub agent_run :
        ℕ → String → Fields F → String → String → ℕ → Bool → Option F → F → Action F (Fields F)
    agent_run fuel code context ref entrypoint budget has_artifact wall began = do
      network ← ensure_jail_network env
      pull_left ← left wall began 300
      pull_err ← ensure_image env ref (at_least_one pull_left)
      if not (pull_err == "")
          then return (failed (concat "image pull failed: " pull_err))
          else agent_container fuel (left wall began) ref code context entrypoint has_artifact
              budget

    -- `run_agent_in_docker`
    unfoldable pub run_agent_in_docker :
        ℕ → String → Fields F → String → String → String → ℕ → Bool → Option F → Action F (Fields F)
    run_agent_in_docker fuel code context image digest entrypoint budget has_artifact wall = do
      began ← monotonic env
      second ← left wall began 1
      if is_spent second
          then return (failed "wall budget exhausted")
          else agent_run fuel code context (pin image digest) entrypoint budget has_artifact wall
              began

    abbrev pub undetonated : String → Fields F
    undetonated error =
        field "capabilities" (arr nil) (
          field "phases" (obj end) (field "detonated" (bool false) (field "error" (str error) end)))

    -- result["detonated"] = True
    abbrev pub detonated : Option (Value F) → Action F (Fields F)
    detonated none = return (undetonated "detonation result unreadable")
    detonated (some (obj result)) = return (set_field "detonated" (bool true) result)
    detonated (some v) = raise

    abbrev pub error_or : Fields F → Action F (Fields F)
    error_or report =
        return (undetonated (to_string conv (at_or conv report "error" (str "detonation halted"))))

    abbrev pub detonated_file : Copied → Action F (Fields F)
    detonated_file absent = return (undetonated "detonation produced no result")
    detonated_file unreadable = detonated none
    detonated_file undecodable = detonated none
    detonated_file (text s) = detonated (env.loads s)

    abbrev pub collect_detonation : String → Action F (Fields F)
    collect_detonation cid =
        let out = concat env.work "/detonation.json" in
        do
          cp ← docker env ("cp" ∷ concat cid ":/task/detonation.json" ∷ out ∷ []) 30
          if not (is_zero cp.returncode)
              then return (undetonated "detonation produced no result")
              else (do file ← copied_file out; detonated_file file)

    abbrev pub finish_detonation : String → Option (Fields F) → Action F (Fields F)
    finish_detonation cid none = collect_detonation cid
    finish_detonation cid (some report) = error_or report

    -- The steps of `detonate_in_docker` with the container.
    unfoldable pub detonation_steps : ℕ → ℕ → String → Action F (Fields F)
    detonation_steps fuel budget cid = do
      cp_in ← docker env ("cp" ∷ concat env.work "/task/." ∷ concat cid ":/task" ∷ []) 60
      if not (is_zero cp_in.returncode)
          then return
              (undetonated (concat "artifact copy-in failed: " (last_string 200 cp_in.stderr)))
          else (do
            start ← docker env ("start" ∷ cid ∷ []) 30
            if not (is_zero start.returncode)
                then return
                    (undetonated (concat "container start failed: " (last_string 200 start.stderr)))
                else (do
                  halted ← await_exit env conv fuel cid budget none
                  finish_detonation cid halted))

    abbrev pub detonation_not_created : Reply → Fields F
    detonation_not_created r =
        undetonated (concat "container create failed: " (last_string 200 r.stderr))

    -- `detonate_in_docker`, where `driver` is `_DETONATE_DRIVER` and `seconds` the text of the budget.
    unfoldable pub detonate_in_docker :
        ℕ → String → String → String → String → String → ℕ → Action F (Fields F)
    detonate_in_docker fuel driver seconds track image digest budget = do
      network ← ensure_jail_network env
      pull_err ← ensure_image env (pin image digest) 300
      if not (pull_err == "")
          then return (undetonated (concat "image pull failed: " (last_string 200 pull_err)))
          else in_container
              (jail_flags "none"
                ++ ("--entrypoint"
                    ∷ "python"
                    ∷ pin image digest
                    ∷ "-c"
                    ∷ driver
                    ∷ track
                    ∷ "/task/artifact"
                    ∷ seconds
                    ∷ []))
              (undetonated "docker command timed out") detonation_not_created
              (detonation_steps fuel budget)

    -- What `run_task` makes of the executor's report; it catches no exception of it.
    abbrev pub judged : Called (Fields F) → Attempt (Option (Value F))
    judged (ok report) = read_report conv report
    judged expired = fails
    judged errs = fails
    judged unfinished = fails
