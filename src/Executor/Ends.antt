-- ===== src/Executor/Ends.antt =====
-- What the runs of agents and of artifacts leave of containers: phylax/harness/executor.py.
use phylax_subnet.Prelude.{ℕ, refl, Bool, not, String, Option, none, some, ◌==◌}
use phylax_subnet.Number.{Float}
use phylax_subnet.Value.{ℤ, Value, null, bool, int, float, str, arr, obj, Fields, Conversions}
use phylax_subnet.Executor.Action.{
  Copied, absent, unreadable, undecodable, text, Surroundings, Host, Action, raise, is_zero,
}
use phylax_subnet.Executor.Agent.{
  compare_probe, copied_file, observed_file, of_probe, observed_probe, left, report_of, no_result,
  collected, collect, finish, finish_detonation, detonated_file, agent_steps, agent_container,
  agent_run, run_agent_in_docker, is_spent, detonated, detonation_steps, detonate_in_docker,
}
use phylax_subnet.Executor.Left.{
  IsAccounted, Keeps, docker-Keeps, bind-Keeps, if-Keeps, return-Keeps, monotonic-Keeps,
  write-Keeps, IsClean, Keeps-IsClean, bind-IsClean, if-IsClean,
}
use phylax_subnet.Executor.Removed.{
  network-Keeps, await_exit-Keeps, ensure_image-Keeps, exit_code-Keeps, in_container-IsAccounted,
}

module _ {F : Type 0} (env : Surroundings F) ⦃num : Float F⦄ (conv : Conversions F) where
  raise-Keeps : {A : Type 0} → Keeps env {A = A} raise
  raise-Keeps = record { kept = λ cid s h. h }

  copied_file-Keeps : (path : String) → Keeps env (copied_file env conv path)
  copied_file-Keeps path = record { kept = λ cid s h. h }

  compare_probe-Keeps :
      (expected : String) (file : Copied) → Keeps env (compare_probe env conv expected file)
  compare_probe-Keeps expected absent = return-Keeps env
  compare_probe-Keeps expected unreadable = return-Keeps env
  compare_probe-Keeps expected undecodable = raise-Keeps
  compare_probe-Keeps expected (text found) = return-Keeps env

  observed_file-Keeps :
      (cid : String) (probe : Fields F) → Keeps env (observed_file env conv cid probe)
  unfolding observed_file
  observed_file-Keeps cid probe = if-Keeps env _ (return-Keeps env) (
      bind-Keeps env (docker-Keeps env _ _ refl) (λ cp.
        if-Keeps env (not (is_zero cp.returncode)) (return-Keeps env)
          (bind-Keeps env (copied_file-Keeps _) (λ file. compare_probe-Keeps _ file))))

  of_probe-Keeps : (cid : String) (v : Value F) → Keeps env (of_probe env conv cid v)
  of_probe-Keeps cid (obj probe) = observed_file-Keeps cid probe
  of_probe-Keeps cid null = raise-Keeps
  of_probe-Keeps cid (bool b) = raise-Keeps
  of_probe-Keeps cid (int n) = raise-Keeps
  of_probe-Keeps cid (float x) = raise-Keeps
  of_probe-Keeps cid (str s) = raise-Keeps
  of_probe-Keeps cid (arr vs) = raise-Keeps

  observed_probe-Keeps :
      (cid : String) (context : Fields F) → Keeps env (observed_probe env conv cid context)
  unfolding observed_probe
  observed_probe-Keeps cid context = of_probe-Keeps cid _

  left-Keeps : (wall : Option F) (began : F) (cap : ℕ) → Keeps env (left env conv wall began cap)
  unfolding left
  left-Keeps none began cap = return-Keeps env
  left-Keeps (some budget) began cap =
      bind-Keeps env (monotonic-Keeps env) (λ now. return-Keeps env)

  report_of-Keeps :
      (cid : String) (context : Fields F) (v : Option (Value F))
      → Keeps env (report_of env conv cid context v)
  report_of-Keeps cid context none = return-Keeps env
  report_of-Keeps cid context (some (obj report)) =
      bind-Keeps env (observed_probe-Keeps cid context) (λ seen. return-Keeps env)
  report_of-Keeps cid context (some null) = return-Keeps env
  report_of-Keeps cid context (some (bool b)) = return-Keeps env
  report_of-Keeps cid context (some (int n)) = return-Keeps env
  report_of-Keeps cid context (some (float x)) = return-Keeps env
  report_of-Keeps cid context (some (str s)) = return-Keeps env
  report_of-Keeps cid context (some (arr vs)) = return-Keeps env

  module _ (left : ℕ → Action F ℤ) (lefts : (cap : ℕ) → Keeps env (left cap)) where
    no_result-Keeps : (cid : String) → Keeps env (no_result env conv left cid)
    no_result-Keeps cid = bind-Keeps env (lefts 15) (λ seconds.
        bind-Keeps env (docker-Keeps env _ _ refl)
          (λ logs. bind-Keeps env (exit_code-Keeps env cid) (λ code. return-Keeps env)))

    collected-Keeps :
        (cid : String) (context : Fields F) (file : Copied)
        → Keeps env (collected env conv left context cid file)
    collected-Keeps cid context absent = no_result-Keeps cid
    collected-Keeps cid context unreadable = report_of-Keeps cid context none
    collected-Keeps cid context undecodable = report_of-Keeps cid context none
    collected-Keeps cid context (text s) = report_of-Keeps cid context (env.loads s)

    collect-Keeps :
        (context : Fields F) (cid : String) → Keeps env (collect env conv left context cid)
    collect-Keeps context cid = bind-Keeps env (lefts 30) (λ seconds.
        bind-Keeps env (docker-Keeps env _ _ refl) (λ cp.
          if-Keeps env (not (is_zero cp.returncode)) (no_result-Keeps cid)
            (bind-Keeps env (copied_file-Keeps _) (λ file. collected-Keeps cid context file))))

    finish-Keeps :
        (context : Fields F) (cid : String) (halted : Option (Fields F))
        → Keeps env (finish env conv left context cid halted)
    finish-Keeps context cid none = collect-Keeps context cid
    finish-Keeps context cid (some report) = return-Keeps env

    agent_steps-Keeps :
        (fuel budget : ℕ) (context : Fields F) (cid : String)
        → Keeps env (agent_steps env conv fuel left budget context cid)
    unfolding agent_steps
    agent_steps-Keeps fuel budget context cid = bind-Keeps env (lefts 60) (λ copy_left.
        bind-Keeps env (docker-Keeps env _ _ refl) (λ cp_in.
          if-Keeps env (not (is_zero cp_in.returncode)) (return-Keeps env) (
            bind-Keeps env (lefts 30) (λ start_left.
              bind-Keeps env (docker-Keeps env _ _ refl) (λ start.
                if-Keeps env (not (is_zero start.returncode)) (return-Keeps env) (
                  bind-Keeps env (lefts 10000) (λ wall.
                    bind-Keeps env (await_exit-Keeps env conv fuel cid budget (some wall))
                      (λ halted. finish-Keeps context cid halted))))))))

  agent_container-IsClean :
      (fuel : ℕ) (left : ℕ → Action F ℤ) (ref code : String) (context : Fields F)
      (entrypoint : String) (has_artifact : Bool) (budget : ℕ)
      → ((cap : ℕ) → Keeps env (left cap))
      → IsClean env
          (agent_container env conv fuel left ref code context entrypoint has_artifact budget)
  unfolding agent_container
  agent_container-IsClean fuel left ref code context entrypoint has_artifact budget lefts =
      bind-IsClean env (Keeps-IsClean env (write-Keeps env)) (λ prepared. record {
        cleaned = λ s.
            in_container-IsAccounted env _ _ _ _ s refl
              (λ cid. agent_steps-Keeps left lefts fuel budget context cid);
      })

  agent_run-IsClean :
      (fuel : ℕ) (code : String) (context : Fields F) (ref entrypoint : String) (budget : ℕ)
      (has_artifact : Bool) (wall : Option F) (began : F)
      → IsClean env
          (agent_run env conv fuel code context ref entrypoint budget has_artifact wall began)
  unfolding agent_run
  agent_run-IsClean fuel code context ref entrypoint budget has_artifact wall began =
      bind-IsClean env (Keeps-IsClean env (network-Keeps env)) (λ network.
        bind-IsClean env (Keeps-IsClean env (left-Keeps wall began 300)) (λ pull_left.
          bind-IsClean env (Keeps-IsClean env (ensure_image-Keeps env _ _)) (λ pull_err.
            if-IsClean env (not (pull_err == "")) (Keeps-IsClean env (return-Keeps env)) (
              agent_container-IsClean fuel _ _ code context entrypoint has_artifact budget
                (left-Keeps wall began)))))

  -- A run of an agent has docker remove every container that it created, also where a command runs
  -- into its timeout.
  pub run_agent_in_docker-IsAccounted :
      (fuel : ℕ) (code : String) (context : Fields F) (image digest entrypoint : String)
      (budget : ℕ) (has_artifact : Bool) (wall : Option F) (s : Host F)
      → IsAccounted env "" s.history
      → IsAccounted env ""
          (run_agent_in_docker env conv fuel code context image digest entrypoint budget
            has_artifact wall s).0.history
  unfolding run_agent_in_docker
  run_agent_in_docker-IsAccounted fuel code context image digest entrypoint budget has_artifact
        wall =
      (bind-IsClean env (Keeps-IsClean env (monotonic-Keeps env)) (λ began.
        bind-IsClean env (Keeps-IsClean env (left-Keeps wall began 1)) (λ second.
          if-IsClean env (is_spent second) (Keeps-IsClean env (return-Keeps env)) (
            agent_run-IsClean fuel code context _ entrypoint budget has_artifact wall
              began)))).cleaned

  detonated-Keeps : (v : Option (Value F)) → Keeps env (detonated env conv v)
  detonated-Keeps none = return-Keeps env
  detonated-Keeps (some (obj result)) = return-Keeps env
  detonated-Keeps (some null) = raise-Keeps
  detonated-Keeps (some (bool b)) = raise-Keeps
  detonated-Keeps (some (int n)) = raise-Keeps
  detonated-Keeps (some (float x)) = raise-Keeps
  detonated-Keeps (some (str s)) = raise-Keeps
  detonated-Keeps (some (arr vs)) = raise-Keeps

  detonated_file-Keeps : (file : Copied) → Keeps env (detonated_file env conv file)
  detonated_file-Keeps absent = return-Keeps env
  detonated_file-Keeps unreadable = return-Keeps env
  detonated_file-Keeps undecodable = return-Keeps env
  detonated_file-Keeps (text s) = detonated-Keeps (env.loads s)

  finish_detonation-Keeps :
      (cid : String) (halted : Option (Fields F))
      → Keeps env (finish_detonation env conv cid halted)
  finish_detonation-Keeps cid none = bind-Keeps env (docker-Keeps env _ _ refl) (λ cp.
      if-Keeps env (not (is_zero cp.returncode)) (return-Keeps env)
        (bind-Keeps env (copied_file-Keeps _) (λ file. detonated_file-Keeps file)))
  finish_detonation-Keeps cid (some report) = return-Keeps env

  detonation_steps-Keeps :
      (fuel budget : ℕ) (cid : String) → Keeps env (detonation_steps env conv fuel budget cid)
  unfolding detonation_steps
  detonation_steps-Keeps fuel budget cid = bind-Keeps env (docker-Keeps env _ _ refl) (λ cp_in.
      if-Keeps env (not (is_zero cp_in.returncode)) (return-Keeps env) (
        bind-Keeps env (docker-Keeps env _ _ refl) (λ start.
          if-Keeps env (not (is_zero start.returncode)) (return-Keeps env) (
            bind-Keeps env (await_exit-Keeps env conv fuel cid budget none)
              (λ halted. finish_detonation-Keeps cid halted)))))

  -- So does a detonation.
  pub detonate_in_docker-IsAccounted :
      (fuel : ℕ) (driver seconds track image digest : String) (budget : ℕ) (s : Host F)
      → IsAccounted env "" s.history
      → IsAccounted env ""
          (detonate_in_docker env conv fuel driver seconds track image digest budget s).0.history
  unfolding detonate_in_docker
  detonate_in_docker-IsAccounted fuel driver seconds track image digest budget =
      (bind-IsClean env (Keeps-IsClean env (network-Keeps env)) (λ network.
        bind-IsClean env (Keeps-IsClean env (ensure_image-Keeps env _ _)) (λ pull_err.
          if-IsClean env (not (pull_err == "")) (Keeps-IsClean env (return-Keeps env)) record {
            cleaned = λ s.
                in_container-IsAccounted env _ _ _ _ s refl
                  (λ cid. detonation_steps-Keeps fuel budget cid);
          }))).cleaned
