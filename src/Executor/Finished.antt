-- ===== src/Executor/Finished.antt =====
-- How the run of an agent ends: phylax/harness/executor.py.
use phylax_subnet.Prelude.{
  ℕ, ◌+◌, ◌≤◌, ◌<◌, ◌≡◌, refl, Bool, true, false, not, String, Option, none, some, List, ◌==◌,
  member, Bool-cases, Option-cases, inl, inr, if◌then◌else◌,
}
use phylax_subnet.Prelude.Text.{strip_string}
use phylax_subnet.Number.{Float}
use phylax_subnet.Value.{ℤ, Value, null, bool, int, float, str, arr, obj, Fields, Conversions}
use phylax_subnet.Executor.Words.{pin}
use phylax_subnet.Executor.Action.{
  History, Reply, Copied, absent, unreadable, undecodable, text, Surroundings, Host, Called, ok,
  expired, errs, unfinished, Action, and_then, ◌>>=◌, return, raise, docker, monotonic, is_zero,
  noted, ran,
}
use phylax_subnet.Executor.Await.{
  ensure_jail_network, ensure_image, pull_image, exit_code, await_exit, wall_of,
}
use phylax_subnet.Executor.Agent.{
  compare_probe, copied_file, observed_file, of_probe, observed_probe, left, report_of, no_result,
  collected, finish, agent_steps, agent_container, agent_run, run_agent_in_docker, is_spent,
  in_container, caught, removed, remove_container,
}
use phylax_subnet.Executor.Deadline.{pauses, is_unfinished, await_exit-finishes}

module _ {F : Type 0} where
  -- An action whose fuel does not run out.
  record Ends {A : Type 0} (m : Action F A) : Type 0 where
    ends : (s : Host F) → is_unfinished (m s).1 ≡ false

  and_then_ended :
      {A B : Type 0} (f : A → Action F B) (r : Host F × Called A)
      → is_unfinished r.1 ≡ false
      → ((a : A) → Ends (f a))
      → is_unfinished (and_then f r).1 ≡ false
  unfolding and_then
  and_then_ended f (s, ok a) e k = (k a).ends s
  and_then_ended f (s, expired) e k = refl
  and_then_ended f (s, errs) e k = refl
  and_then_ended f (s, unfinished) e k = e

  bind-Ends :
      {A B : Type 0} {m : Action F A} {f : A → Action F B}
      → Ends m
      → ((a : A) → Ends (f a))
      → Ends (m >>= f)
  bind-Ends {m = m} {f = f} km kf = record { ends = λ s. and_then_ended f (m s) (km.ends s) kf }

  if-Ends : {A : Type 0} (b : Bool) {x y : Action F A} → Ends x → Ends y → Ends (if b then x else y)
  if-Ends true kx ky = kx
  if-Ends false kx ky = ky

  return-Ends : {A : Type 0} {a : A} → Ends {A = A} (return a)
  return-Ends = record { ends = λ s. refl }

  raise-Ends : {A : Type 0} → Ends {A = A} raise
  raise-Ends = record { ends = λ s. refl }

module _ {F : Type 0} (env : Surroundings F) where
  docker-Ends : (args : List String) (timeout : ℕ) → Ends (docker env args timeout)
  unfolding docker
  docker-Ends args timeout = record {
    ends = λ s. elim (Option-cases (env.reply s.history args timeout)) [
      | inl e ↦ rw e refl
      | inr (r, e) ↦ rw e refl
    ];
  }

  network-Ends : Ends (ensure_jail_network env)
  unfolding ensure_jail_network
  network-Ends = bind-Ends (docker-Ends _ _) (λ inspect.
      if-Ends (is_zero inspect.returncode) return-Ends
        (bind-Ends (docker-Ends _ _) (λ _. return-Ends)))

  pull_image-Ends : (ref : String) (timeout : ℕ) → Ends (pull_image env ref timeout)
  pull_image-Ends ref timeout = bind-Ends (docker-Ends _ _) (λ pull.
      if-Ends (not (is_zero pull.returncode)) return-Ends
        (bind-Ends (record { ends = λ s. refl }) (λ _. return-Ends)))

  ensure_image-Ends : (ref : String) (timeout : ℕ) → Ends (ensure_image env ref timeout)
  unfolding ensure_image
  ensure_image-Ends ref timeout = record {
    ends = λ s. elim (Bool-cases (member ref s.pulled)) [
      | inl e ↦ rw (ensure_image, e) refl
      | inr e ↦ rw (ensure_image, e) ((pull_image-Ends ref timeout).ends s)
    ];
  }

  exit_code-Ends : (cid : String) → Ends (exit_code env cid)
  unfolding exit_code
  exit_code-Ends cid = bind-Ends (docker-Ends _ _) (λ _. return-Ends)

  -- The removal of a container ends.
  removed_ended :
      {A : Type 0} (result : Called A) (r : Host F × Called Reply)
      → is_unfinished result ≡ false
      → is_unfinished r.1 ≡ false
      → is_unfinished (removed env result r).1 ≡ false
  removed_ended result (s, ok r) e k = e
  removed_ended result (s, expired) e k = refl
  removed_ended result (s, errs) e k = refl
  removed_ended result (s, unfinished) e k = k

  remove_container_ended :
      {A : Type 0} (cid : String) (s : Host F) (result : Called A)
      → is_unfinished result ≡ false
      → is_unfinished (remove_container env cid (s, result)).1 ≡ false
  unfolding remove_container
  remove_container_ended cid s result e = elim (Bool-cases (cid == "")) [
    | inl t ↦ rw (remove_container, t) e
    | inr t ↦ rw (remove_container, t) (removed_ended result _ e ((docker-Ends _ _).ends s))
  ]

  caught_ended :
      (report : Fields F) (r : Host F × Called (Fields F))
      → is_unfinished r.1 ≡ false
      → is_unfinished (caught env report r).1 ≡ false
  caught_ended report (s, ok a) e = refl
  caught_ended report (s, expired) e = refl
  caught_ended report (s, errs) e = refl
  caught_ended report (s, unfinished) e = e

  in_container-Ends :
      (args : List String) (timed_out : Fields F) (not_created : Reply → Fields F)
      (steps : String → Action F (Fields F))
      → ((cid : String) → Ends (steps cid))
      → Ends (in_container env args timed_out not_created steps)
  unfolding in_container docker
  in_container-Ends args timed_out not_created steps k = record {
    ends = λ s. elim (Option-cases (env.reply s.history args 30)) [
      | inl e ↦ rw (in_container, docker, e) refl
      | inr (r, e) ↦ elim (Bool-cases (is_zero r.returncode)) [
        | inl z ↦
            let cid = strip_string r.stdout in
            let s' : Host F = noted (ran args 30) s in
            let done = caught_ended timed_out (steps cid s') ((k cid).ends s') in
            rw (in_container, docker, e, z) (remove_container_ended cid _ _ done)
        | inr z ↦ rw (in_container, docker, e, z) refl
      ]
    ];
  }

module _ {F : Type 0} (env : Surroundings F) ⦃num : Float F⦄ (conv : Conversions F) where
  open num use {add, lt}

  copied_file-Ends : (path : String) → Ends (copied_file env conv path)
  copied_file-Ends path = record { ends = λ s. refl }

  compare_probe-Ends :
      (expected : String) (file : Copied) → Ends (compare_probe env conv expected file)
  compare_probe-Ends expected absent = return-Ends
  compare_probe-Ends expected unreadable = return-Ends
  compare_probe-Ends expected undecodable = raise-Ends
  compare_probe-Ends expected (text found) = return-Ends

  observed_file-Ends : (cid : String) (probe : Fields F) → Ends (observed_file env conv cid probe)
  unfolding observed_file
  observed_file-Ends cid probe = if-Ends _ return-Ends (
      bind-Ends (docker-Ends env _ _) (λ cp.
        if-Ends (not (is_zero cp.returncode)) return-Ends
          (bind-Ends (copied_file-Ends _) (λ file. compare_probe-Ends _ file))))

  of_probe-Ends : (cid : String) (v : Value F) → Ends (of_probe env conv cid v)
  of_probe-Ends cid (obj probe) = observed_file-Ends cid probe
  of_probe-Ends cid null = raise-Ends
  of_probe-Ends cid (bool b) = raise-Ends
  of_probe-Ends cid (int n) = raise-Ends
  of_probe-Ends cid (float x) = raise-Ends
  of_probe-Ends cid (str s) = raise-Ends
  of_probe-Ends cid (arr vs) = raise-Ends

  left-Ends : (wall : Option F) (began : F) (cap : ℕ) → Ends (left env conv wall began cap)
  unfolding left
  left-Ends none began cap = return-Ends
  left-Ends (some budget) began cap = bind-Ends (record { ends = λ s. refl }) (λ now. return-Ends)

  report_of-Ends :
      (cid : String) (context : Fields F) (v : Option (Value F))
      → Ends (report_of env conv cid context v)
  unfolding observed_probe
  report_of-Ends cid context none = return-Ends
  report_of-Ends cid context (some (obj report)) =
      bind-Ends (of_probe-Ends cid _) (λ seen. return-Ends)
  report_of-Ends cid context (some null) = return-Ends
  report_of-Ends cid context (some (bool b)) = return-Ends
  report_of-Ends cid context (some (int n)) = return-Ends
  report_of-Ends cid context (some (float x)) = return-Ends
  report_of-Ends cid context (some (str s)) = return-Ends
  report_of-Ends cid context (some (arr vs)) = return-Ends

  module _ (left : ℕ → Action F ℤ) (lefts : (cap : ℕ) → Ends (left cap)) where
    no_result-Ends : (cid : String) → Ends (no_result env conv left cid)
    no_result-Ends cid = bind-Ends (lefts 15) (λ seconds.
        bind-Ends (docker-Ends env _ _)
          (λ logs. bind-Ends (exit_code-Ends env cid) (λ code. return-Ends)))

    collected-Ends :
        (cid : String) (context : Fields F) (file : Copied)
        → Ends (collected env conv left context cid file)
    collected-Ends cid context absent = no_result-Ends cid
    collected-Ends cid context unreadable = report_of-Ends cid context none
    collected-Ends cid context undecodable = report_of-Ends cid context none
    collected-Ends cid context (text s) = report_of-Ends cid context (env.loads s)

    finish-Ends :
        (context : Fields F) (cid : String) (halted : Option (Fields F))
        → Ends (finish env conv left context cid halted)
    finish-Ends context cid none = bind-Ends (lefts 30) (λ seconds.
        bind-Ends (docker-Ends env _ _) (λ cp.
          if-Ends (not (is_zero cp.returncode)) (no_result-Ends cid)
            (bind-Ends (copied_file-Ends _) (λ file. collected-Ends cid context file))))
    finish-Ends context cid (some report) = return-Ends

  module _ (m budget : ℕ)
      (late : (wall : Option ℤ) (h0 h : History F)
        → pauses h0 + m ≤ pauses h
        → lt (add (env.clock h0) (wall_of env conv budget wall)) (env.clock h) ≡ true) where
    await_exit-Ends :
        (fuel : ℕ) (cid : String) (wall : Option ℤ)
        → m < fuel
        → Ends (await_exit env conv fuel cid budget wall)
    await_exit-Ends fuel cid wall enough = record {
      ends = λ s.
          await_exit-finishes env conv m fuel cid budget wall s (λ h. late wall s.history h) enough;
    }

    agent_steps-Ends :
        (left : ℕ → Action F ℤ) (fuel : ℕ) (context : Fields F) (cid : String)
        → ((cap : ℕ) → Ends (left cap))
        → m < fuel
        → Ends (agent_steps env conv fuel left budget context cid)
    unfolding agent_steps
    agent_steps-Ends left fuel context cid lefts enough = bind-Ends (lefts 60) (λ copy_left.
        bind-Ends (docker-Ends env _ _) (λ cp_in.
          if-Ends (not (is_zero cp_in.returncode)) return-Ends (
            bind-Ends (lefts 30) (λ start_left. bind-Ends (docker-Ends env _ _) (λ start.
              if-Ends (not (is_zero start.returncode)) return-Ends (
                bind-Ends (lefts 10000) (λ wall.
                  bind-Ends (await_exit-Ends fuel cid (some wall) enough)
                    (λ halted. finish-Ends left lefts context cid halted))))))))

    agent_run-Ends :
        (fuel : ℕ) (code : String) (context : Fields F) (ref entrypoint : String)
        (has_artifact : Bool) (wall : Option F) (began : F)
        → m < fuel
        → Ends (agent_run env conv fuel code context ref entrypoint budget has_artifact wall began)
    unfolding agent_run agent_container
    agent_run-Ends fuel code context ref entrypoint has_artifact wall began enough =
        bind-Ends (network-Ends env) (λ network. bind-Ends (left-Ends wall began 300) (λ pull_left.
          bind-Ends (ensure_image-Ends env _ _) (λ pull_err.
            if-Ends (not (pull_err == "")) return-Ends (
              bind-Ends (record { ends = λ s. refl })
                (λ prepared.
                  in_container-Ends env _ _ _ _
                    (λ cid. agent_steps-Ends _ fuel context cid (left-Ends wall began) enough))))))

    -- A run of an agent ends, whatever docker answers, where the clock is past any deadline of the
    -- budget after so many pauses and the wait has more rounds than that.
    pub run_agent_in_docker_ends :
        (fuel : ℕ) (code : String) (context : Fields F) (image digest entrypoint : String)
        (has_artifact : Bool) (wall : Option F) (s : Host F)
        → m < fuel
        → is_unfinished
            (run_agent_in_docker env conv fuel code context image digest entrypoint budget
              has_artifact wall s).1
          ≡ false
    unfolding run_agent_in_docker
    run_agent_in_docker_ends fuel code context image digest entrypoint has_artifact wall s enough =
        (bind-Ends {m = monotonic env} (record { ends = λ s. refl })
            (λ began. bind-Ends (left-Ends wall began 1) (λ second.
              if-Ends (is_spent second) return-Ends (
                agent_run-Ends fuel code context (pin image digest) entrypoint has_artifact wall
                  began enough)))).ends
          s
