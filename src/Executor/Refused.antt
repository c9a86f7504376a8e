-- ===== src/Executor/Refused.antt =====
-- What a run is to the round when docker does not do what it is asked: `run_task` of
-- phylax/harness/runner.py with phylax/harness/executor.py.
use phylax_subnet.Prelude.{
  ℕ, ◌≡◌, refl, Bool, true, false, not, String, Option, none, some, List, [], ◌∷◌, member, arith,
  Option-cases, Bool-cases, inl, inr,
}
use phylax_subnet.Prelude.Text.{codes, codes-concat, starts_with}
use phylax_subnet.Number.{Float}
use phylax_subnet.Value.{ℤ, Fields, Conversions}
use phylax_subnet.Round.{abstains, fails}
use phylax_subnet.Runner.{is_infra_error}
use phylax_subnet.Runner.Reports.{read_report-failed}
use phylax_subnet.Executor.Words.{pin, last_string}
use phylax_subnet.Executor.Action.{
  Action, Event, History, noted, ran, asked_time, wrote, Reply, Surroundings, Host, Called, expired,
  and_then, ◌>>=◌, docker, is_zero,
}
use phylax_subnet.Executor.Await.{ensure_jail_network, ensure_image}
use phylax_subnet.Executor.Agent.{
  in_container, left, seconds_left, is_spent, context_for, agent_args, agent_container, agent_run,
  run_agent_in_docker, judged,
}

-- A command fails, or runs into its timeout.
abbrev pub is_refused : Option Reply → Bool
is_refused none = true
is_refused (some r) = not (is_zero r.returncode)

module _ {F : Type 0} ⦃num : Float F⦄ (conv : Conversions F) (env : Surroundings F) where
  -- Where docker does not create the container of an agent, or not in time, the run is a failure of
  -- the infrastructure and not one of the agent.
  pub agent_container-abstains :
      (fuel : ℕ) (left : ℕ → Action F ℤ) (ref code : String) (context : Fields F)
      (entrypoint : String) (has_artifact : Bool) (budget : ℕ) (s : Host F)
      → is_refused (
          env.reply
            (wrote code (context_for env conv entrypoint has_artifact context) ∷ s.history)
            (agent_args env conv ref)
            30)
        ≡ true
      → judged env conv
          (agent_container env conv fuel left ref code context entrypoint has_artifact budget s).1
        ≡ abstains
  unfolding agent_container and_then in_container docker is_infra_error starts_with codes
  agent_container-abstains fuel left ref code context entrypoint has_artifact budget s h =
      let asked : List (Event F) =
        wrote code (context_for env conv entrypoint has_artifact context) ∷ s.history in
      elim (Option-cases (env.reply asked (agent_args env conv ref) 30)) [
        | inl e ↦ rw e (read_report-failed conv "docker command timed out" refl)
        | inr (r, e) ↦
            let z : is_zero r.returncode ≡ false = (let k = rw e at h in ground arith) in
            rw (e, z)
              (read_report-failed conv _
                (rw (codes-concat "container create failed: " (last_string 400 r.stderr)) refl))
      ]

  -- The action ends in a timeout unless the image is there.
  record IsLost {A : Type 0} (ref : String) (m : Action F A) : Type 0 where
    lost : (s : Host F) → member ref s.pulled ≡ false → (m s).1 ≡ expired

  pull-IsLost :
      {A : Type 0} (f : String → Action F A) (ref : String) (timeout : ℕ)
      → ((h : History F) (t : ℕ) → env.reply h ("pull" ∷ ref ∷ []) t ≡ none)
      → IsLost ref (ensure_image env ref timeout >>= f)
  unfolding ensure_image and_then docker
  pull-IsLost f ref timeout slow = record {
    lost = λ s fresh. rw (ensure_image, fresh, slow s.history timeout) refl;
  }

  left-IsLost :
      {A : Type 0} (f : ℤ → Action F A) (ref : String) (wall began : F) (cap : ℕ)
      → ((n : ℤ) → IsLost ref (f n))
      → IsLost ref (left env conv (some wall) began cap >>= f)
  unfolding left and_then
  left-IsLost f ref wall began cap k = record {
    lost = λ s fresh. (k _).lost (noted asked_time s) fresh;
  }

  network-IsLost :
      {A : Type 0} (f : Unit {0} → Action F A) (ref : String)
      → ((u : Unit {0}) → IsLost ref (f u))
      → IsLost ref (ensure_jail_network env >>= f)
  unfolding ensure_jail_network and_then docker
  network-IsLost f ref k = record {
    lost = λ s fresh.
        elim (Option-cases
          (env.reply s.history ("network" ∷ "inspect" ∷ env.jail_network ∷ []) 15)) [
            | inl e ↦ rw e refl
            | inr (r, e) ↦ elim (Bool-cases (is_zero r.returncode)) [
              | inl z ↦ rw (e, z) ((k tt).lost _ fresh)
              | inr z ↦
                  let asked : List (Event F) =
                    ran ("network" ∷ "inspect" ∷ env.jail_network ∷ []) 15 ∷ s.history in
                  let args : List String =
                    "network" ∷ "create" ∷ "--internal" ∷ env.jail_network ∷ [] in
                  elim (Option-cases (env.reply asked args 30)) [
                    | inl e' ↦ rw (e, z, e') refl
                    | inr (r', e') ↦ rw (e, z, e') ((k tt).lost _ fresh)
                  ]
            ]
          ];
  }

  agent_run-IsLost :
      (fuel : ℕ) (code : String) (context : Fields F) (ref entrypoint : String) (budget : ℕ)
      (has_artifact : Bool) (wall began : F)
      → ((h : History F) (t : ℕ) → env.reply h ("pull" ∷ ref ∷ []) t ≡ none)
      → IsLost ref (
          agent_run env conv fuel code context ref entrypoint budget has_artifact (some wall) began)
  unfolding agent_run
  agent_run-IsLost fuel code context ref entrypoint budget has_artifact wall began slow =
      network-IsLost _ ref (λ u. left-IsLost _ ref wall began 300 (λ n. pull-IsLost _ ref _ slow))

  judged_expired : (r : Called (Fields F)) → r ≡ expired → judged env conv r ≡ fails
  judged_expired r e = rw e refl

  -- Where a pull of the image runs into its timeout, the run of an agent whose budget is not spent
  -- raises, and is no failure of the infrastructure.
  pub run_agent_in_docker_fails :
      (fuel : ℕ) (code : String) (context : Fields F) (image digest entrypoint : String)
      (budget : ℕ) (has_artifact : Bool) (wall : F) (s : Host F)
      → is_spent
          (seconds_left env conv wall (env.clock s.history) (env.clock (asked_time ∷ s.history)) 1)
        ≡ false
      → member (pin image digest) s.pulled ≡ false
      → ((h : History F) (timeout : ℕ)
          → env.reply h ("pull" ∷ pin image digest ∷ []) timeout ≡ none)
      → judged env conv
          (run_agent_in_docker env conv fuel code context image digest entrypoint budget
            has_artifact
            (some wall)
            s).1
        ≡ fails
  unfolding run_agent_in_docker and_then left
  run_agent_in_docker_fails fuel code context image digest entrypoint budget has_artifact wall s
        unspent fresh slow =
      rw unspent (
        judged_expired _ (
          (agent_run-IsLost fuel code context (pin image digest) entrypoint budget has_artifact wall
              (env.clock s.history) slow).lost
            (noted asked_time (noted asked_time s)) fresh))
