-- ===== src/Executor/Reach.antt =====
-- The states of a host that runs agents and artifacts one after the other: phylax/harness/executor.py.
use phylax_subnet.Prelude.{ℕ, refl, Bool, String, Option, List, [], ◌∷◌}
use phylax_subnet.Number.{Float}
use phylax_subnet.Value.{Fields, Conversions}
use phylax_subnet.Executor.Action.{Surroundings, Host, is_zero}
use phylax_subnet.Executor.Await.{remove_all, sweep_stale_sandboxes, nonblank}
use phylax_subnet.Executor.Words.{lines_of}
use phylax_subnet.Executor.Agent.{run_agent_in_docker, detonate_in_docker}
use phylax_subnet.Executor.Left.{
  created, IsAccounted, Keeps, docker-Keeps, bind-Keeps, if-Keeps, return-Keeps,
}
use phylax_subnet.Executor.Ends.{run_agent_in_docker-IsAccounted, detonate_in_docker-IsAccounted}

module _ {F : Type 0} (env : Surroundings F) where
  remove_all-Keeps : (ids : List String) (n : ℕ) → Keeps env (remove_all env ids n)
  unfolding remove_all
  remove_all-Keeps [] n = return-Keeps env
  remove_all-Keeps (cid ∷ ids) n =
      bind-Keeps env (docker-Keeps env _ _ refl) (λ r. remove_all-Keeps ids _)

  sweep-Keeps : Keeps env (sweep_stale_sandboxes env)
  unfolding sweep_stale_sandboxes
  sweep-Keeps = bind-Keeps env (docker-Keeps env _ _ refl) (λ listed.
      if-Keeps env (is_zero listed.returncode)
        (remove_all-Keeps (nonblank env (lines_of listed.stdout)) 0) (return-Keeps env))

  module _ ⦃num : Float F⦄ (conv : Conversions F) where
    -- The states that a process comes to by sweeps, detonations and runs of agents.
    pub data Reach : Host F → Type 0 where
      start : Reach (record { history = []; pulled = [] })
      sweep : {s : Host F} → Reach s → Reach (sweep_stale_sandboxes env s).0
      detonation :
          {s : Host F} (fuel : ℕ) (driver seconds track image digest : String) (budget : ℕ)
          → Reach s
          → Reach (detonate_in_docker env conv fuel driver seconds track image digest budget s).0
      run :
          {s : Host F} (fuel : ℕ) (code : String) (context : Fields F)
          (image digest entrypoint : String) (budget : ℕ) (has_artifact : Bool) (wall : Option F)
          → Reach s
          → Reach
              (run_agent_in_docker env conv fuel code context image digest entrypoint budget
                has_artifact wall s).0

    -- Whatever docker answers and whenever its commands run into their timeouts, docker was asked to
    -- remove every container that a process is known to have created and has the id of, between its
    -- runs of agents, detonations and sweeps.
    pub Reach-IsAccounted : {s : Host F} → Reach s → IsAccounted env "" s.history
    unfolding created
    Reach-IsAccounted start = tt
    Reach-IsAccounted (sweep {s = s} r) = (sweep-Keeps).kept "" s (Reach-IsAccounted r)
    Reach-IsAccounted (detonation {s = s} fuel driver seconds track image digest budget r) =
        detonate_in_docker-IsAccounted env conv fuel driver seconds track image digest budget s
          (Reach-IsAccounted r)
    Reach-IsAccounted
          (run {s = s} fuel code context image digest entrypoint budget artifact wall r) =
        run_agent_in_docker-IsAccounted env conv fuel code context image digest entrypoint budget
          artifact wall s (Reach-IsAccounted r)
