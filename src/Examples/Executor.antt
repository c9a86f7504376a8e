-- ===== src/Examples/Executor.antt =====
-- A host where docker does what it is asked, one where it never answers in time, and one whose clock
-- counts the pauses.
use phylax_subnet.Prelude.{
  Option, ◌*◌, ◌+◌, ◌≤◌, ◌≡◌, refl, true, false, none, some, [], ltb, arith,
}
use phylax_subnet.Number.Fixed.{Fixed, fixed_float}
use phylax_subnet.Value.{ℤ, pos, str, obj, end, field, Fields}
use phylax_subnet.Round.{fails}
use phylax_subnet.Executor.Action.{Surroundings, Host, History, Reply, text}
use phylax_subnet.Executor.Await.{wall_of}
use phylax_subnet.Executor.Agent.{run_agent_in_docker, judged}
use phylax_subnet.Executor.Left.{IsAccounted}
use phylax_subnet.Executor.Reach.{start, run, Reach-IsAccounted}
use phylax_subnet.Executor.Deadline.{pauses, is_unfinished}
use phylax_subnet.Executor.Finished.{run_agent_in_docker_ends}
use phylax_subnet.Executor.Refused.{run_agent_in_docker_fails}
use phylax_subnet.Examples.{plain}

abbrev answering : Reply
answering = record { returncode = pos 0; stdout = "c1"; stderr = "" }

abbrev obliging : Surroundings Fixed
obliging = record {
  reply = λ h args t. some answering;
  clock = λ h. 0;
  copied = λ h path. text "{}";
  loads = λ s. some (obj end);
  trunc = λ x. pos 1;
  jail_network = "phylax-jail";
  proxy_url = "http://proxy";
  work = "/tmp/work";
}

abbrev context : Fields Fixed
context = field "track" (str "skills") end

abbrev empty_host : Host Fixed
empty_host = record { history = []; pulled = [] }

Reach-IsAccounted_example :
    IsAccounted obliging ""
      (run_agent_in_docker obliging plain 3 "code" context "image" "" "agent_main" 120 true none
        empty_host).0.history
Reach-IsAccounted_example =
    Reach-IsAccounted obliging plain
      (run 3 "code" context "image" "" "agent_main" 120 true none start)

-- Docker answers nothing in time.
abbrev silent : Surroundings Fixed
silent = record obliging { reply = λ h args t. none }

run_agent_in_docker_fails_example :
    judged silent plain
      (run_agent_in_docker silent plain 3 "code" context "image" "" "agent_main" 120 true
        (some 180000)
        empty_host).1
    ≡ fails
run_agent_in_docker_fails_example =
    run_agent_in_docker_fails plain silent 3 "code" context "image" "" "agent_main" 120 true 180000
      empty_host refl refl (λ h t. refl)

-- The container runs on, and each pause is a second.
abbrev ticking : Surroundings Fixed
ticking = record obliging {
  reply = λ h args t. some (record answering { stdout = "true" });
  clock = λ h. pauses h * 1000;
}

wall_of-le : (wall : Option ℤ) → wall_of ticking plain 1 wall ≤ 3000
wall_of-le none = omega arith
wall_of-le (some wall) = ground arith

ticking_late :
    (wall : Option ℤ) (h0 h : History Fixed)
    → pauses h0 + 4 ≤ pauses h
    → ltb (pauses h0 * 1000 + wall_of ticking plain 1 wall) (pauses h * 1000) ≡ true
ticking_late wall h0 h late = ground (arith, wall_of-le wall)

run_agent_in_docker_ends_example :
    is_unfinished
      (run_agent_in_docker ticking plain 5 "code" context "image" "" "agent_main" 1 true none
        empty_host).1
    ≡ false
run_agent_in_docker_ends_example =
    run_agent_in_docker_ends ticking plain 4 1 ticking_late 5 "code" context "image" "" "agent_main"
      true none empty_host (omega arith)
