-- ===== src/Executor/Await.antt =====
-- The steps of a container: `sweep_stale_sandboxes`, `ensure_jail_network`, `_ensure_image`,
-- `_running`, `_exit_code`, `_cpu_seconds` and `_await_exit` of phylax/harness/executor.py. The loop
-- of `_await_exit` is on fuel.
use phylax_subnet.Prelude.{
  ℕ, zero, suc, ◌+◌, ◌*◌, Bool, false, not, ◌&&◌, String, Option, none, some, List, [], ◌∷◌, ◌==◌,
  if◌then◌else◌, member, keep, map,
}
use phylax_subnet.Prelude.Text.{strip_string}
use phylax_subnet.Number.{Float, max, min, one}
use phylax_subnet.Value.{ℤ, pos, negsuc, Fields, Conversions}
use phylax_subnet.Runner.{failed}
use phylax_subnet.Executor.Words.{last_string, lines_of, usage_of}
use phylax_subnet.Executor.Action.{
  Surroundings, ok, unfinished, Action, return, ◌>>=◌, sleep, docker, monotonic, is_zero,
}

abbrev pub remove_timeout : ℕ
remove_timeout = 60

abbrev pub wall_backstop_factor : ℕ
wall_backstop_factor = 3

abbrev pub or_empty : Option String → String
or_empty none = ""
or_empty (some s) = s

module _ {F : Type 0} (env : Surroundings F) where
  -- The loop of `sweep_stale_sandboxes`, with the number removed so far.
  unfoldable pub remove_all : List String → ℕ → Action F ℕ
  remove_all [] removed = return removed
  remove_all (cid ∷ ids) removed = do
    r ← docker env ("rm" ∷ "-f" ∷ cid ∷ []) remove_timeout
    remove_all ids (if is_zero r.returncode then removed + 1 else removed)

  -- [line.strip() for line in lines if line.strip()]
  abbrev pub nonblank : List String → List String
  nonblank lines = keep (λ (s : String). not (s == "")) (map strip_string lines)

  -- `sweep_stale_sandboxes`
  unfoldable pub sweep_stale_sandboxes : Action F ℕ
  sweep_stale_sandboxes = do
    listed ← docker env ("ps" ∷ "-aq" ∷ "--filter" ∷ "label=phylax.sandbox=1" ∷ []) 30
    if is_zero listed.returncode then remove_all (nonblank (lines_of listed.stdout)) 0 else return 0

  -- `ensure_jail_network`
  unfoldable pub ensure_jail_network : Action F (Unit {0})
  ensure_jail_network = do
    inspect ← docker env ("network" ∷ "inspect" ∷ env.jail_network ∷ []) 15
    if is_zero inspect.returncode then return tt else (do
      created ← docker env ("network" ∷ "create" ∷ "--internal" ∷ env.jail_network ∷ []) 30
      return tt)

  -- _PULLED.add(ref)
  abbrev pub add_pulled : String → Action F (Unit {0})
  add_pulled ref s = (record s { pulled = ref ∷ s.pulled }, ok tt)

  abbrev pub pull_image : String → ℕ → Action F String
  pull_image ref timeout = do
    pull ← docker env ("pull" ∷ ref ∷ []) timeout
    if not (is_zero pull.returncode)
        then return (last_string 400 pull.stderr)
        else (do added ← add_pulled ref; return "")

  -- `_ensure_image`; "" is no error.
  unfoldable pub ensure_image : String → ℕ → Action F String
  ensure_image ref timeout s = if member ref s.pulled then return "" s else pull_image ref timeout s

  -- `_running`
  unfoldable pub running : String → Action F Bool
  running cid = do
    r ← docker env ("inspect" ∷ "-f" ∷ "{{.State.Running}}" ∷ cid ∷ []) 10
    return (is_zero r.returncode && strip_string r.stdout == "true")

  -- `_exit_code`
  unfoldable pub exit_code : String → Action F String
  exit_code cid = do
    r ← docker env ("inspect" ∷ "-f" ∷ "{{.State.ExitCode}}" ∷ cid ∷ []) 10
    return (if is_zero r.returncode then strip_string r.stdout else "?")

  abbrev pub kill : String → Fields F → Action F (Option (Fields F))
  kill cid report = do r ← docker env ("kill" ∷ cid ∷ []) 15; return (some report)

  module _ ⦃num : Float F⦄ (conv : Conversions F) where
    open num use {lit, sub, add, lt}

    -- `_cpu_seconds`
    unfoldable pub cpu_seconds : String → Action F (Option F)
    cpu_seconds cid = do
      r ← docker env ("exec" ∷ cid ∷ "cat" ∷ "/sys/fs/cgroup/cpu.stat" ∷ []) 10
      return (if is_zero r.returncode then usage_of conv (lines_of r.stdout) else none)

    -- The first use of the processor that was read.
    abbrev pub base_of : Option F → Option F → Option F
    base_of none cpu = cpu
    base_of (some base) cpu = some base

    abbrev pub is_over : ℕ → Option F → Option F → Bool
    is_over budget (some base) (some cpu) = lt (lit budget 1) (sub cpu base)
    is_over budget _ _ = false

    -- The loop of `_await_exit`.
    unfoldable pub await_loop : ℕ → String → ℕ → F → F → Option F → Action F (Option (Fields F))
    await_loop zero cid budget deadline interval base s = (s, unfinished)
    await_loop (suc n) cid budget deadline interval base s =
        (do
          alive ← running cid
          if not alive then return none else (do
            cpu ← cpu_seconds cid
            if is_over budget base cpu then kill cid (failed "cpu budget exceeded") else (do
              now ← monotonic env
              if lt deadline now then kill cid (failed "wall backstop exceeded") else (do
                paused ← sleep interval
                await_loop n cid budget deadline interval (base_of base cpu)))))
          s

    abbrev pub of_int : ℤ → F
    of_int (pos n) = num.lit n 1
    of_int (negsuc n) = num.negative n

    abbrev pub wall_of : ℕ → Option ℤ → F
    wall_of budget none = num.lit (wall_backstop_factor * budget) 1
    wall_of budget (some wall) =
        min (num.lit (wall_backstop_factor * budget) 1) (max one (of_int wall))

    -- max(0.5, min(2.0, cpu_budget_s / 4))
    abbrev pub interval_of : ℕ → F
    interval_of budget = max (num.lit 1 2) (min (num.lit 2 1) (num.lit budget 4))

    -- `_await_exit`
    unfoldable pub await_exit : ℕ → String → ℕ → Option ℤ → Action F (Option (Fields F))
    await_exit fuel cid budget wall = do
      now ← monotonic env
      await_loop fuel cid budget (add now (wall_of budget wall)) (interval_of budget) none
