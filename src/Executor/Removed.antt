-- ===== src/Executor/Removed.antt =====
-- What the steps of a container leave of containers: phylax/harness/executor.py.
use phylax_subnet.Prelude.{
  ℕ, zero, suc, ◌≡◌, refl, true, not, String, Option, none, List, ◌==◌, All-weaken, arith, member,
  Bool-cases, Option-cases, inl, inr, eq_iff, eq_refl,
}
use phylax_subnet.Prelude.Text.{strip_string}
use phylax_subnet.Number.{Float}
use phylax_subnet.Value.{ℤ, Fields, Conversions}
use phylax_subnet.Executor.Action.{
  ran, Reply, Surroundings, Host, Called, ok, expired, errs, unfinished, Action, noted, docker,
  is_zero,
}
use phylax_subnet.Executor.Await.{
  ensure_jail_network, ensure_image, pull_image, running, exit_code, kill, cpu_seconds, await_loop,
  await_exit, is_over,
}
use phylax_subnet.Executor.Left.{
  is_create, created, is_removed, IsAccounted, Keeps, docker-Keeps, bind-Keeps, if-Keeps,
  return-Keeps, monotonic-Keeps, sleep-Keeps,
}
use phylax_subnet.Executor.Agent.{remove_container, in_container, caught, removed}

module _ {F : Type 0} (env : Surroundings F) where
  pub network-Keeps : Keeps env (ensure_jail_network env)
  unfolding ensure_jail_network
  network-Keeps = bind-Keeps env (docker-Keeps env _ _ refl) (λ inspect.
      if-Keeps env (is_zero inspect.returncode) (return-Keeps env)
        (bind-Keeps env (docker-Keeps env _ _ refl) (λ _. return-Keeps env)))

  running-Keeps : (cid : String) → Keeps env (running env cid)
  unfolding running
  running-Keeps cid = bind-Keeps env (docker-Keeps env _ _ refl) (λ _. return-Keeps env)

  module _ ⦃num : Float F⦄ (conv : Conversions F) where
    open num use {lt}

    cpu_seconds-Keeps : (cid : String) → Keeps env (cpu_seconds env conv cid)
    unfolding cpu_seconds
    cpu_seconds-Keeps cid = bind-Keeps env (docker-Keeps env _ _ refl) (λ _. return-Keeps env)

    kill-Keeps : (cid : String) (report : Fields F) → Keeps env (kill env cid report)
    kill-Keeps cid report = bind-Keeps env (docker-Keeps env _ _ refl) (λ _. return-Keeps env)

    await_loop-Keeps :
        (n : ℕ) (cid : String) (budget : ℕ) (deadline interval : F) (base : Option F)
        → Keeps env (await_loop env conv n cid budget deadline interval base)
    unfolding await_loop
    await_loop-Keeps zero cid budget deadline interval base = record { kept = λ c s h. h }
    await_loop-Keeps (suc n) cid budget deadline interval base =
        bind-Keeps env (running-Keeps cid) (λ alive. if-Keeps env (not alive) (return-Keeps env) (
          bind-Keeps env (cpu_seconds-Keeps cid) (λ cpu.
            if-Keeps env (is_over env conv budget base cpu) (kill-Keeps cid _) (
              bind-Keeps env (monotonic-Keeps env) (λ now.
                if-Keeps env (lt deadline now) (kill-Keeps cid _) (
                  bind-Keeps env (sleep-Keeps env)
                    (λ _. await_loop-Keeps n cid budget deadline interval _)))))))

    pub await_exit-Keeps :
        (n : ℕ) (cid : String) (budget : ℕ) (wall : Option ℤ)
        → Keeps env (await_exit env conv n cid budget wall)
    unfolding await_exit
    await_exit-Keeps n cid budget wall =
        bind-Keeps env (monotonic-Keeps env) (λ now. await_loop-Keeps n cid budget _ _ none)

  pull_image-Keeps : (ref : String) (timeout : ℕ) → Keeps env (pull_image env ref timeout)
  pull_image-Keeps ref timeout = bind-Keeps env (docker-Keeps env _ _ refl) (λ pull.
      if-Keeps env (not (is_zero pull.returncode)) (return-Keeps env)
        (bind-Keeps env (record { kept = λ cid s h. h }) (λ _. return-Keeps env)))

  pub ensure_image-Keeps : (ref : String) (timeout : ℕ) → Keeps env (ensure_image env ref timeout)
  unfolding ensure_image
  ensure_image-Keeps ref timeout = record {
    kept = λ cid s h. elim (Bool-cases (member ref s.pulled)) [
      | inl e ↦ rw (ensure_image, e) h
      | inr e ↦ rw (ensure_image, e) ((pull_image-Keeps ref timeout).kept cid s h)
    ];
  }

  pub exit_code-Keeps : (cid : String) → Keeps env (exit_code env cid)
  unfolding exit_code
  exit_code-Keeps cid = bind-Keeps env (docker-Keeps env _ _ refl) (λ _. return-Keeps env)

  removed_host :
      {A : Type 0} (ran : Called A) (r : Host F × Called Reply) → (removed env ran r).0 ≡ r.0
  removed_host result (s, ok r) = refl
  removed_host result (s, expired) = refl
  removed_host result (s, errs) = refl
  removed_host result (s, unfinished) = refl

  -- The removal of the container that the run has created.
  remove_container-IsAccounted :
      {A : Type 0} (cid : String) (ran : Host F × Called A)
      → IsAccounted env cid ran.0.history
      → IsAccounted env "" (remove_container env cid ran).0.history
  unfolding remove_container docker created is_removed
  remove_container-IsAccounted cid (s, result) h = elim (Bool-cases (cid == "")) [
    | inl e ↦
        rw (remove_container, e)
          (All-weaken _ _ (created env s.history) (λ c k. ground (arith, eq_iff cid "")) h)
    | inr e ↦
        rw (remove_container, e, removed_host result _)
          (All-weaken _ _ (created env s.history)
            (λ c k. ground (arith, eq_iff cid c, eq_iff c cid)) h)
  ]

  caught_host : (report : Fields F) (r : Host F × Called (Fields F)) → (caught env report r).0 ≡ r.0
  caught_host report (s, ok a) = refl
  caught_host report (s, expired) = refl
  caught_host report (s, errs) = refl
  caught_host report (s, unfinished) = refl

  -- A run that creates a container leaves none.
  pub in_container-IsAccounted :
      (args : List String) (timed_out : Fields F) (not_created : Reply → Fields F)
      (steps : String → Action F (Fields F)) (s : Host F)
      → is_create args ≡ true
      → ((cid : String) → Keeps env (steps cid))
      → IsAccounted env "" s.history
      → IsAccounted env "" (in_container env args timed_out not_created steps s).0.history
  unfolding in_container docker created is_removed
  in_container-IsAccounted args timed_out not_created steps s c k h =
      elim (Option-cases (env.reply s.history args 30)) [
        | inl e ↦
            rw (in_container, docker, e)
              (rw (c, e) (All-weaken _ _ (created env s.history) (λ c' k. ground arith) h))
        | inr (r, e) ↦ elim (Bool-cases (is_zero r.returncode)) [
          | inl z ↦
              let cid = strip_string r.stdout in
              let s' : Host F = noted (ran args 30) s in
              let fresh : IsAccounted env cid s'.history =
                rw (c, e, z)
                  (
                    ground (eq_refl cid, arith),
                    All-weaken _ _ (created env s.history) (λ c' k. ground arith) h,
                  ) in
              rw (in_container, docker, e, z)
                (remove_container-IsAccounted cid (caught env timed_out (steps cid s'))
                  (rw (caught_host timed_out (steps cid s')) ((k cid).kept cid s' fresh)))
          | inr z ↦
              rw (in_container, docker, e, z)
                (rw (c, e, z) (All-weaken _ _ (created env s.history) (λ c' k. ground arith) h))
        ]
      ]
