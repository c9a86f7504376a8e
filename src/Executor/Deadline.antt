-- ===== src/Executor/Deadline.antt =====
-- The end of the wait for a container: `_await_exit` of phylax/harness/executor.py.
use phylax_subnet.Prelude.{
  ℕ, zero, suc, ◌+◌, ◌≤◌, ◌<◌, ◌≡◌, refl, ◌∙◌, Bool, true, false, not, String, Option, none, List,
  [], ◌∷◌, arith, Option-cases, inl, inr, if◌then◌else◌,
}
use phylax_subnet.Number.{Float}
use phylax_subnet.Value.{ℤ, Fields, Conversions}
use phylax_subnet.Executor.Action.{
  ran, asked_time, slept, wrote, History, Surroundings, Host, Called, ok, expired, errs, unfinished,
  Action, and_then, docker, return, ◌>>=◌, noted, monotonic, sleep,
}
use phylax_subnet.Executor.Await.{
  running, cpu_seconds, kill, is_over, await_loop, await_exit, wall_of, base_of,
}

abbrev pub is_unfinished : {A : Type 0} → Called A → Bool
is_unfinished unfinished = true
is_unfinished (ok a) = false
is_unfinished expired = false
is_unfinished errs = false

-- The pauses that were made.
unfoldable pub pauses : {F : Type 0} → History F → ℕ
pauses [] = 0
pauses (slept x ∷ h) = pauses h + 1
pauses (ran args timeout ∷ h) = pauses h
pauses (asked_time ∷ h) = pauses h
pauses (wrote code context ∷ h) = pauses h

module _ {F : Type 0} where
  -- An action that ends without a pause.
  record IsPrompt {A : Type 0} (m : Action F A) : Type 0 where
    prompt :
        (s : Host F) → (is_unfinished (m s).1 ≡ false) × (pauses (m s).0.history ≡ pauses s.history)

  -- After so many pauses the action ends.
  record Finishes {A : Type 0} (n : ℕ) (m : Action F A) : Type 0 where
    finish : (s : Host F) → pauses s.history ≡ n → is_unfinished (m s).1 ≡ false

  IsPrompt-Finishes : {A : Type 0} {m : Action F A} {n : ℕ} → IsPrompt m → Finishes n m
  IsPrompt-Finishes p = record { finish = λ s e. (p.prompt s).0 }

  ended_in_time :
      {A B : Type 0} (f : A → Action F B) (n : ℕ) (r : Host F × Called A)
      → (is_unfinished r.1 ≡ false) × (pauses r.0.history ≡ n)
      → ((a : A) → Finishes n (f a))
      → is_unfinished (and_then f r).1 ≡ false
  unfolding and_then
  ended_in_time f n (s, ok a) (e, p) k = (k a).finish s p
  ended_in_time f n (s, expired) p k = refl
  ended_in_time f n (s, errs) p k = refl
  ended_in_time f n (s, unfinished) (e, p) k = e

  bind-Finishes :
      {A B : Type 0} {m : Action F A} {f : A → Action F B} {n : ℕ}
      → IsPrompt m
      → ((a : A) → Finishes n (f a))
      → Finishes n (m >>= f)
  bind-Finishes {m = m} {f = f} {n = n} km kf = record {
    finish = λ s e. let (ended, same) = km.prompt s in ended_in_time f n (m s) (ended, same ∙ e) kf;
  }

  if-Finishes :
      {A : Type 0} {n : ℕ} (b : Bool) {x y : Action F A}
      → Finishes n x
      → (b ≡ false → Finishes n y)
      → Finishes n (if b then x else y)
  if-Finishes true kx ky = kx
  if-Finishes false kx ky = ky refl

  time-Finishes :
      {A : Type 0} {n : ℕ} (env : Surroundings F) (f : F → Action F A)
      → ((h : History F) → pauses h ≡ n → Finishes n (f (env.clock h)))
      → Finishes n (monotonic env >>= f)
  unfolding and_then pauses
  time-Finishes env f k = record { finish = λ s e. (k s.history e).finish (noted asked_time s) e }

  sleep-Finishes :
      {A : Type 0} {n : ℕ} (x : F) {m : Action F A}
      → Finishes (n + 1) m
      → Finishes n (sleep x >>= λ _. m)
  unfolding and_then pauses
  sleep-Finishes x k = record { finish = λ s e. k.finish (noted (slept x) s) (ground arith) }

  bind_prompt :
      {A B : Type 0} (f : A → Action F B) (n : ℕ) (r : Host F × Called A)
      → (is_unfinished r.1 ≡ false) × (pauses r.0.history ≡ n)
      → ((a : A) → IsPrompt (f a))
      → (is_unfinished (and_then f r).1 ≡ false) × (pauses (and_then f r).0.history ≡ n)
  unfolding and_then
  bind_prompt f n (s, ok a) (e, p) k = let (e', p') = (k a).prompt s in (e', ground arith)
  bind_prompt f n (s, expired) (e, p) k = (refl, p)
  bind_prompt f n (s, errs) (e, p) k = (refl, p)
  bind_prompt f n (s, unfinished) (e, p) k = (e, p)

  bind-IsPrompt :
      {A B : Type 0} {m : Action F A} {f : A → Action F B}
      → IsPrompt m
      → ((a : A) → IsPrompt (f a))
      → IsPrompt (m >>= f)
  bind-IsPrompt {m = m} {f = f} km kf = record {
    prompt = λ s. bind_prompt f (pauses s.history) (m s) (km.prompt s) kf;
  }

  return-IsPrompt : {A : Type 0} {a : A} → IsPrompt {A = A} (return a)
  return-IsPrompt = record { prompt = λ s. (refl, refl) }

  docker-IsPrompt :
      (env : Surroundings F) (args : List String) (timeout : ℕ) → IsPrompt (docker env args timeout)
  unfolding docker pauses
  docker-IsPrompt env args timeout = record {
    prompt = λ s. elim (Option-cases (env.reply s.history args timeout)) [
      | inl e ↦ rw e (refl, refl)
      | inr (r, e) ↦ rw e (refl, refl)
    ];
  }

module _ {F : Type 0} (env : Surroundings F) where
  running-IsPrompt : (cid : String) → IsPrompt (running env cid)
  unfolding running
  running-IsPrompt cid = bind-IsPrompt (docker-IsPrompt env _ _) (λ r. return-IsPrompt)

  kill-IsPrompt : (cid : String) (report : Fields F) → IsPrompt (kill env cid report)
  kill-IsPrompt cid report = bind-IsPrompt (docker-IsPrompt env _ _) (λ r. return-IsPrompt)

  module _ ⦃num : Float F⦄ (conv : Conversions F) where
    open num use {add, lt}

    cpu_seconds-IsPrompt : (cid : String) → IsPrompt (cpu_seconds env conv cid)
    unfolding cpu_seconds
    cpu_seconds-IsPrompt cid = bind-IsPrompt (docker-IsPrompt env _ _) (λ r. return-IsPrompt)

    -- From the `m`-th pause on the clock is past the deadline.
    await_loop-Finishes :
        (m n k : ℕ) (cid : String) (budget : ℕ) (deadline interval : F) (base : Option F)
        → ((h : History F) → m ≤ pauses h → lt deadline (env.clock h) ≡ true)
        → k ≤ m
        → m + 1 ≤ k + n
        → Finishes k (await_loop env conv n cid budget deadline interval base)
    unfolding await_loop
    await_loop-Finishes m zero k cid budget deadline interval base late b c = ground arith
    await_loop-Finishes m (suc n) k cid budget deadline interval base late b c =
        bind-Finishes (running-IsPrompt cid) (λ alive.
          if-Finishes (not alive) (IsPrompt-Finishes return-IsPrompt) (λ _.
            bind-Finishes (cpu_seconds-IsPrompt cid) (λ cpu.
              if-Finishes (is_over env conv budget base cpu)
                (IsPrompt-Finishes (kill-IsPrompt cid _))
                (λ _. time-Finishes env _ (λ h e.
                  if-Finishes (lt deadline (env.clock h)) (IsPrompt-Finishes (kill-IsPrompt cid _))
                    (λ early. sleep-Finishes interval (
                      await_loop-Finishes m n (k + 1) cid budget deadline interval
                        (base_of env conv base cpu) late (ground (arith, late h))
                        (omega arith))))))))

    -- The wait for a container ends within one round more than the pauses after which the clock is
    -- past the deadline, whatever docker answers.
    pub await_exit-finishes :
        (m fuel : ℕ) (cid : String) (budget : ℕ) (wall : Option ℤ) (s : Host F)
        → ((h : History F)
            → pauses s.history + m ≤ pauses h
            → lt (add (env.clock s.history) (wall_of env conv budget wall)) (env.clock h) ≡ true)
        → m < fuel
        → is_unfinished (await_exit env conv fuel cid budget wall s).1 ≡ false
    unfolding await_exit and_then pauses
    await_exit-finishes m fuel cid budget wall s late enough =
        (await_loop-Finishes (pauses s.history + m) fuel (pauses s.history) cid budget _ _ none late
            (omega arith) (omega arith)).finish
          (noted asked_time s) refl
