-- ===== src/Executor/Left.antt =====
-- The containers that a run leaves behind: phylax/harness/executor.py.
use phylax_subnet.Prelude.{
  ℕ, ◌≡◌, Bool, true, false, ◌&&◌, ◌||◌, String, Option, none, some, List, [], ◌∷◌, ◌==◌,
  if◌then◌else◌, All, All-weaken, arith,
}
use phylax_subnet.Prelude.Text.{strip_string}
use phylax_subnet.Value.{Fields}
use phylax_subnet.Executor.Action.{
  ran, History, Reply, Surroundings, Host, Called, ok, expired, errs, unfinished, Action, and_then,
  return, ◌>>=◌, docker, monotonic, sleep, write, is_zero,
}

abbrev pub is_create : List String → Bool
is_create [] = false
is_create (a ∷ args) = a == "create"

abbrev pub removes : String → List String → Bool
removes cid (a ∷ b ∷ c ∷ []) = a == "rm" && b == "-f" && c == cid
removes cid _ = false

module _ {F : Type 0} where
  -- Whether docker was asked to remove the container.
  unfoldable pub is_removed : String → History F → Bool
  is_removed cid [] = false
  is_removed cid (ran args timeout ∷ h) = removes cid args || is_removed cid h
  is_removed cid (_ ∷ h) = is_removed cid h

module _ {F : Type 0} (env : Surroundings F) where
  -- The id that an event's command created a container with.
  abbrev created_by : Option Reply → List String → List String
  created_by none cids = cids
  created_by (some r) cids = if is_zero r.returncode then strip_string r.stdout ∷ cids else cids

  -- The containers that the commands created.
  unfoldable pub created : History F → List String
  created [] = []
  created (ran args timeout ∷ h) =
      let rest = created h in
      if is_create args then created_by (env.reply h args timeout) rest else rest
  created (_ ∷ h) = created h

  -- Of each container that was created docker was asked to remove it, but for the one of the id and
  -- those that no id was printed for.
  abbrev pub IsAccounted : String → History F → Type 0
  IsAccounted cid h =
      All (λ (c : String). (c == "" || c == cid || is_removed c h) ≡ true) (created h)

  -- An action leaves no more than the container of the id.
  pub record Keeps {A : Type 0} (m : Action F A) : Type 0 where
    pub kept :
        (cid : String) (s : Host F) → IsAccounted cid s.history → IsAccounted cid (m s).0.history

  ran-IsAccounted :
      (cid : String) (args : List String) (timeout : ℕ) (h : History F)
      → is_create args ≡ false
      → IsAccounted cid h
      → IsAccounted cid (ran args timeout ∷ h)
  unfolding created is_removed
  ran-IsAccounted cid args timeout h e a = rw e (All-weaken _ _ (created h) (λ c k. ground arith) a)

  pub docker-Keeps :
      (args : List String) (timeout : ℕ) → is_create args ≡ false → Keeps (docker env args timeout)
  unfolding docker
  docker-Keeps args timeout e = record {
    kept = λ cid s a. ran-IsAccounted cid args timeout s.history e a;
  }

  and_then-IsAccounted :
      {A B : Type 0} (f : A → Action F B) (cid : String) (r : Host F × Called A)
      → ((a : A) → Keeps (f a))
      → IsAccounted cid r.0.history
      → IsAccounted cid (and_then f r).0.history
  unfolding and_then
  and_then-IsAccounted f cid (s, ok a) k h = (k a).kept cid s h
  and_then-IsAccounted f cid (s, expired) k h = h
  and_then-IsAccounted f cid (s, errs) k h = h
  and_then-IsAccounted f cid (s, unfinished) k h = h

  pub bind-Keeps :
      {A B : Type 0} {m : Action F A} {f : A → Action F B}
      → Keeps m
      → ((a : A) → Keeps (f a))
      → Keeps (m >>= f)
  bind-Keeps {m = m} {f = f} km kf = record {
    kept = λ cid s a. and_then-IsAccounted f cid (m s) kf (km.kept cid s a);
  }

  pub if-Keeps :
      {A : Type 0} (b : Bool) {x y : Action F A} → Keeps x → Keeps y → Keeps (if b then x else y)
  if-Keeps true kx ky = kx
  if-Keeps false kx ky = ky

  pub return-Keeps : {A : Type 0} {a : A} → Keeps {A = A} (return a)
  return-Keeps = record { kept = λ cid s h. h }

  pub monotonic-Keeps : Keeps (monotonic env)
  unfolding created is_removed
  monotonic-Keeps = record { kept = λ cid s h. h }

  pub sleep-Keeps : {x : F} → Keeps (sleep x)
  unfolding created is_removed
  sleep-Keeps = record { kept = λ cid s h. h }

  pub write-Keeps : {code : String} {context : Fields F} → Keeps (write code context)
  unfolding created is_removed
  write-Keeps = record { kept = λ cid s h. h }

  -- An action leaves no container.
  pub record IsClean {A : Type 0} (m : Action F A) : Type 0 where
    pub cleaned : (s : Host F) → IsAccounted "" s.history → IsAccounted "" (m s).0.history

  pub Keeps-IsClean : {A : Type 0} {m : Action F A} → Keeps m → IsClean m
  Keeps-IsClean k = record { cleaned = k.kept "" }

  and_then_cleaned :
      {A B : Type 0} (f : A → Action F B) (r : Host F × Called A)
      → ((a : A) → IsClean (f a))
      → IsAccounted "" r.0.history
      → IsAccounted "" (and_then f r).0.history
  unfolding and_then
  and_then_cleaned f (s, ok a) k h = (k a).cleaned s h
  and_then_cleaned f (s, expired) k h = h
  and_then_cleaned f (s, errs) k h = h
  and_then_cleaned f (s, unfinished) k h = h

  pub bind-IsClean :
      {A B : Type 0} {m : Action F A} {f : A → Action F B}
      → IsClean m
      → ((a : A) → IsClean (f a))
      → IsClean (m >>= f)
  bind-IsClean {m = m} {f = f} km kf = record {
    cleaned = λ s a. and_then_cleaned f (m s) kf (km.cleaned s a);
  }

  pub if-IsClean :
      {A : Type 0} (b : Bool) {x y : Action F A}
      → IsClean x
      → IsClean y
      → IsClean (if b then x else y)
  if-IsClean true kx ky = kx
  if-IsClean false kx ky = ky
