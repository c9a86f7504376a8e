-- ===== src/Executor/Action.antt =====
-- Calls of docker, of the clock and of `time.sleep`, as phylax/harness/executor.py makes them.
use phylax_subnet.Prelude.{ℕ, String, Option, none, some, List, ◌∷◌, Bool, false, ◌=ℕ◌}
use phylax_subnet.Value.{ℤ, pos, negsuc, Value, Fields}

-- What a run has asked of its surroundings: a docker command with its arguments and timeout, the
-- time, a pause, or files for the container: the agent's code and its context.
pub data Event (F : Type 0) : Type 0 where
  ran : List String → ℕ → Event F
  asked_time : Event F
  slept : F → Event F
  wrote : String → Fields F → Event F

-- The latest first.
abbrev pub History : Type 0 → Type 0
History F = List (Event F)

-- `subprocess.CompletedProcess`
pub record Reply : Type 0 where
  pub returncode : ℤ
  pub stdout : String
  pub stderr : String

abbrev pub is_zero : ℤ → Bool
is_zero (pos n) = n =ℕ 0
is_zero (negsuc n) = false

-- A file copied out of a container and read as text: it is not there, `OSError`, no UTF-8, or text.
pub data Copied : Type 0 where
  absent : Copied
  unreadable : Copied
  undecodable : Copied
  text : String → Copied

-- The surroundings; `reply` has none where the command runs into its timeout.
pub record Surroundings (F : Type 0) : Type 0 where
  pub reply : History F → List String → ℕ → Option Reply
  pub clock : History F → F
  pub copied : History F → String → Copied
  -- json.loads, none for a ValueError
  pub loads : String → Option (Value F)
  -- int(x) of a float
  pub trunc : F → ℤ
  pub jail_network : String
  pub proxy_url : String
  -- tempfile.mkdtemp
  pub work : String

-- The state: what was asked, and `_PULLED`.
pub record Host (F : Type 0) : Type 0 where
  pub history : History F
  pub pulled : List String

-- A call returns, raises `TimeoutExpired`, raises something else, or its fuel ran out.
pub data Called (A : Type 0) : Type 0 where
  ok : A → Called A
  expired : Called A
  errs : Called A
  unfinished : Called A

abbrev pub Action : Type 0 → Type 0 → Type 0
Action F A = Host F → Host F × Called A

abbrev pub return : {F A : Type 0} → A → Action F A
return a s = (s, ok a)

abbrev pub raise : {F A : Type 0} → Action F A
raise s = (s, errs)

-- What follows a call, unless it raised.
unfoldable pub and_then :
    {F A B : Type 0} → (A → Action F B) → Host F × Called A → Host F × Called B
and_then f (s, ok a) = f a s
and_then f (s, expired) = (s, expired)
and_then f (s, errs) = (s, errs)
and_then f (s, unfinished) = (s, unfinished)

infixl 5 ◌>>=◌ ◌>>◌
abbrev pub ◌>>=◌ : {F A B : Type 0} → Action F A → (A → Action F B) → Action F B
◌>>=◌ m f s = and_then f (m s)

abbrev pub ◌>>◌ : {F A B : Type 0} → Action F A → Action F B → Action F B
m >> k = m >>= λ _. k

module _ {F : Type 0} where
  -- An event is kept.
  abbrev pub noted : Event F → Host F → Host F
  noted e s = record s { history = e ∷ s.history }

  -- A file for the container.
  abbrev pub write : String → Fields F → Action F (Unit {0})
  write code context s = (noted (wrote code context) s, ok tt)

  -- time.sleep(x)
  abbrev pub sleep : F → Action F (Unit {0})
  sleep x s = (noted (slept x) s, ok tt)

abbrev pub answered : Option Reply → Called Reply
answered none = expired
answered (some r) = ok r

module _ {F : Type 0} (env : Surroundings F) where
  -- `_docker`
  unfoldable pub docker : List String → ℕ → Action F Reply
  docker args timeout s = (noted (ran args timeout) s, answered (env.reply s.history args timeout))

  -- time.monotonic()
  abbrev pub monotonic : Action F F
  monotonic s = (noted asked_time s, ok (env.clock s.history))
