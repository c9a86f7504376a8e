-- ===== src/Round.antt =====
-- The rounds of neurons/validator.py. What leaves a call by `AbstainRound` or `InfraFailure` is
-- `abstains`, what leaves it by another exception is `fails`. Round.Agents is `_fetch_agents`,
-- Round.Track is `_run_track`, Round.Poll is `_begin_round`; this file is `run_round`.
pub mod Agents
pub mod Frozen
pub mod Track
pub mod Rows
pub mod Poll
pub mod Fresh
pub mod Offered
pub mod Scores
pub mod Infra
pub mod Live
use phylax_subnet.Prelude.{
  ℕ, ◌≡◌, refl, ◌⊎◌, inl, inr, Bool, true, false, not, String, Option, none, some, List, [], ◌∷◌,
  ◌++◌, ◌==◌, if◌then◌else◌, is_empty, Dict,
}

-- How a call ends.
pub data Attempt (A : Type 0) : Type 0 where
  done : A → Attempt A
  abstains : Attempt A
  fails : Attempt A

infixl 5 ◌>>=◌
abbrev pub ◌>>=◌ : {A B : Type 0} → Attempt A → (A → Attempt B) → Attempt B
done a >>= f = f a
abstains >>= f = abstains
fails >>= f = fails

-- Inversion of a bind that is done.
pub >>=-eq-done :
    {A B : Type 0} (m : Attempt A) (f : A → Attempt B) {b : B}
    → (m >>= f) ≡ done b
    → (a : A) × (m ≡ done a) × (f a ≡ done b)
>>=-eq-done (done a) f h = (a, refl, h)
>>=-eq-done abstains f h = cc
>>=-eq-done fails f h = cc

-- What holds of the result of either branch holds of the result of the test.
pub by_test :
    {A P : Type 0} (b : Bool) {x y r : Attempt A}
    → (b ≡ true → x ≡ r → P)
    → (b ≡ false → y ≡ r → P)
    → (if b then x else y) ≡ r
    → P
by_test true f g h = f refl h
by_test false f g h = g refl h

pub Attempt-cases :
    {A : Type 0} (m : Attempt A) → (m ≡ abstains) ⊎ (m ≡ fails) ⊎ ((a : A) × (m ≡ done a))
Attempt-cases abstains = inl refl
Attempt-cases fails = inr (inl refl)
Attempt-cases (done a) = inr (inr (a, refl))

-- TRACK_EVAL_ORDER
abbrev pub track_eval_order : List String
track_eval_order = "repositories" ∷ "packages" ∷ "mcp_servers" ∷ "skills" ∷ []

-- What a pass over the tracks leaves: the scores by track, and the tracks that failed.
pub record Pass (R : Type 0) : Type 0 where
  pub scores : Dict R
  pub failed : List String

-- The loop of `run_round` over the tracks, where a track's run ends with its rows, or with none
-- where it has no task set.
module _ {R S : Type 0} (run_track : String → S → S × Attempt (Option R)) where
  unfoldable pub run_tracks : List String → S → Pass R → S × Attempt (Pass R)
  run_tracks [] s pass = (s, done pass)
  run_tracks (track ∷ tracks) s pass =
      let (s', ran) = run_track track s in
      elim ran [
        | fails ↦ (s', fails)
        | abstains ↦ run_tracks tracks s' (record pass { failed = track ∷ pass.failed })
        | done none ↦ run_tracks tracks s' pass
        | done (some rows) ↦
            run_tracks tracks s' (record pass { scores = pass.scores ++ ((track, rows) ∷ []) })
      ]

  -- A pass without scores abstains.
  abbrev pub need_scores : S × Attempt (Pass R) → S × Attempt (Pass R)
  need_scores (s, abstains) = (s, abstains)
  need_scores (s, fails) = (s, fails)
  need_scores (s, done pass) = (s, (if is_empty pass.scores then abstains else done pass))

  -- `run_round`, once the hash of the block is known
  unfoldable pub run_round : S → S × Attempt (Pass R)
  run_round s = need_scores (run_tracks track_eval_order s (record { scores = []; failed = [] }))
