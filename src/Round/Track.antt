-- ===== src/Round/Track.antt =====
-- One track of a round: `_run_track` and `_prior_round_results` of neurons/validator.py. The calls
-- of the backend, the health of the inference proxy and the order in which `as_completed` yields
-- the futures are parameters, as are `float` and `round`.
use phylax_subnet.Prelude.{
  ℕ, ◌+◌, Bool, not, ◌&&◌, String, Option, none, some, List, [], ◌∷◌, ◌++◌, ◌==◌, ◌=ℕ◌, ltb,
  if◌then◌else◌, Dict, put, member, keys, map, keep,
}
use phylax_subnet.Prelude.Text.{Text, codes}
use phylax_subnet.Number.{Float, nought}
use phylax_subnet.Value.{Value, null, float, str, Fields, or_else, to_string, Conversions}
use phylax_subnet.Round.{Attempt, done, abstains, fails, ◌>>=◌}
use phylax_subnet.Round.Agents.{Agent, at_or}

-- What is kept of an agent that has been scored.
pub record Detail (F : Type 0) : Type 0 where
  pub agent_hash : Text
  pub score : F

-- A future that has completed: its agent, whether the window was closing, and how
-- `_score_agent` ended, with the score, the tasks attempted and those with a verdict.
pub record Completion (F : Type 0) : Type 0 where
  pub hotkey : String
  pub agent_hash : Text
  pub out_of_window : Bool
  pub outcome : Attempt (F × (ℕ × ℕ))

-- The state of the loop over the completed futures.
pub record Progress (F : Type 0) : Type 0 where
  pub track_scores : List (String × F)
  pub details : Dict (Detail F)
  pub attempted : ℕ
  pub scored : ℕ

-- The calls that a track makes, and what it needs.
pub record Environment (F A : Type 0) : Type 0 where
  pub has_server : Bool
  pub inference_required : Bool
  pub ready_before : Bool
  pub ready_after : Bool
  -- `_corpus_for`
  pub corpus : Attempt (List A)
  -- `_fetch_agents`
  pub agents : Attempt (Dict (Agent F))
  -- get_round_results, `none` where it raises or is not asked
  pub prior_results : Option (List (Fields F))
  -- as_completed
  pub completed : Dict (Agent F) → List (Completion F)
  pub float_of : Value F → Attempt F
  pub round6 : F → F

abbrev pub is_member : {A : Type 0} → String → Dict A → Bool
is_member k d = member k (keys d)

module _ {F A : Type 0} ⦃num : Float F⦄ (conv : Conversions F) (env : Environment F A) where
  -- The loop of `_prior_round_results`, over the rows left.
  unfoldable pub resume_rows :
      Dict (Agent F) → List (Fields F) → Dict (Detail F) → Attempt (Dict (Detail F))
  resume_rows agents [] out = done out
  resume_rows agents (row ∷ rows) out =
      let hotkey = to_string conv (or_else (at_or conv row "miner_hotkey" (str "")) (str "")) in
      let skipped = resume_rows agents rows out in
      if not (hotkey == "") && is_member hotkey agents
      then (do
        score ← env.float_of (or_else (at_or conv row "score" null) (float nought))
        resume_rows agents rows (
            put out hotkey (record {
              agent_hash =
                  codes (to_string conv (or_else (at_or conv row "agent_hash" (str "")) (str "")));
              score = score;
            })))
      else skipped

  -- `_prior_round_results`
  unfoldable pub prior_round_results : Dict (Agent F) → Attempt (Dict (Detail F))
  prior_round_results agents = elim env.prior_results [
    | none ↦ done []
    | some rows ↦ resume_rows agents rows []
  ]

  -- The loop over the completed futures.
  unfoldable pub take_completed : List (Completion F) → Progress F → Progress F × Attempt (Unit {0})
  take_completed [] p = (p, done tt)
  take_completed (c ∷ cs) p =
      let skipped = take_completed cs p in
      if not env.has_server && c.out_of_window then (p, abstains) else elim c.outcome [
        | abstains ↦ (p, abstains)
        | fails ↦ skipped
        | done (score, (attempted, scored)) ↦ take_completed cs (record {
          track_scores = p.track_scores ++ ((c.hotkey, score) ∷ []);
          details =
              put p.details c.hotkey
                (record { agent_hash = c.agent_hash; score = env.round6 score });
          attempted = p.attempted + attempted;
          scored = p.scored + scored;
        })
      ]

  -- [(hk, run) for hk, run in agents.items() if hk not in resumed]
  abbrev pub pending_of : Dict (Agent F) → Dict (Detail F) → Dict (Agent F)
  pending_of agents resumed = keep (λ (e : String × Agent F). not (is_member e.0 resumed)) agents

  abbrev pub resumed_scores : Dict (Detail F) → List (String × F)
  resumed_scores resumed = map (λ (e : String × Detail F). (e.0, e.1.score)) resumed

  -- The end of `_run_track`, once the agents and the results to resume from are known.
  unfoldable pub score_track :
      Dict (Agent F) → Dict (Detail F) → Dict (Detail F) × Attempt (List (String × F))
  score_track agents resumed =
      let start : Progress F = record {
        track_scores = resumed_scores resumed;
        details = resumed;
        attempted = 0;
        scored = 0;
      } in
      let (p, ran) = take_completed (env.completed (pending_of agents resumed)) start in
      if env.inference_required && not env.ready_before then (resumed, abstains) else (
        p.details,
        ran >>= λ _.
            (if ltb 0 p.attempted && p.scored =ℕ 0 && not env.ready_after
              then abstains
              else done p.track_scores),
      )

  -- The agents, and the results to resume from.
  abbrev pub resumed_agents : Attempt (Dict (Agent F) × Dict (Detail F))
  resumed_agents = do
    agents ← env.agents
    resumed ← prior_round_results agents
    done (agents, resumed)

  -- `_run_track`: what is kept of its agents, and its rows, none where it has no task set.
  unfoldable pub run_track : Dict (Detail F) × Attempt (Option (List (String × F)))
  run_track = elim env.corpus [
    | abstains ↦ ([], abstains)
    | fails ↦ ([], fails)
    | done [] ↦ ([], done none)
    | done (item ∷ items) ↦ elim resumed_agents [
      | abstains ↦ ([], abstains)
      | fails ↦ ([], fails)
      | done (agents, resumed) ↦
          let (details, ran) = score_track agents resumed in
          (details, ran >>= λ rows. done (some rows))
    ]
  ]
