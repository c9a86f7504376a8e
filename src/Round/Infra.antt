-- ===== src/Round/Infra.antt =====
-- What a failure of the infrastructure in the scoring of one agent does to its track: the loop of
-- `_run_track` of neurons/validator.py over the completed futures.
use phylax_subnet.Prelude.{
  ◌≡◌, refl, Bool, true, false, not, ◌&&◌, inl, inr, String, some, List, [], ◌∷◌, Dict, All,
  Bool-cases,
}
use phylax_subnet.Number.{Float}
use phylax_subnet.Value.{Conversions}
use phylax_subnet.Round.{Attempt, done, abstains, fails, >>=-eq-done, Attempt-cases}
use phylax_subnet.Round.Agents.{Agent}
use phylax_subnet.Round.Track.{
  Detail, Completion, Progress, Environment, take_completed, pending_of, resumed_scores,
  score_track, resumed_agents, run_track,
}

abbrev pub is_abstaining : {A : Type 0} → Attempt A → Bool
is_abstaining abstains = true
is_abstaining fails = false
is_abstaining (done a) = false

-- None of the scorings abstains.
abbrev pub IsUnabstaining : {F : Type 0} → List (Completion F) → Type 0
IsUnabstaining {F = F} cs = All (λ (c : Completion F). is_abstaining c.outcome ≡ false) cs

not_done : {A P : Type 0} {a : A} → ◌≡◌ {A = Attempt A} abstains (done a) → P
not_done h = cc

not_failed : {A P : Type 0} {a : A} → ◌≡◌ {A = Attempt A} fails (done a) → P
not_failed h = cc

module _ {F A : Type 0} ⦃num : Float F⦄ (conv : Conversions F) (env : Environment F A) where
  take_completed-IsUnabstaining :
      (cs : List (Completion F)) (p : Progress F) {u : Unit {0}}
      → (take_completed conv env cs p).1 ≡ done u
      → IsUnabstaining cs
  unfolding take_completed
  take_completed-IsUnabstaining [] p h = tt
  take_completed-IsUnabstaining (c ∷ cs) p h =
      elim (Bool-cases (not env.has_server && c.out_of_window)) [
        | inl t ↦ not_done (rw (take_completed, t) at h)
        | inr t ↦ elim (Attempt-cases c.outcome) [
          | inl e ↦ not_done (rw (take_completed, t, e) at h)
          | inr (inl e) ↦
              (rw e refl, take_completed-IsUnabstaining cs p (rw (take_completed, t, e) at h))
          | inr (inr ((score, counts), e)) ↦
              (rw e refl, take_completed-IsUnabstaining cs _ (rw (take_completed, t, e) at h))
        ]
      ]

  score_track-IsUnabstaining :
      (agents : Dict (Agent F)) (resumed : Dict (Detail F)) (rows : List (String × F))
      → (score_track conv env agents resumed).1 ≡ done rows
      → IsUnabstaining (env.completed (pending_of conv env agents resumed))
  unfolding score_track
  score_track-IsUnabstaining agents resumed rows h =
      let start : Progress F = record {
        track_scores = resumed_scores conv env resumed;
        details = resumed;
        attempted = 0;
        scored = 0;
      } in
      let cs = env.completed (pending_of conv env agents resumed) in
      elim (Bool-cases (env.inference_required && not env.ready_before)) [
        | inl e ↦ not_done (rw (score_track, e) at h)
        | inr e ↦
            let (u, e1, h1) =
              >>=-eq-done (take_completed conv env cs start).1 _ (rw (score_track, e) at h) in
            take_completed-IsUnabstaining cs start e1
      ]

  -- A track has rows only where no agent's scoring was given up: one agent whose run ends in a
  -- failure of the infrastructure leaves no agent of the track a row.
  pub run_track-IsUnabstaining :
      (rows : List (String × F))
      → (run_track conv env).1 ≡ done (some rows)
      → (agents : Dict (Agent F)) × (resumed : Dict (Detail F)) × (resumed_agents conv env
          ≡ done (agents, resumed))
        × IsUnabstaining (env.completed (pending_of conv env agents resumed))
  unfolding run_track
  run_track-IsUnabstaining rows h = elim (Attempt-cases env.corpus) [
    | inl e ↦ not_done (rw (run_track, e) at h)
    | inr (inl e) ↦ not_failed (rw (run_track, e) at h)
    | inr (inr ([], e)) ↦ let k = rw (run_track, e) at h in cc
    | inr (inr (item ∷ items, e)) ↦ elim (Attempt-cases (resumed_agents conv env)) [
      | inl f ↦ not_done (rw (run_track, e, f) at h)
      | inr (inl f) ↦ not_failed (rw (run_track, e, f) at h)
      | inr (inr ((agents, resumed), f)) ↦
          let (scores, e1, h1) =
            >>=-eq-done (score_track conv env agents resumed).1 _ (rw (run_track, e, f) at h) in
          (agents, resumed, f, score_track-IsUnabstaining agents resumed scores e1)
    ]
  ]
