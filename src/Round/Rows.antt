-- ===== src/Round/Rows.antt =====
-- The rows of a track: `_run_track` of neurons/validator.py.
use phylax_subnet.Prelude.{
  ◌≡◌, refl, ap, subst, sym, ◌∙◌, true, false, not, ◌&&◌, ◌⊎◌, inl, inr, String, some, List, [],
  ◌∷◌, ◌++◌, ◌==◌, ◌=ℕ◌, ltb, Dict, put, All, All-append, member, keys, map, keep, arith,
  Bool-cases, Option-cases, eq_iff,
}
use phylax_subnet.Prelude.Names.{IsApart, IsDistinct, IsApart-snoc, IsDistinct-snoc, keys-append}
use phylax_subnet.Number.{Float, nought}
use phylax_subnet.Value.{null, float, str, Fields, or_else, to_string, Conversions}
use phylax_subnet.Round.{Attempt, done, abstains, fails, >>=-eq-done, Attempt-cases, by_test}
use phylax_subnet.Round.Agents.{Agent, at_or}
use phylax_subnet.Round.Track.{
  Detail, Completion, Progress, Environment, is_member, resume_rows, prior_round_results,
  take_completed, pending_of, resumed_scores, score_track, resumed_agents, run_track,
}

abbrev pub hotkeys : {F : Type 0} → List (Completion F) → List String
hotkeys [] = []
hotkeys (c ∷ cs) = c.hotkey ∷ hotkeys cs

-- No name twice, and each is among the agents.
abbrev pub IsOnce : {V W : Type 0} → Dict V → Dict W → Type 0
IsOnce agents rows = IsDistinct (keys rows) × All (λ k. member k (keys agents) ≡ true) (keys rows)

keys-put :
    {V : Type 0} (d : Dict V) (k : String) (v : V)
    → (keys (put d k v) ≡ keys d)
      ⊎ ((keys (put d k v) ≡ keys d ++ (k ∷ [])) × (member k (keys d) ≡ false))
unfolding put
keys-put [] k v = inr (refl, refl)
keys-put ((j, w) ∷ d) k v = elim (Bool-cases (j == k)) [
  | inl e ↦ rw (put, e) (inl refl)
  | inr e ↦ elim (keys-put d k v) [
    | inl f ↦ rw (put, e) (inl (ap (λ ks. j ∷ ks) f))
    | inr (f, new) ↦ rw (put, e) (inr (ap (λ ks. j ∷ ks) f, ground arith))
  ]
]

put-IsOnce :
    {V W : Type 0} (agents : Dict V) (d : Dict W) (k : String) (v : W)
    → member k (keys agents) ≡ true
    → IsOnce agents d
    → IsOnce agents (put d k v)
put-IsOnce agents d k v m (distinct, within) = elim (keys-put d k v) [
  | inl e ↦ rw e (distinct, within)
  | inr (e, new) ↦ rw e (IsDistinct-snoc (keys d) k distinct new, All-append _ _ _ within (m, tt))
]

keys-resumed_scores :
    {F : Type 0} (resumed : Dict (Detail F))
    → keys (map (λ (e : String × Detail F). (e.0, e.1.score)) resumed) ≡ keys resumed
keys-resumed_scores [] = refl
keys-resumed_scores ((k, v) ∷ d) = rw (keys-resumed_scores d) refl

-- What is left after the resumed ones is an agent, and not resumed.
member-pending :
    {V W : Type 0} (agents : Dict V) (resumed : Dict W) (k : String)
    → member k (keys (keep (λ (e : String × V). not (member e.0 (keys resumed))) agents)) ≡ true
    → (member k (keys agents) ≡ true) × (member k (keys resumed) ≡ false)
member-pending [] resumed k h = cc
member-pending ((j, a) ∷ agents) resumed k h =
    ground (arith, eq_iff j k, member-pending agents resumed k)

not_done : {A P : Type 0} {a : A} → ◌≡◌ {A = Attempt A} abstains (done a) → P
not_done h = cc

not_failed : {A P : Type 0} {a : A} → ◌≡◌ {A = Attempt A} fails (done a) → P
not_failed h = cc

module _ {F A : Type 0} ⦃num : Float F⦄ (conv : Conversions F) (env : Environment F A) where
  resume_rows-IsOnce :
      (agents : Dict (Agent F)) (rows : List (Fields F)) (out resumed : Dict (Detail F))
      → IsOnce agents out
      → resume_rows conv env agents rows out ≡ done resumed
      → IsOnce agents resumed
  unfolding resume_rows
  resume_rows-IsOnce agents [] out resumed o h =
      let same : out ≡ resumed = cc in subst (IsOnce agents) same o
  resume_rows-IsOnce agents (row ∷ rows) out resumed o h =
      let hotkey = to_string conv (or_else (at_or conv row "miner_hotkey" (str "")) (str "")) in
      by_test (not (hotkey == "") && is_member hotkey agents)
        (λ m k.
          let (score, e1, h1) =
            >>=-eq-done (env.float_of (or_else (at_or conv row "score" null) (float nought))) _ k in
          resume_rows-IsOnce agents rows _ resumed (put-IsOnce agents out hotkey _ (ground arith) o)
            h1)
        (λ _ k. resume_rows-IsOnce agents rows out resumed o k) h

  take_completed-IsOnce :
      (agents : Dict (Agent F)) (cs : List (Completion F)) (p : Progress F)
      → IsDistinct (hotkeys cs)
      → All (λ k. member k (keys agents) ≡ true) (hotkeys cs)
      → IsApart (hotkeys cs) (keys p.track_scores)
      → IsOnce agents p.track_scores
      → IsOnce agents (take_completed conv env cs p).0.track_scores
  unfolding take_completed
  take_completed-IsOnce agents [] p d w a o = o
  take_completed-IsOnce agents (c ∷ cs) p d w a o =
      elim (Bool-cases (not env.has_server && c.out_of_window)) [
        | inl t ↦ rw (take_completed, t) o
        | inr t ↦ elim (Attempt-cases c.outcome) [
          | inl e ↦ rw (take_completed, t, e) o
          | inr (inl e) ↦
              rw (take_completed, t, e) (take_completed-IsOnce agents cs p d.1 w.1 a.1 o)
          | inr (inr ((score, counts), e)) ↦
              let more = keys-append p.track_scores ((c.hotkey, score) ∷ []) in
              rw (take_completed, t, e)
                (take_completed-IsOnce agents cs _ d.1 w.1
                  (rw more (IsApart-snoc (hotkeys cs) (keys p.track_scores) c.hotkey a.1 d.0))
                  (rw more (
                    IsDistinct-snoc (keys p.track_scores) c.hotkey o.0 a.0,
                    All-append _ _ _ o.1 (w.0, tt),
                  )))
        ]
      ]

  prior_round_results-IsOnce :
      (agents : Dict (Agent F)) (resumed : Dict (Detail F))
      → prior_round_results conv env agents ≡ done resumed
      → IsOnce agents resumed
  unfolding prior_round_results
  prior_round_results-IsOnce agents resumed h = elim (Option-cases env.prior_results) [
    | inl e ↦
        let same : [] ≡ resumed = (let k = rw (prior_round_results, e) at h in cc) in
        subst (IsOnce agents) same (tt, tt)
    | inr (rows, e) ↦
        resume_rows-IsOnce agents rows [] resumed (tt, tt) (rw (prior_round_results, e) at h)
  ]

  -- The completed futures are those of pending agents, each once.
  abbrev pub IsSchedule : Dict (Agent F) → Type 0
  IsSchedule pending =
      IsDistinct (hotkeys (env.completed pending))
      × All (λ k. member k (keys pending) ≡ true) (hotkeys (env.completed pending))

  pending_names :
      (agents : Dict (Agent F)) (resumed : Dict (Detail F)) (names : List String)
      → All (λ k. member k (keys (pending_of conv env agents resumed)) ≡ true) names
      → All (λ k. member k (keys agents) ≡ true) names × IsApart names (keys resumed)
  pending_names agents resumed [] h = (tt, tt)
  pending_names agents resumed (k ∷ names) (m, h) =
      let (known, fresh) = member-pending agents resumed k m in
      let (all_known, all_fresh) = pending_names agents resumed names h in
      ((known, all_known), (fresh, all_fresh))

  score_track-IsOnce :
      (agents : Dict (Agent F)) (resumed : Dict (Detail F)) (rows : List (String × F))
      → IsOnce agents resumed
      → IsSchedule (pending_of conv env agents resumed)
      → (score_track conv env agents resumed).1 ≡ done rows
      → IsOnce agents rows
  unfolding score_track
  score_track-IsOnce agents resumed rows (once, known) (distinct, pending) h =
      let start : Progress F = record {
        track_scores = resumed_scores conv env resumed;
        details = resumed;
        attempted = 0;
        scored = 0;
      } in
      let cs = env.completed (pending_of conv env agents resumed) in
      let (all_known, fresh) = pending_names agents resumed (hotkeys cs) pending in
      let names = keys-resumed_scores resumed in
      let scored =
        take_completed-IsOnce agents cs start distinct all_known (rw names fresh)
          (rw names (once, known)) in
      elim (Bool-cases (env.inference_required && not env.ready_before)) [
        | inl e ↦ let k = rw (score_track, e) at h in cc
        | inr e ↦
            let (u, e1, h1) =
              >>=-eq-done (take_completed conv env cs start).1 _ (rw (score_track, e) at h) in
            let p = (take_completed conv env cs start).0 in
            by_test (ltb 0 p.attempted && p.scored =ℕ 0 && not env.ready_after) (λ _ k. not_done k)
              (λ _ k. let same : p.track_scores ≡ rows = cc in subst (IsOnce agents) same scored) h1
      ]

  resumed_agents-IsOnce :
      (agents : Dict (Agent F)) (pair : Dict (Agent F) × Dict (Detail F))
      → env.agents ≡ done agents
      → resumed_agents conv env ≡ done pair
      → IsOnce pair.0 pair.1 × (pair.0 ≡ agents)
  resumed_agents-IsOnce agents pair fetched f =
      let (found, e1, h1) = >>=-eq-done env.agents _ f in
      let (resumed, e2, h2) = >>=-eq-done (prior_round_results conv env found) _ h1 in
      let same : (found, resumed) ≡ pair = cc in
      let known : found ≡ agents = cc in
      (
        subst (λ (q : Dict (Agent F) × Dict (Detail F)). IsOnce q.0 q.1) same
            (prior_round_results-IsOnce found resumed e2),
        sym (ap (λ q. q.0) same) ∙ known,
      )

  -- Each row of a track is of an agent that was fetched for it, and no agent has two, also where
  -- results of an earlier pass are resumed.
  pub run_track-IsOnce :
      (agents : Dict (Agent F)) (rows : List (String × F))
      → env.agents ≡ done agents
      → ((resumed : Dict (Detail F)) → IsSchedule (pending_of conv env agents resumed))
      → (run_track conv env).1 ≡ done (some rows)
      → IsOnce agents rows
  unfolding run_track
  run_track-IsOnce agents rows fetched schedule h = elim (Attempt-cases env.corpus) [
    | inl e ↦ not_done (rw (run_track, e) at h)
    | inr (inl e) ↦ not_failed (rw (run_track, e) at h)
    | inr (inr ([], e)) ↦ let k = rw (run_track, e) at h in cc
    | inr (inr (item ∷ items, e)) ↦ elim (Attempt-cases (resumed_agents conv env)) [
      | inl f ↦ not_done (rw (run_track, e, f) at h)
      | inr (inl f) ↦ not_failed (rw (run_track, e, f) at h)
      | inr (inr (pair, f)) ↦
          let (scores, e1, h1) =
            >>=-eq-done (score_track conv env pair.0 pair.1).1 _ (rw (run_track, e, f) at h) in
          let same : scores ≡ rows = cc in
          let (once, known) = resumed_agents-IsOnce agents pair fetched f in
          subst (IsOnce agents) same (
            subst (λ a. IsOnce a scores) known
              (score_track-IsOnce pair.0 pair.1 scores once
                (subst (λ a. IsSchedule (pending_of conv env a pair.1)) (sym known)
                  (schedule pair.1))
                e1))
    ]
  ]
