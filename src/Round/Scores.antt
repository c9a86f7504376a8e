-- ===== src/Round/Scores.antt =====
-- What a pass over the tracks yields: `run_round` of neurons/validator.py.
use phylax_subnet.Prelude.{
  ◌≡◌, refl, ap, subst, true, false, inl, inr, String, Option, none, some, List, [], ◌∷◌, ◌++◌,
  is_empty, All, All-append, member, keys, Bool-cases,
}
use phylax_subnet.Prelude.Names.{
  IsApart, IsDistinct, IsApart-cons, IsApart-snoc, IsDistinct-snoc, keys-append,
}
use phylax_subnet.Round.{
  Attempt, done, abstains, fails, Attempt-cases, Pass, run_tracks, need_scores, run_round,
  track_eval_order,
}

module _ {R S : Type 0} (run_track : String → S → S × Attempt (Option R)) where
  failed_pass :
      {P : Type 0} {s s' : S} {pass : Pass R}
      → ◌≡◌ {A = S × Attempt (Pass R)} (s, fails) (s', done pass)
      → P
  failed_pass h = let e : ◌≡◌ {A = Attempt (Pass R)} fails (done _) = ap (λ q. q.1) h in cc

  need_scores_cases :
      (x : S × Attempt (Pass R)) (s' : S) (pass : Pass R)
      → need_scores run_track x ≡ (s', done pass)
      → (x ≡ (x.0, done pass)) × (is_empty pass.scores ≡ false)
  need_scores_cases (s, abstains) s' pass h =
      let e : ◌≡◌ {A = Attempt (Pass R)} abstains (done pass) = ap (λ q. q.1) h in cc
  need_scores_cases (s, fails) s' pass h = failed_pass h
  need_scores_cases (s, done p) s' pass h =
      let e = ap (λ q. q.1) h in
      elim (Bool-cases (is_empty p.scores)) [
        | inl f ↦ let g : ◌≡◌ {A = Attempt (Pass R)} abstains (done pass) = rw f at e in cc
        | inr f ↦
            let g : p ≡ pass = (let k = rw f at e in cc) in
            (ap (λ q. (s, done q)) g, subst (λ q. is_empty q.scores ≡ false) g f)
      ]

  -- Each track with scores and each that failed is among these tracks, no track is both, and none
  -- has scores twice.
  pub record IsSorted (order : List String) (pass : Pass R) : Type 0 where
    pub scored : All (λ t. member t order ≡ true) (keys pass.scores)
    pub failed : All (λ t. member t order ≡ true) pass.failed
    pub apart : IsApart (keys pass.scores) pass.failed
    pub distinct : IsDistinct (keys pass.scores)

  -- The tracks left are of the order, distinct, and not yet done.
  record IsLeft (order tracks : List String) (pass : Pass R) : Type 0 where
    within : All (λ t. member t order ≡ true) tracks
    distinct : IsDistinct tracks
    unfailed : IsApart tracks pass.failed
    unscored : IsApart tracks (keys pass.scores)

  failed-IsSorted :
      (order : List String) (track : String) (tracks : List String) (pass : Pass R)
      → IsLeft order (track ∷ tracks) pass
      → IsSorted order pass
      → IsSorted order (record pass { failed = track ∷ pass.failed })
  failed-IsSorted order track tracks pass l s = record {
    scored = s.scored;
    failed = (l.within.0, s.failed);
    apart = IsApart-cons (keys pass.scores) pass.failed track s.apart l.unscored.0;
    distinct = s.distinct;
  }

  failed-IsLeft :
      (order : List String) (track : String) (tracks : List String) (pass : Pass R)
      → IsLeft order (track ∷ tracks) pass
      → IsLeft order tracks (record pass { failed = track ∷ pass.failed })
  failed-IsLeft order track tracks pass l = record {
    within = l.within.1;
    distinct = l.distinct.1;
    unfailed = IsApart-cons tracks pass.failed track l.unfailed.1 l.distinct.0;
    unscored = l.unscored.1;
  }

  scored-IsSorted :
      (order : List String) (track : String) (tracks : List String) (pass : Pass R) (rows : R)
      → IsLeft order (track ∷ tracks) pass
      → IsSorted order pass
      → IsSorted order (record pass { scores = pass.scores ++ ((track, rows) ∷ []) })
  scored-IsSorted order track tracks pass rows l s =
      let more = keys-append pass.scores ((track, rows) ∷ []) in
      record {
        scored = rw more (All-append _ _ _ s.scored (l.within.0, tt));
        failed = s.failed;
        apart = rw more (All-append _ _ _ s.apart (l.unfailed.0, tt));
        distinct = rw more (IsDistinct-snoc _ track s.distinct l.unscored.0);
      }

  scored-IsLeft :
      (order : List String) (track : String) (tracks : List String) (pass : Pass R) (rows : R)
      → IsLeft order (track ∷ tracks) pass
      → IsLeft order tracks (record pass { scores = pass.scores ++ ((track, rows) ∷ []) })
  scored-IsLeft order track tracks pass rows l = record {
    within = l.within.1;
    distinct = l.distinct.1;
    unfailed = l.unfailed.1;
    unscored =
        rw (keys-append pass.scores ((track, rows) ∷ []))
          (IsApart-snoc tracks (keys pass.scores) track l.unscored.1 l.distinct.0);
  }

  run_tracks-IsSorted :
      (order tracks : List String) (s s' : S) (pass pass' : Pass R)
      → IsLeft order tracks pass
      → IsSorted order pass
      → run_tracks run_track tracks s pass ≡ (s', done pass')
      → IsSorted order pass'
  unfolding run_tracks
  run_tracks-IsSorted order [] s s' pass pass' l p h =
      let same : pass ≡ pass' = cc in subst (IsSorted order) same p
  run_tracks-IsSorted order (track ∷ tracks) s s' pass pass' l p h =
      elim (Attempt-cases (run_track track s).1) [
        | inl e ↦
            run_tracks-IsSorted order tracks _ s' _ pass' (failed-IsLeft order track tracks pass l)
              (failed-IsSorted order track tracks pass l p) (rw (run_tracks, e) at h)
        | inr (inl e) ↦ failed_pass (rw (run_tracks, e) at h)
        | inr (inr (none, e)) ↦
            run_tracks-IsSorted order tracks _ s' pass pass'
              (record {
                within = l.within.1;
                distinct = l.distinct.1;
                unfailed = l.unfailed.1;
                unscored = l.unscored.1;
              })
              p (rw (run_tracks, e) at h)
        | inr (inr (some rows, e)) ↦
            run_tracks-IsSorted order tracks _ s' _ pass'
              (scored-IsLeft order track tracks pass rows l)
              (scored-IsSorted order track tracks pass rows l p) (rw (run_tracks, e) at h)
      ]

  -- A pass that is not abstained from has scores; each track with scores and each that failed is
  -- one of the four, no track is both, and none has scores twice.
  pub run_round-IsSorted :
      (s s' : S) (pass : Pass R)
      → run_round run_track s ≡ (s', done pass)
      → IsSorted track_eval_order pass × (is_empty pass.scores ≡ false)
  unfolding run_round
  run_round-IsSorted s s' pass h =
      let start : Pass R = record { scores = []; failed = [] } in
      let (e, filled) =
        need_scores_cases (run_tracks run_track track_eval_order s start) s' pass h in
      (
        run_tracks-IsSorted track_eval_order track_eval_order s _ start pass
            (record {
              within = (refl, (refl, (refl, (refl, tt))));
              distinct = (refl, (refl, (refl, (refl, tt))));
              unfailed = (refl, (refl, (refl, (refl, tt))));
              unscored = (refl, (refl, (refl, (refl, tt))));
            })
            (record { scored = tt; failed = tt; apart = tt; distinct = tt }) e,
        filled,
      )
