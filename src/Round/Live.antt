-- ===== src/Round/Live.antt =====
-- What a poll does with an open round: `_begin_round` of neurons/validator.py.
use phylax_subnet.Prelude.{
  ◌≡◌, refl, subst, Bool, true, false, ◌||◌, ◌⊎◌, inl, inr, String, Option, none, some, List, [],
  ◌∷◌, member, All, Dict, Bool-cases, arith, if◌then◌else◌,
}
use phylax_subnet.Prelude.Names.{member-append}
use phylax_subnet.Number.{Float}
use phylax_subnet.Value.{Fields}
use phylax_subnet.Rounds.{tracks}
use phylax_subnet.Round.{Attempt, done, abstains, fails, Pass, run_round}
use phylax_subnet.Round.Poll.{
  Offer, Answer, open_round, Registration, accepted, deferred, registration_fails, Polls, Duties,
  after, poll_tracks, finished, call, cast_vote, noted, register_with_server, registered_first,
  passed, execute_round, concluded, run_offers, after_polls, begin_round,
}
use phylax_subnet.Round.Fresh.{run_offers-IsMarked}
use phylax_subnet.Round.Offered.{is_serving, is_offered, poll_tracks-offered, finished-offered}

after-done :
    {S A B : Type 0} (x : S × Attempt A) (f : A → S → S × Attempt B) (a : A)
    → x.1 ≡ done a
    → after x f ≡ f a x.0
after-done (s, done b) f a h = let same : b ≡ a = cc in subst (λ c. f b s ≡ f c s) same refl
after-done (s, abstains) f a h = cc
after-done (s, fails) f a h = cc

module _ {F R S : Type 0} (duties : Duties F R S) where
  -- A pass over offers leaves a track's round done.
  abbrev pub IsPassed : String → List (Offer F) → S → Type 0
  IsPassed track offers rounds =
      (pass : Pass R) × ((run_round (duties.run_track offers) rounds).1 ≡ done pass)
      × (member track pass.failed ≡ false)

  module _
      (registers : (s : S)
        → ((duties.register s).1 ≡ accepted) ⊎ ((duties.register s).1 ≡ deferred))
      (votes : (running : Bool) (scores : Option (Dict R)) (s : S)
        → (duties.cast_weights running scores s).1 ≡ done tt)
      (submits : (offers : List (Offer F)) (s : S)
        → (duties.submit_results offers s).1 ≡ done tt) where
    noted_done :
        (s : Polls F S) (x : S × Registration)
        → (x.1 ≡ accepted) ⊎ (x.1 ≡ deferred)
        → (noted duties s x).1 ≡ done tt
    noted_done s (rounds, accepted) h = refl
    noted_done s (rounds, deferred) h = refl
    noted_done s (rounds, registration_fails) (inl h) = cc
    noted_done s (rounds, registration_fails) (inr h) = cc

    register_done : (s : Polls F S) → (register_with_server duties true s).1 ≡ done tt
    unfolding register_with_server
    register_done s = noted_done s (duties.register s.rounds) (registers s.rounds)

    either_done :
        (due : Bool) (s : Polls F S)
        → (if due then (s, done tt) else register_with_server duties true s).1 ≡ done tt
    either_done true s = refl
    either_done false s = register_done s

    registered_done : (s : Polls F S) → (registered_first duties true s).1 ≡ done tt
    unfolding registered_first
    registered_done s = either_done s.registered_with_server s

    passed_done :
        (offers : List (Offer F)) (s : Polls F S) (x : S × Attempt (Pass R)) (pass : Pass R)
        → x.1 ≡ done pass
        → (passed duties offers s x).1 ≡ done (some pass)
    passed_done offers s (rounds, done p) pass h =
        let s1 : Polls F S = record s { rounds = rounds; round_running = false } in
        let x1 = call duties (duties.submit_results offers) s1 in
        let x2 = cast_vote duties (some p.scores) x1.0 in
        let same : p ≡ pass = cc in
        let ended : (after x1 (λ _ s'.
          after (cast_vote duties (some p.scores) s') (λ _ s''. (s'', done (some p))))).1
            ≡ done (some p) =
          rw
            (
              after-done x1
                  (λ _ s'.
                    after (cast_vote duties (some p.scores) s') (λ _ s''. (s'', done (some p))))
                  tt (submits offers rounds),
              after-done x2 (λ _ s''. (s'', done (some p))) tt
                  (votes false (some p.scores) x1.0.rounds),
            )
            refl in
        cc
    passed_done offers s (rounds, abstains) pass h = cc
    passed_done offers s (rounds, fails) pass h = cc

    executed_done :
        (track : String) (offers : List (Offer F)) (s : Polls F S)
        → ((rounds : S) → IsPassed track offers rounds)
        → (pass : Pass R) × ((execute_round duties offers s).1 ≡ done (some pass))
          × (member track pass.failed ≡ false)
    unfolding execute_round
    executed_done track offers s runs =
        let x =
          cast_vote duties none
            (record s { rounds = duties.refresh s.rounds; round_running = true }) in
        let (pass, e, f) = runs x.0.rounds in
        (
          pass,
          rw (execute_round, after-done x _ tt (votes true none (duties.refresh s.rounds)))
              (passed_done offers x.0 (run_round (duties.run_track offers) x.0.rounds) pass e),
          f,
        )

    module _ ⦃num : Float F⦄ where
      run_offers-done :
          (later : F) (s : Polls F S) (track round_id : String) (offers : List (Offer F))
          → is_offered track round_id offers ≡ true
          → ((rounds : S) → IsPassed track offers rounds)
          → member round_id (run_offers duties true later offers s).0.done_rounds ≡ true
      unfolding run_offers
      run_offers-done later s track round_id offers w runs =
          let x = register_with_server duties true s in
          let y = execute_round duties offers x.0 in
          let (pass, e, f) = executed_done track offers x.0 runs in
          let fin = finished-offered pass.failed track round_id offers f w in
          rw
            (
              after-done x
                  (λ _ s'. after (execute_round duties offers s') (concluded duties later offers))
                  tt (register_done s),
              after-done y (concluded duties later offers) (some pass) e,
              member-append round_id y.0.done_rounds (finished pass.failed offers),
            )
            (ground arith)

      run_offers-kept :
          (later : F) (s : Polls F S) (round_id : String) (offers : List (Offer F))
          → member round_id s.done_rounds ≡ true
          → member round_id (run_offers duties true later offers s).0.done_rounds ≡ true
      run_offers-kept later s round_id offers k =
          elim (run_offers-IsMarked duties true later offers s) [
            | inl e ↦ rw e k
            | inr (pass, run, e, r) ↦
                rw (e, member-append round_id s.done_rounds (finished pass.failed offers))
                  (ground arith)
          ]

      offered_done :
          (later : F) (s : Polls F S) (track round_id : String) (offers : List (Offer F))
          → (member round_id s.done_rounds || is_offered track round_id offers) ≡ true
          → (is_offered track round_id offers ≡ true → (rounds : S) → IsPassed track offers rounds)
          → member round_id (after_polls duties later s (done (some offers))).0.done_rounds ≡ true
      offered_done later s track round_id [] w runs = ground arith
      offered_done later s track round_id (o ∷ os) w runs =
          elim (Bool-cases (member round_id s.done_rounds)) [
            | inl k ↦ run_offers-kept later s round_id (o ∷ os) k
            | inr k ↦
                let w' : is_offered track round_id (o ∷ os) ≡ true = ground arith in
                run_offers-done later s track round_id (o ∷ os) w' (runs w')
          ]

      -- A round that is open when the validator polls is done after the poll, where no wait is set,
      -- the backend answers for each track with a round or with none, neither the registration, the
      -- votes nor the submission raise, and the pass over what is offered ends with its track not
      -- failed.
      pub begin_round-done :
          (answer : String → Answer F) (now later : F) (s : Polls F S)
          (track round_id seed : String) (participants : List (Fields F))
          → num.lt now s.retry_at ≡ false
          → All (λ t. is_serving (answer t) ≡ true) tracks
          → member track tracks ≡ true
          → answer track ≡ open_round round_id seed participants
          → ((offers : List (Offer F))
              → is_offered track round_id offers ≡ true
              → (rounds : S) → IsPassed track offers rounds)
          → member round_id (begin_round duties true answer now later s).0.done_rounds ≡ true
      unfolding begin_round
      begin_round-done answer now later s track round_id seed participants due serving known asked
            runs =
          let start = (registered_first duties true s).0 in
          let (offers, e, w) =
            poll_tracks-offered answer start.done_rounds tracks track round_id seed participants
              serving known asked in
          let ended = offered_done later start track round_id offers w (runs offers) in
          rw
            (
              begin_round,
              due,
              after-done (registered_first duties true s)
                  (λ _ s'. after_polls duties later s' (poll_tracks answer s'.done_rounds tracks))
                  tt (registered_done s),
              e,
            )
            ended
