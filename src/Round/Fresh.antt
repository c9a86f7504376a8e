-- ===== src/Round/Fresh.antt =====
-- Which rounds are run, and which are done: `_begin_round` of neurons/validator.py.
use phylax_subnet.Prelude.{
  ◌≡◌, refl, subst, Bool, true, false, not, ◌⊎◌, inl, inr, String, Option, none, some, List, [],
  ◌∷◌, ◌++◌, if◌then◌else◌, is_empty, Bool-cases,
}
use phylax_subnet.Number.{Float}
use phylax_subnet.Rounds.{tracks}
use phylax_subnet.Round.{Attempt, done, abstains, fails, Pass, run_round}
use phylax_subnet.Round.Poll.{
  Offer, Answer, Registration, accepted, deferred, registration_fails, Polls, Duties, after,
  poll_tracks, finished, call, cast_vote, noted, register_with_server, passed, execute_round,
  concluded, run_offers, after_polls, registered_first, begin_round,
}
use phylax_subnet.Round.Offered.{AreFresh, poll_tracks-AreFresh}

-- What holds where a call raises and of what follows it, holds of both.
after-ind :
    {S A B : Type 0} (P : S × Attempt B → Type 0) (x : S × Attempt A) (f : A → S → S × Attempt B)
    → P (x.0, abstains)
    → P (x.0, fails)
    → ((a : A) → x.1 ≡ done a → P (f a x.0))
    → P (after x f)
after-ind P (s, done a) f p q r = r a refl
after-ind P (s, abstains) f p q r = p
after-ind P (s, fails) f p q r = q

module _ {F R S : Type 0} (duties : Duties F R S) where
  noted-kept :
      (s : Polls F S) (x : S × Registration) → (noted duties s x).0.done_rounds ≡ s.done_rounds
  noted-kept s (rounds, accepted) = refl
  noted-kept s (rounds, deferred) = refl
  noted-kept s (rounds, registration_fails) = refl

  pub register-kept :
      (has_server : Bool) (s : Polls F S)
      → (register_with_server duties has_server s).0.done_rounds ≡ s.done_rounds
  unfolding register_with_server
  register-kept has_server s = elim (Bool-cases has_server) [
    | inl e ↦ rw (register_with_server, e) (noted-kept s (duties.register s.rounds))
    | inr e ↦ rw (register_with_server, e) refl
  ]

  either-kept :
      (has_server due : Bool) (s : Polls F S)
      → (if due then (s, done tt) else register_with_server duties has_server s).0.done_rounds
        ≡ s.done_rounds
  either-kept has_server true s = refl
  either-kept has_server false s = register-kept has_server s

  pub registered_first-kept :
      (has_server : Bool) (s : Polls F S)
      → (registered_first duties has_server s).0.done_rounds ≡ s.done_rounds
  unfolding registered_first
  registered_first-kept has_server s = either-kept has_server s.registered_with_server s

  -- The pass over the offers, from some state, ended so.
  abbrev pub WasRun : List (Offer F) → Pass R → Type 0
  WasRun offers pass = (rounds : S) × ((run_round (duties.run_track offers) rounds).1 ≡ done pass)

  -- The round makes no other done, and where it ends with a pass that was run.
  record IsRun (offers : List (Offer F)) (d : List String)
      (r : Polls F S × Attempt (Option (Pass R))) : Type 0 where
    kept : r.0.done_rounds ≡ d
    run : (pass : Pass R) → r.1 ≡ done (some pass) → WasRun offers pass

  raised :
      (offers : List (Offer F)) (d : List String) (s : Polls F S)
      → s.done_rounds ≡ d
      → IsRun offers d (s, abstains) × IsRun offers d (s, fails)
  raised offers d s k =
      (record { kept = k; run = λ pass h. cc }, record { kept = k; run = λ pass h. cc })

  passed-IsRun :
      (offers : List (Offer F)) (s : Polls F S) (x : S × Attempt (Pass R))
      → ((pass : Pass R) → x.1 ≡ done pass → WasRun offers pass)
      → IsRun offers s.done_rounds (passed duties offers s x)
  passed-IsRun offers s (rounds, done pass) w =
      let s1 : Polls F S = record s { rounds = rounds; round_running = false } in
      let x1 = call duties (duties.submit_results offers) s1 in
      let x2 = cast_vote duties (some pass.scores) x1.0 in
      let (p, q) = raised offers s.done_rounds x1.0 refl in
      let (p', q') = raised offers s.done_rounds x2.0 refl in
      after-ind (IsRun offers s.done_rounds) x1 _ p q (λ _ e.
        after-ind (IsRun offers s.done_rounds) x2 _ p' q' (λ _ e'. record {
          kept = refl;
          run = λ pass' h. let same : pass ≡ pass' = cc in subst (WasRun offers) same (w pass refl);
        }))
  passed-IsRun offers s (rounds, abstains) w =
      let x = cast_vote duties none (record s { rounds = rounds; round_running = false }) in
      let (p, q) = raised offers s.done_rounds x.0 refl in
      after-ind (IsRun offers s.done_rounds) x _ p q
        (λ _ e. record { kept = refl; run = λ pass h. cc })
  passed-IsRun offers s (rounds, fails) w =
      (raised offers s.done_rounds (record s { rounds = rounds; round_running = false }) refl).1

  execute_round-IsRun :
      (offers : List (Offer F)) (s : Polls F S)
      → IsRun offers s.done_rounds (execute_round duties offers s)
  unfolding execute_round
  execute_round-IsRun offers s =
      let x =
        cast_vote duties none
          (record s { rounds = duties.refresh s.rounds; round_running = true }) in
      let (p, q) = raised offers s.done_rounds x.0 refl in
      after-ind (IsRun offers s.done_rounds) x _ p q (λ _ e.
        passed-IsRun offers x.0 (run_round (duties.run_track offers) x.0.rounds)
          (λ pass h. (x.0.rounds, h)))

module _ {F R S : Type 0} ⦃num : Float F⦄ (duties : Duties F R S) where
  -- The done rounds stay, or a pass over the offers was run and returned, and those of its tracks
  -- that did not fail are done too.
  abbrev pub IsMarked : List (Offer F) → List String → Polls F S × Attempt Bool → Type 0
  IsMarked offers d r =
      (r.0.done_rounds ≡ d)
      ⊎ ((pass : Pass R) × WasRun duties offers pass
          × (r.0.done_rounds ≡ d ++ finished pass.failed offers)
          × (r.1 ≡ done true))

  -- Nothing is run: the state is as it was, or as it is once the validator has registered. Or what is
  -- run is `run_offers`, over offers of which none is done, and none are only without a server.
  abbrev pub IsAdvanced : Bool → F → Polls F S → Polls F S × Attempt Bool → Type 0
  IsAdvanced has_server later s r =
      let start = (registered_first duties has_server s).0 in
      (r.0 ≡ s)
      ⊎ ((r.0 ≡ start) × (r.0.done_rounds ≡ s.done_rounds))
      ⊎ ((offers : List (Offer F)) × AreFresh s.done_rounds offers
          × ((is_empty offers ≡ false) ⊎ (has_server ≡ false))
          × (r ≡ run_offers duties has_server later offers start)
          × IsMarked offers s.done_rounds r)

  concluded-IsMarked :
      (later : F) (offers : List (Offer F)) (d : List String) (s : Polls F S)
      (ended : Option (Pass R))
      → s.done_rounds ≡ d
      → ((pass : Pass R) → ended ≡ some pass → WasRun duties offers pass)
      → IsMarked offers d (concluded duties later offers ended s)
  concluded-IsMarked later offers d s none k w = inl k
  concluded-IsMarked later offers d s (some pass) k w = inr (pass, w pass refl, rw k refl, refl)

  pub run_offers-IsMarked :
      (has_server : Bool) (later : F) (offers : List (Offer F)) (s : Polls F S)
      → IsMarked offers s.done_rounds (run_offers duties has_server later offers s)
  unfolding run_offers
  run_offers-IsMarked has_server later offers s =
      let x = register_with_server duties has_server s in
      let kept = register-kept duties has_server s in
      let y = execute_round duties offers x.0 in
      let was = execute_round-IsRun duties offers x.0 in
      let kept' : y.0.done_rounds ≡ s.done_rounds = rw was.kept kept in
      after-ind (IsMarked offers s.done_rounds) x _ (inl kept) (inl kept) (λ _ e.
        after-ind (IsMarked offers s.done_rounds) y _ (inl kept') (inl kept') (λ ended e'.
          concluded-IsMarked later offers s.done_rounds y.0 ended kept'
            (λ pass h. was.run pass (let g : y.1 ≡ done (some pass) = cc in g))))

  after_polls-IsAdvanced :
      (later : F) (s : Polls F S) (polls : Attempt (Option (List (Offer F))))
      → let start = (registered_first duties true s).0 in
        ((offers : List (Offer F)) → polls ≡ done (some offers) → AreFresh s.done_rounds offers)
        → IsAdvanced true later s (after_polls duties later start polls)
  after_polls-IsAdvanced later s (done (some (o ∷ os))) fresh =
      let start = (registered_first duties true s).0 in
      let kept = registered_first-kept duties true s in
      inr (
        inr (
          o ∷ os,
          fresh (o ∷ os) refl,
          inl refl,
          refl,
          subst (λ d. IsMarked (o ∷ os) d (run_offers duties true later (o ∷ os) start)) kept
              (run_offers-IsMarked true later (o ∷ os) start),
        ))
  after_polls-IsAdvanced later s (done (some [])) fresh =
      inr (inl (refl, registered_first-kept duties true s))
  after_polls-IsAdvanced later s (done none) fresh =
      inr (inl (refl, registered_first-kept duties true s))
  after_polls-IsAdvanced later s abstains fresh =
      inr (inl (refl, registered_first-kept duties true s))
  after_polls-IsAdvanced later s fails fresh = inr (inl (refl, registered_first-kept duties true s))

  -- The part of `begin_round` after the first registration.
  ready-IsAdvanced :
      (has_server : Bool) (answer : String → Answer F) (later : F) (s : Polls F S)
      → let start = (registered_first duties has_server s).0 in
        IsAdvanced has_server later s (
          if not has_server
          then run_offers duties has_server later [] start
          else after_polls duties later start (poll_tracks answer start.done_rounds tracks))
  ready-IsAdvanced false answer later s =
      let start = (registered_first duties false s).0 in
      inr (
        inr (
          [],
          tt,
          inr refl,
          refl,
          subst (λ d. IsMarked [] d (run_offers duties false later [] start))
              (registered_first-kept duties false s) (run_offers-IsMarked false later [] start),
        ))
  ready-IsAdvanced true answer later s =
      let start = (registered_first duties true s).0 in
      after_polls-IsAdvanced later s (poll_tracks answer start.done_rounds tracks) (λ offers g.
        subst (λ d. AreFresh d offers) (registered_first-kept duties true s)
          (poll_tracks-AreFresh answer start.done_rounds tracks offers g))

  -- A poll runs nothing, and leaves the state as it was but for a registration, or it runs the round
  -- of offers of which none is done, and which are none only without a server; it makes no round done
  -- but those of the offers on tracks that did not fail in a pass over them that returned. This is so
  -- however the backend answers and whatever the calls of the round do.
  pub begin_round-IsAdvanced :
      (has_server : Bool) (answer : String → Answer F) (now later : F) (s : Polls F S)
      → IsAdvanced has_server later s (begin_round duties has_server answer now later s)
  unfolding begin_round
  begin_round-IsAdvanced has_server answer now later s =
      let x = registered_first duties has_server s in
      let kept = registered_first-kept duties has_server s in
      elim (Bool-cases (num.lt now s.retry_at)) [
        | inl e ↦ rw (begin_round, e) (inl refl)
        | inr e ↦
            rw (begin_round, e)
              (after-ind (IsAdvanced has_server later s) x _ (inr (inl (refl, kept)))
                (inr (inl (refl, kept))) (λ _ h. ready-IsAdvanced has_server answer later s))
      ]
