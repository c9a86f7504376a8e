-- ===== src/Round/Poll.antt =====
-- The polls for rounds: `_begin_round`, `_register_with_server` and `_execute_round` of
-- neurons/validator.py. What the backend answers for a track and the clock are parameters; the rest of
-- what the validator keeps is `S`, on which the pass over the tracks, the votes and the submission of
-- the results act.
use phylax_subnet.Prelude.{
  ℕ, Bool, true, false, not, String, Option, none, some, List, [], ◌∷◌, ◌++◌, if◌then◌else◌,
  is_empty, member, Dict,
}
use phylax_subnet.Number.{Float}
use phylax_subnet.Value.{Fields}
use phylax_subnet.Rounds.{tracks}
use phylax_subnet.Round.{Attempt, done, abstains, fails, Pass, run_round}

-- An open round of a track. A seed that is "" is none.
pub record Offer (F : Type 0) : Type 0 where
  pub track : String
  pub round_id : String
  pub seed : String
  pub participants : List (Fields F)

-- What `next_round` does for a track, `poll_fails` being any other exception, such as one for another
-- key of the server; the id of an open round is that of its block where it has none.
pub data Answer (F : Type 0) : Type 0 where
  unreachable : Answer F
  rejected : ℕ → Answer F
  poll_fails : Answer F
  no_round : Answer F
  submission : Answer F
  open_round : String → String → List (Fields F) → Answer F

-- What `register_validator` does: it returns, raises `ServerUnreachable` or `ServerRejected`, or raises
-- another exception.
pub data Registration : Type 0 where
  accepted : Registration
  deferred : Registration
  registration_fails : Registration

-- What the validator keeps from poll to poll.
pub record Polls (F S : Type 0) : Type 0 where
  pub done_rounds : List String
  pub retry_at : F
  pub registered_with_server : Bool
  pub round_running : Bool
  pub rounds : S

-- What a round calls: `_refresh_metagraph`, which never raises, `register_validator`, `_run_track`,
-- `set_weights` with `_round_running`, and `_submit_results`.
pub record Duties (F R S : Type 0) : Type 0 where
  pub refresh : S → S
  pub register : S → S × Registration
  pub run_track : List (Offer F) → String → S → S × Attempt (Option R)
  pub cast_weights : Bool → Option (Dict R) → S → S × Attempt Unit
  pub submit_results : List (Offer F) → S → S × Attempt Unit

-- What follows a call, unless that raises.
abbrev pub after : {S A B : Type 0} → S × Attempt A → (A → S → S × Attempt B) → S × Attempt B
after (s, done a) f = f a s
after (s, abstains) f = (s, abstains)
after (s, fails) f = (s, fails)

-- The polls of the other tracks, if this one has an open round.
abbrev pub with_offer :
    {F : Type 0} → Offer F → Attempt (Option (List (Offer F))) → Attempt (Option (List (Offer F)))
with_offer offer (done none) = done none
with_offer offer (done (some offers)) = done (some (offer ∷ offers))
with_offer offer abstains = abstains
with_offer offer fails = fails

module _ {F : Type 0} where
  -- A track that is polled, before the polls of the others end with `rest`.
  unfoldable pub polled :
      String
      → List String
      → Answer F
      → Attempt (Option (List (Offer F)))
      → Attempt (Option (List (Offer F)))
  polled track done_rounds unreachable rest = done none
  polled track done_rounds (rejected status) rest = done none
  polled track done_rounds poll_fails rest = fails
  polled track done_rounds no_round rest = rest
  polled track done_rounds submission rest = done none
  polled track done_rounds (open_round round_id seed participants) rest =
      let offer : Offer F = record {
        track = track;
        round_id = round_id;
        seed = seed;
        participants = participants;
      } in
      if member round_id done_rounds then rest else with_offer offer rest

  -- The loop over the tracks: the rounds to be run, `none` where the poll ends there.
  unfoldable pub poll_tracks :
      (String → Answer F) → List String → List String → Attempt (Option (List (Offer F)))
  poll_tracks answer done_rounds [] = done (some [])
  poll_tracks answer done_rounds (track ∷ tracks) =
      polled track done_rounds (answer track) (poll_tracks answer done_rounds tracks)

  -- [rid for trk, rid in round_ids.items() if trk not in self._failed_tracks]
  unfoldable pub finished : List String → List (Offer F) → List String
  finished failed [] = []
  finished failed (o ∷ os) =
      let rest = finished failed os in if member o.track failed then rest else o.round_id ∷ rest

module _ {F R S : Type 0} (duties : Duties F R S) where
  -- A call that acts on the rest of the state.
  abbrev pub call : {A : Type 0} → (S → S × Attempt A) → Polls F S → Polls F S × Attempt A
  call f s = let (rounds, ended) = f s.rounds in (record s { rounds = rounds }, ended)

  abbrev pub cast_vote : Option (Dict R) → Polls F S → Polls F S × Attempt Unit
  cast_vote scores s = call (duties.cast_weights s.round_running scores) s

  abbrev pub noted : Polls F S → S × Registration → Polls F S × Attempt Unit
  noted s (rounds, accepted) =
      (record s { rounds = rounds; registered_with_server = true }, done tt)
  noted s (rounds, deferred) = (record s { rounds = rounds }, done tt)
  noted s (rounds, registration_fails) = (record s { rounds = rounds }, fails)

  -- `_register_with_server`
  unfoldable pub register_with_server : Bool → Polls F S → Polls F S × Attempt Unit
  register_with_server has_server s =
      if not has_server then (s, done tt) else noted s (duties.register s.rounds)

  -- if not self._registered_with_server: self._register_with_server()
  unfoldable pub registered_first : Bool → Polls F S → Polls F S × Attempt Unit
  registered_first has_server s =
      if s.registered_with_server then (s, done tt) else register_with_server has_server s

  -- The try of `_execute_round` has ended: the pass, or none where it abstains.
  abbrev pub passed :
      List (Offer F) → Polls F S → S × Attempt (Pass R) → Polls F S × Attempt (Option (Pass R))
  passed offers s (rounds, done pass) =
      after
        (call (duties.submit_results offers) (record s { rounds = rounds; round_running = false }))
        (λ _ s'. after (cast_vote (some pass.scores) s') (λ _ s''. (s'', done (some pass))))
  passed offers s (rounds, abstains) =
      after (cast_vote none (record s { rounds = rounds; round_running = false }))
        (λ _ s'. (s', done none))
  passed offers s (rounds, fails) = (record s { rounds = rounds; round_running = false }, fails)

  -- `_execute_round`: the pass stands for true, with `_failed_tracks`.
  unfoldable pub execute_round : List (Offer F) → Polls F S → Polls F S × Attempt (Option (Pass R))
  execute_round offers s =
      after (cast_vote none (record s { rounds = duties.refresh s.rounds; round_running = true }))
        (λ _ s'. passed offers s' (run_round (duties.run_track offers) s'.rounds))

module _ {F R S : Type 0} ⦃num : Float F⦄ (duties : Duties F R S) where
  open num use {add, lt, lit}

  -- The end of `_begin_round`, `later` being the time after the round.
  abbrev pub concluded : F → List (Offer F) → Option (Pass R) → Polls F S → Polls F S × Attempt Bool
  concluded later offers none s = (record s { retry_at = add later (lit 300 1) }, done false)
  concluded later offers (some pass) s = (
    record s {
      done_rounds = s.done_rounds ++ finished pass.failed offers;
      retry_at = if is_empty pass.failed then s.retry_at else add later (lit 300 1);
    },
    done true,
  )

  -- What `_begin_round` does once the tracks are polled and there is something to run.
  unfoldable pub run_offers : Bool → F → List (Offer F) → Polls F S → Polls F S × Attempt Bool
  run_offers has_server later offers s =
      after (register_with_server duties has_server s)
        (λ _ s'. after (execute_round duties offers s') (concluded later offers))

  -- The polls of the tracks have ended.
  abbrev pub after_polls :
      F → Polls F S → Attempt (Option (List (Offer F))) → Polls F S × Attempt Bool
  after_polls later s (done (some (o ∷ os))) = run_offers true later (o ∷ os) s
  after_polls later s (done (some [])) = (s, done false)
  after_polls later s (done none) = (s, done false)
  after_polls later s abstains = (s, abstains)
  after_polls later s fails = (s, fails)

  -- `_begin_round` at the time `now`; without a server a round is run that has no offers.
  unfoldable pub begin_round :
      Bool → (String → Answer F) → F → F → Polls F S → Polls F S × Attempt Bool
  begin_round has_server answer now later s =
      if lt now s.retry_at
      then (s, done false)
      else after (registered_first duties has_server s) (λ _ s'.
        if not has_server
        then run_offers has_server later [] s'
        else after_polls later s' (poll_tracks answer s'.done_rounds tracks))
