-- ===== src/Examples/Voting.antt =====
-- A vote after a round, and one while emissions are paused.
use phylax_subnet.Prelude.{refl, false, Bool, some, List, [], ◌∷◌, arith, Dict, get, put}
use phylax_subnet.Number.Fixed.{Fixed, fixed_float, Fixed-IsFloat}
use phylax_subnet.Emission.{Row}
use phylax_subnet.Voting.{Results, VoteState, absorb, update, all_track_scores, set_weights}
use phylax_subnet.Voting.Safety.{IsCarried, IsSafe, set_weights-IsSafe}
use phylax_subnet.Examples.{digest}

abbrev state : VoteState Fixed
state = record {
  emissions_paused = false;
  reserved_hotkey = "";
  reserved_share = 0;
  round_running = false;
  prior_weights = ("alice", 700) ∷ [];
  prior_scores = ("packages", ("bob", 500) ∷ []) ∷ [];
  scores_epoch = 4;
}

abbrev reply : Bool → Results Fixed
reply paused = record {
  emissions_paused = paused;
  reserved_hotkey = "treasury";
  reserved_share = 250;
  scores_epoch = 4;
  tracks = [];
}

abbrev fresh : Dict (List (Row Fixed))
fresh = ("skills", ("alice", 900) ∷ []) ∷ []

state-IsCarried : IsCarried {F = Fixed} state
state-IsCarried = record { short = omega arith; within = ((refl, refl), tt) }

set_weights-IsSafe_example :
    IsSafe {F = Fixed} Fixed-IsFloat
      (set_weights {F = Fixed} digest ("bob" ∷ []) [] [] (some (reply false)) (some fresh) state)
unfolding absorb all_track_scores update get put
set_weights-IsSafe_example =
    set_weights-IsSafe {F = Fixed} Fixed-IsFloat digest ("bob" ∷ []) [] [] (some (reply false))
      (some fresh) state state-IsCarried (omega arith)
