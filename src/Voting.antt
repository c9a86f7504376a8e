-- ===== src/Voting.antt =====
-- What is voted on chain: `set_weights` of neurons/validator.py, with the state that
-- `_scores_from_server`, `_all_track_scores` and the files of the state directory keep. `sha256` and
-- the contributors are parameters, and a vote is the argument of `_push_weights`.
pub mod Safety
use phylax_subnet.Prelude.{
  ℕ, Bool, true, false, not, String, Option, none, some, List, [], ◌∷◌, ◌=ℕ◌, if◌then◌else◌, Dict,
  put, keep, is_empty,
}
use phylax_subnet.Prelude.Text.{Text}
use phylax_subnet.Number.{Float, one}
use phylax_subnet.Emission.{
  Row, get_float, normalise, compute_emission_weights, reserved_only_weights, apply_reserved_share,
}

-- What the server's reply says, once parsed.
pub record Results (F : Type 0) : Type 0 where
  pub emissions_paused : Bool
  pub reserved_hotkey : String
  pub reserved_share : F
  pub scores_epoch : ℕ
  pub tracks : Dict (List (Row F))

-- The attributes of the validator that the vote depends on, and its files: `weights_ema.json`,
-- `track_scores.json` and `scores_epoch.json`.
pub record VoteState (F : Type 0) : Type 0 where
  pub emissions_paused : Bool
  pub reserved_hotkey : String
  pub reserved_share : F
  pub round_running : Bool
  pub prior_weights : Dict F
  pub prior_scores : Dict (List (Row F))
  pub scores_epoch : ℕ

-- d.update(e)
unfoldable pub update : {A : Type 0} → Dict A → Dict A → Dict A
update d [] = d
update d ((k, v) ∷ e) = update (put d k v) e

module _ {F : Type 0} where
  -- `_scores_from_server`; `none` is a reply that could not be read.
  unfoldable pub absorb : Option (Results F) → VoteState F → VoteState F
  absorb none s = s
  absorb (some r) s =
      let reset = not (r.scores_epoch =ℕ s.scores_epoch) in
      record {
        emissions_paused = r.emissions_paused;
        reserved_hotkey = r.reserved_hotkey;
        reserved_share = r.reserved_share;
        round_running = s.round_running;
        prior_weights = if reset then [] else s.prior_weights;
        prior_scores = if reset then [] else s.prior_scores;
        scores_epoch = r.scores_epoch;
      }

  abbrev tracks_of : Option (Results F) → Dict (List (Row F))
  tracks_of none = []
  tracks_of (some r) = r.tracks

  -- `_all_track_scores`: {**carried, **from_server, **fresh}
  unfoldable pub all_track_scores :
      Dict (List (Row F)) → Dict (List (Row F)) → Option (Results F) → Dict (List (Row F))
  all_track_scores prior_scores fresh reply = update (update prior_scores (tracks_of reply)) fresh

module _ {F : Type 0} ⦃num : Float F⦄ where
  open num use {lit, add, sub, mul, lt}

  abbrev pub ema_alpha : F
  ema_alpha = lit 3 10

  unfoldable pub blend : Dict F → Dict F → Dict F
  blend prior [] = []
  blend prior ((hk, w) ∷ weights) =
      (hk, add (mul ema_alpha w) (mul (sub one ema_alpha) (get_float prior hk)))
      ∷ blend prior weights

  -- The blended weights above 1e-9, normalised.
  unfoldable pub blended_weights : Dict F → Dict F → Dict F
  blended_weights prior weights =
      normalise (keep (λ (e : String × F). lt (lit 1 1000000000) e.1) (blend prior weights))

  -- The reserved share added, unless there is nothing to vote.
  abbrev pub held : VoteState F → Dict F → Option (Dict F)
  held s [] = none
  held s (e ∷ weights) =
      some (apply_reserved_share (e ∷ weights) s.reserved_hotkey s.reserved_share)

  abbrev pub reserved_vote : VoteState F → Option (Dict F)
  reserved_vote s =
      let weights = reserved_only_weights s.reserved_hotkey in
      if is_empty weights then none else some weights

  -- `set_weights` after the server was read: the state after it and the vote, if there is one.
  unfoldable pub vote :
      (Text → Text)
      → List String
      → Dict F
      → Text
      → Option (Results F)
      → Option (Dict (List (Row F)))
      → VoteState F
      → VoteState F × Option (Dict F)
  vote sha256 contributors thresholds salt reply fresh s =
      if s.emissions_paused
      then (s, reserved_vote s)
      else if s.round_running
      then (s, held s s.prior_weights)
      else elim fresh [
        | none ↦ (s, held s s.prior_weights)
        | some scores ↦
            let merged = all_track_scores s.prior_scores scores reply in
            let weights = compute_emission_weights sha256 merged contributors thresholds salt in
            let blended = blended_weights s.prior_weights weights in
            (
              record s { prior_weights = blended; prior_scores = merged },
              some (apply_reserved_share blended s.reserved_hotkey s.reserved_share),
            )
      ]

  unfoldable pub set_weights :
      (Text → Text)
      → List String
      → Dict F
      → Text
      → Option (Results F)
      → Option (Dict (List (Row F)))
      → VoteState F
      → VoteState F × Option (Dict F)
  set_weights sha256 contributors thresholds salt reply fresh s =
      vote sha256 contributors thresholds salt reply fresh (absorb reply s)
