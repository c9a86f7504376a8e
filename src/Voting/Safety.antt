-- ===== src/Voting/Safety.antt =====
-- The votes of `set_weights` of neurons/validator.py.
use phylax_subnet.Prelude.{
  ℕ, ◌+◌, ◌^◌, ◌≤◌, Bool, String, Option, none, some, List, [], ◌∷◌, arith, length, Dict, keep, All,
  All-keep, All-weaken, Bool-cases, inl, inr, ◌=ℕ◌, ◌==◌,
}
use phylax_subnet.Prelude.Text.{Text}
use phylax_subnet.Number.{Float, one, IsUnit}
use phylax_subnet.Number.Laws.{exact, IsFloat, lit-IsUnit}
use phylax_subnet.Emission.{Row, track_emission_weights, reserved_only_weights}
use phylax_subnet.Emission.Range.{
  IsBounded, Within, Within-mono, add-Within, get_float-Within, normalise-IsBounded,
}
use phylax_subnet.Emission.Counts.{rows_in}
use phylax_subnet.Emission.Weights.{weights-IsBounded}
use phylax_subnet.Emission.Reserved.{reserved-IsBounded}
use phylax_subnet.Voting.{
  Results, VoteState, absorb, all_track_scores, ema_alpha, blend, blended_weights, held,
  reserved_vote, vote, set_weights,
}

abbrev pub scores_of : {A : Type 0} → Option (Dict A) → Dict A
scores_of none = []
scores_of (some scores) = scores

module _ {F : Type 0} ⦃num : Float F⦄ where
  open num use {lit, add, sub, mul, lt}

  -- The carried weights are at most 2 ^ 20 + 20 numbers from 0.0 to 1.0.
  abbrev pub IsCarried : VoteState F → Type 0
  IsCarried s = IsBounded (20 + 2 ^ 20) 1 s.prior_weights

  abbrev pub IsVote : Option (Dict F) → Type 0
  IsVote none = Unit
  IsVote (some weights) = IsBounded (20 + 2 ^ 20 + 1) 1 weights

  absorb-IsCarried :
      (reply : Option (Results F)) (s : VoteState F) → IsCarried s → IsCarried (absorb reply s)
  unfolding absorb
  absorb-IsCarried none s h = h
  absorb-IsCarried (some r) s h = elim (Bool-cases (r.scores_epoch =ℕ s.scores_epoch)) [
    | inl e ↦ rw e h
    | inr e ↦ rw e (record { short = omega arith; within = tt })
  ]

  module _ (laws : IsFloat F) where
    part-IsUnit : (x y : F) → IsUnit x → IsUnit y → Within 1 (mul x y)
    part-IsUnit x y u v =
        let (low, high) = laws.mul_shrinks x y (Within-mono laws 1 exact x (omega arith) u) v in
        (low, laws.le_trans _ _ _ high u.1)

    blend-IsBounded :
        (n : ℕ) (prior weights : Dict F)
        → All (λ (e : String × F). Within 1 e.1) prior
        → IsBounded n 1 weights
        → IsBounded n 2 (blend prior weights)
    unfolding blend
    blend-IsBounded n prior [] p h = record { short = h.short; within = tt }
    blend-IsBounded n prior ((hk, w) ∷ weights) p h =
        let (u, us) = h.within in
        let alpha = lit-IsUnit laws 3 10 (omega arith) (omega arith) in
        let rest =
          blend-IsBounded (length weights) prior weights p
            (record { short = omega arith; within = us }) in
        record {
          short = omega (arith, rest.short, h.short);
          within = (
            add-Within laws 1 1 _ _ (omega arith) (part-IsUnit ema_alpha w alpha u) (
                part-IsUnit (sub one ema_alpha) _ (laws.sub_unit ema_alpha alpha)
                  (get_float-Within laws 1 prior hk p)),
            rest.within,
          );
        }

    length-keep : (test : String × F → Bool) (d : Dict F) → length (keep test d) ≤ length d
    length-keep test [] = omega arith
    length-keep test (e ∷ d) = ground (arith, length-keep test d)

    keep-IsBounded :
        (n c : ℕ) (test : String × F → Bool) (d : Dict F)
        → IsBounded n c d
        → IsBounded n c (keep test d)
    keep-IsBounded n c test d h = record {
      short = omega (arith, length-keep test d, h.short);
      within = All-weaken _ _ (keep test d) (λ e k. k.0) (All-keep _ test d h.within);
    }

    held-IsVote :
        (s : VoteState F) (weights : Dict F)
        → IsBounded (20 + 2 ^ 20) 1 weights
        → IsVote (held s weights)
    held-IsVote s [] h = tt
    held-IsVote s (e ∷ weights) h =
        reserved-IsBounded laws (20 + 2 ^ 20) (e ∷ weights) s.reserved_hotkey s.reserved_share
          (omega arith) h

    reserved_vote-IsVote : (s : VoteState F) → IsVote (reserved_vote s)
    unfolding reserved_only_weights
    reserved_vote-IsVote s = elim (Bool-cases (s.reserved_hotkey == "")) [
      | inl e ↦ rw e tt
      | inr e ↦ rw e (record {
        short = omega arith;
        within = (lit-IsUnit laws 1 1 (omega arith) (omega arith), tt);
      })
    ]

    blended-IsBounded :
        (prior weights : Dict F)
        → IsBounded (20 + 2 ^ 20) 1 prior
        → IsBounded (20 + 2 ^ 20) 1 weights
        → IsBounded (20 + 2 ^ 20) 1 (blended_weights prior weights)
    unfolding blended_weights
    blended-IsBounded prior weights h k = normalise-IsBounded laws (20 + 2 ^ 20) 2 _ (omega arith) (
        keep-IsBounded (20 + 2 ^ 20) 2 _ _ (blend-IsBounded (20 + 2 ^ 20) prior weights h.within k))

    -- What is claimed of the state after a vote and of the vote.
    abbrev pub IsSafe : VoteState F × Option (Dict F) → Type 0
    IsSafe r = IsCarried r.0 × IsVote r.1

    vote-IsSafe :
        (sha256 : Text → Text) (contributors : List String) (thresholds : Dict F) (salt : Text)
        (reply : Option (Results F)) (fresh : Option (Dict (List (Row F)))) (s : VoteState F)
        → IsCarried s
        → rows_in
            (all_track_scores s.prior_scores (scores_of fresh) reply)
            (track_emission_weights {F = F})
          ≤ 2 ^ 20
        → IsSafe (vote sha256 contributors thresholds salt reply fresh s)
    unfolding vote
    vote-IsSafe sha256 contributors thresholds salt reply none s h few =
        elim (Bool-cases s.emissions_paused) [
          | inl e ↦ rw e (h, reserved_vote-IsVote s)
          | inr e ↦ elim (Bool-cases s.round_running) [
            | inl e' ↦ rw (e, e') (h, held-IsVote s s.prior_weights h)
            | inr e' ↦ rw (e, e') (h, held-IsVote s s.prior_weights h)
          ]
        ]
    vote-IsSafe sha256 contributors thresholds salt reply (some scores) s h few =
        let merged = all_track_scores s.prior_scores scores reply in
        let weights = weights-IsBounded laws sha256 merged contributors thresholds salt few in
        let blended = blended-IsBounded s.prior_weights _ h weights in
        elim (Bool-cases s.emissions_paused) [
          | inl e ↦ rw e (h, reserved_vote-IsVote s)
          | inr e ↦ elim (Bool-cases s.round_running) [
            | inl e' ↦ rw (e, e') (h, held-IsVote s s.prior_weights h)
            | inr e' ↦
                rw (e, e')
                  (
                    blended,
                    reserved-IsBounded laws (20 + 2 ^ 20) _ s.reserved_hotkey s.reserved_share
                        (omega arith) blended,
                  )
          ]
        ]

    -- Every vote is a vector of at most 2 ^ 20 + 21 numbers from 0.0 to 1.0, and the weights that
    -- are carried to the next vote are at most 2 ^ 20 + 20 such numbers, if the carried weights were
    -- before and the merged scores have up to 2 ^ 20 rows.
    pub set_weights-IsSafe :
        (sha256 : Text → Text) (contributors : List String) (thresholds : Dict F) (salt : Text)
        (reply : Option (Results F)) (fresh : Option (Dict (List (Row F)))) (s : VoteState F)
        → IsCarried s
        → rows_in
            (all_track_scores (absorb reply s).prior_scores (scores_of fresh) reply)
            (track_emission_weights {F = F})
          ≤ 2 ^ 20
        → IsSafe (set_weights sha256 contributors thresholds salt reply fresh s)
    unfolding set_weights
    set_weights-IsSafe sha256 contributors thresholds salt reply fresh s h few =
        vote-IsSafe sha256 contributors thresholds salt reply fresh (absorb reply s)
          (absorb-IsCarried reply s h) few
