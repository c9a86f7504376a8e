-- ===== src/Emission/Weights.antt =====
-- The weights that `compute_emission_weights` of phylax/analysis/scoring.py returns.
use native.Mathlib.Nat.{mul-le-mul, le_trans as le_trans_ℕ}
use phylax_subnet.Prelude.{
  ℕ, suc, ◌+◌, ◌*◌, ◌^◌, ◌≤◌, String, List, [], ◌∷◌, arith, Dict, member, keep, All, length,
}
use phylax_subnet.Prelude.Text.{Text}
use phylax_subnet.Number.{Float, IsUnit}
use phylax_subnet.Number.Laws.{exact, IsFloat, lit-IsUnit}
use phylax_subnet.Emission.{
  Row, nobody, track_emission_weights, qualify_all, contribution_share, add_each, add_contributions,
  eligible_of, compute_emission_weights,
}
use phylax_subnet.Emission.Sort.{length-sort}
use phylax_subnet.Emission.Counts.{length-keep, rows_in, qualify_all-IsShort}
use Prim.Native.String.{compare}
use text.Mathlib.Text.{is_lt}
use phylax_subnet.Emission.Range.{
  IsBounded-mono, IsBounded, Within, Within-mono, IsBounded, IsBounded-mono, add_to-IsBounded,
  normalise-IsBounded, scale-IsBounded,
}
use phylax_subnet.Emission.Performance.{performance-IsBounded}

length-eligible_of :
    (active contributors : List String) → length (eligible_of active contributors) ≤ length active
length-eligible_of active contributors = omega (
  arith,
  length-sort (λ (h j : String). is_lt (compare h j)) (keep (λ h. member h contributors) active),
  length-keep (λ h. member h contributors) active,
)

module _ {F : Type 0} ⦃num : Float F⦄ where
  open num use {lit, add, mul, div, le, lt}

  module _ (laws : IsFloat F) where
    open laws use {le_trans}

    add_each-IsBounded :
        (names : List String) (per : F) (n c : ℕ) (d : Dict F)
        → Within 1 per
        → c + length names ≤ exact
        → IsBounded n c d
        → IsBounded (n + length names) (c + length names) (add_each per d names)
    unfolding add_each
    add_each-IsBounded [] per n c d p fits h =
        IsBounded-mono laws n _ c _ d (omega arith) (omega arith) h
    add_each-IsBounded (k ∷ names) per n c d p fits h =
        IsBounded-mono laws _ _ _ _ _ (omega arith) (omega arith) (
          add_each-IsBounded names per (n + 1) (c + 1) _ p (omega arith)
            (add_to-IsBounded laws n c 1 d k per (omega arith) p h))

    add_contributions-IsBounded :
        (names : List String) (n c : ℕ) (d : Dict F)
        → c + length names ≤ exact
        → IsBounded n c d
        → IsBounded (n + length names) (c + length names) (add_contributions names d)
    unfolding add_contributions
    add_contributions-IsBounded [] n c d fits h =
        IsBounded-mono laws n _ c _ d (omega arith) (omega arith) h
    add_contributions-IsBounded (k ∷ names) n c d fits h =
        let share = lit-IsUnit laws 5 100 (omega arith) (omega arith) in
        let (low, high) =
          laws.div_shrinks contribution_share (suc (length names))
            (Within-mono laws 1 exact _ (omega arith) share) (omega arith) (omega arith) in
        add_each-IsBounded (k ∷ names) _ n c d (low, le_trans _ _ _ high share.1) fits h

    pub weights-IsBounded :
        (sha256 : Text → Text) (scores : Dict (List (Row F))) (contributors : List String)
        (thresholds : Dict F) (salt : Text)
        → rows_in scores (track_emission_weights {F = F}) ≤ 2 ^ 20
        → IsBounded
            (20 + 2 ^ 20)
            1
            (compute_emission_weights sha256 scores contributors thresholds salt)
    unfolding compute_emission_weights
    weights-IsBounded sha256 scores contributors thresholds salt few =
        let table = track_emission_weights {F = F} in
        let q = qualify_all sha256 scores thresholds salt (nobody F) table in
        let counts =
          qualify_all-IsShort sha256 scores thresholds salt table 0 0 (nobody F)
            (record { tracks = omega arith; tops = tt; hotkeys = omega arith }) in
        let names = eligible_of q.active contributors in
        let fewer : length names ≤ 2 ^ 20 =
          omega (arith, length-eligible_of q.active contributors, counts.hotkeys) in
        let paid = performance-IsBounded laws q.qualified (omega (arith, counts.tracks)) in
        let scaled = scale-IsBounded laws 20 100 _ (omega arith) paid in
        let full = add_contributions-IsBounded names 20 1 _ (omega arith) scaled in
        let product : (20 + length names) * (1 + length names) ≤ (20 + 2 ^ 20) * (1 + 2 ^ 20) =
          mul-le-mul {n₂ = 20 + 2 ^ 20} {m₂ = 1 + 2 ^ 20} (omega arith) (omega arith) in
        IsBounded-mono laws _ _ 1 1 _ (omega arith) (omega arith)
          (normalise-IsBounded laws _ _ _ (le_trans_ℕ product (omega arith)) full)

    -- With up to 2 ^ 20 rows over the tracks, every emission weight is a number from 0.0 to 1.0:
    -- never NaN, infinite or negative, whatever the scores in the rows are.
    pub weights-IsUnit :
        (sha256 : Text → Text) (scores : Dict (List (Row F))) (contributors : List String)
        (thresholds : Dict F) (salt : Text)
        → rows_in scores (track_emission_weights {F = F}) ≤ 2 ^ 20
        → All
            (λ (e : String × F). IsUnit e.1)
            (compute_emission_weights sha256 scores contributors thresholds salt)
    weights-IsUnit sha256 scores contributors thresholds salt few =
        (weights-IsBounded sha256 scores contributors thresholds salt few).within
