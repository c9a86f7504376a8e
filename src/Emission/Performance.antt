-- ===== src/Emission/Performance.antt =====
-- What the tracks are paid, in `compute_emission_weights` of phylax/analysis/scoring.py.
use phylax_subnet.Prelude.{
  ℕ, suc, ◌+◌, ◌*◌, ◌≤◌, ◌<◌, ◌≡◌, inl, inr, true, not, ◌&&◌, String, List, [], ◌∷◌, arith, Dict,
  keys, member, take, All, All-take, length, length-take-le_length, Bool-cases,
}
use phylax_subnet.Number.{Float, ◌≼◌, nought, sum}
use phylax_subnet.Number.Laws.{
  exact, IsFloat, nought_refl, lit-IsUnit, lt_of_lt_of_le, sum_bounds, parts_of_sum,
}
use phylax_subnet.Emission.{
  Row, track_emission_weights, top_k_split, idle_shares, pay_rows, pay_tracks, performance,
}
use phylax_subnet.Emission.Range.{
  Within, Within-mono, add-Within, IsBounded, IsBounded-mono, get_float-Within, add_to-IsBounded,
}

module _ {F : Type 0} ⦃num : Float F⦄ where
  open num use {lit, add, mul, div, le, lt}

  module _ (laws : IsFloat F) where
    open laws use {le_trans, lit_mono, refl_of_le, le_of_lt}

    abbrev IsPart : F → F → Type 0
    IsPart denom x = (nought ≼ x) × (x ≼ denom)

    pay_rows-IsBounded :
        (rows : List (Row F)) (split : List F) (share denom : F) (n c : ℕ) (d : Dict F)
        → Within 5 share
        → lt nought denom ≡ true
        → denom ≼ lit exact 1
        → All (IsPart denom) split
        → c + length split * 5 ≤ exact
        → IsBounded n c d
        → IsBounded (n + length split) (c + length split * 5) (pay_rows share denom d rows split)
    unfolding pay_rows
    pay_rows-IsBounded [] split share denom n c d s p b parts fits h =
        IsBounded-mono laws n _ c _ d (omega arith) (omega arith) h
    pay_rows-IsBounded (row ∷ rows) [] share denom n c d s p b parts fits h =
        IsBounded-mono laws n _ c _ d (omega arith) (omega arith) h
    pay_rows-IsBounded ((k, score) ∷ rows) (frac ∷ split) share denom n c d s p b (part, parts) fits
          h =
        let unit = laws.div_unit frac denom part.0 part.1 p b in
        let (low, high) =
          laws.mul_shrinks share (div frac denom) (Within-mono laws 5 exact share (omega arith) s)
            unit in
        let paid : Within 5 (mul share (div frac denom)) = (low, le_trans _ _ _ high s.1) in
        let next =
          add_to-IsBounded laws n c 5 d k (mul share (div frac denom)) (omega arith) paid h in
        let done =
          pay_rows-IsBounded rows split share denom (n + 1) (c + 5) _ s p b parts (omega arith)
            next in
        IsBounded-mono laws _ _ _ _ _ (omega arith) (omega arith) done

    split_unit : (m : ℕ) → All (Within 1) (take m (top_k_split {F = F}))
    split_unit m =
        let u = λ (n : ℕ) (h : n ≤ 100). lit-IsUnit laws n 100 (omega arith) h in
        All-take (Within 1) m (top_k_split {F = F}) (
          u 40 (omega arith),
          (u 25 (omega arith), (u 15 (omega arith), (u 12 (omega arith), (u 8 (omega arith), tt)))),
        )

    length-split : (m : ℕ) → length (take m (top_k_split {F = F})) ≤ 5
    length-split m = length-take-le_length m (top_k_split {F = F})

    sum_split : (m : ℕ) → sum (take m (top_k_split {F = F})) ≼ lit exact 1
    sum_split m =
        let split = take m (top_k_split {F = F}) in
        let (low, high) =
          sum_bounds laws split nought 1 0 (nought_refl laws) (nought_refl laws)
            (omega (arith, length-split m)) (split_unit m) in
        le_trans _ _ _ high
          (lit_mono _ 1 exact 1 (omega arith) (omega arith) (omega (arith, length-split m)))

    sum_split_pos : (m : ℕ) → lt nought (sum (take (suc m) (top_k_split {F = F}))) ≡ true
    sum_split_pos m =
        let parts =
          parts_of_sum laws 1 (take (suc m) (top_k_split {F = F})) nought (nought_refl laws)
            (split_unit (suc m)) in
        lt_of_lt_of_le laws nought (lit 40 100) _
          (laws.lit_pos 40 100 (omega arith) (omega arith) (omega arith)) parts.0.1

    pay_top-IsBounded :
        (top : List (Row F)) (share : F) (n c : ℕ) (d : Dict F)
        → Within 5 share
        → c + 25 ≤ exact
        → IsBounded n c d
        → let split = take (length top) (top_k_split {F = F}) in
          IsBounded (n + 5) (c + 25) (pay_rows share (sum split) d top split)
    unfolding pay_rows
    pay_top-IsBounded [] share n c d s fits h =
        IsBounded-mono laws n _ c _ d (omega arith) (omega arith) h
    pay_top-IsBounded (row ∷ rows) share n c d s fits h =
        let m = length rows in
        let split = take (suc m) (top_k_split {F = F}) in
        let few = length-split (suc m) in
        IsBounded-mono laws _ _ _ _ _ (omega arith) (omega arith) (
          pay_rows-IsBounded (row ∷ rows) split share (sum split) n c d s (sum_split_pos m)
            (sum_split (suc m))
            (parts_of_sum laws 1 split nought (nought_refl laws) (split_unit (suc m))) (omega arith)
            h)

    table_unit : All (λ (e : String × F). Within 1 e.1) (track_emission_weights {F = F})
    table_unit =
        let u = λ (n d : ℕ) (p : 0 < d) (h : n ≤ d). lit-IsUnit laws n d p h in
        (
          u 30 100 (omega arith) (omega arith),
          (
            u 25 100 (omega arith) (omega arith),
            (u 225 1000 (omega arith) (omega arith), (u 225 1000 (omega arith) (omega arith), tt)),
          ),
        )

    pay_tracks-IsBounded :
        (qualified : Dict (List (Row F))) (bonus : F) (n c : ℕ) (d : Dict F)
        → Within 4 bonus
        → c + length qualified * 25 ≤ exact
        → IsBounded n c d
        → IsBounded
            (n + length qualified * 5)
            (c + length qualified * 25)
            (pay_tracks bonus d qualified)
    unfolding pay_tracks
    pay_tracks-IsBounded [] bonus n c d b fits h =
        IsBounded-mono laws n _ c _ d (omega arith) (omega arith) h
    pay_tracks-IsBounded ((track, top) ∷ rest) bonus n c d b fits h =
        let share =
          add-Within laws 1 4 _ bonus (omega arith)
            (get_float-Within laws 1 (track_emission_weights {F = F}) track table_unit) b in
        IsBounded-mono laws _ _ _ _ _ (omega arith) (omega arith) (
          pay_tracks-IsBounded rest bonus (n + 5) (c + 25) _ b (omega arith)
            (pay_top-IsBounded top _ n c d share (omega arith) h))

    idle_unit :
        (qualified : Dict (List (Row F))) (table : Dict F)
        → All (λ (e : String × F). Within 1 e.1) table
        → All (Within 1) (idle_shares qualified table)
          × (length (idle_shares qualified table) ≤ length table)
    idle_unit qualified [] h = (tt, omega arith)
    idle_unit qualified ((track, share) ∷ table) (w, h) =
        let (rest, short) = idle_unit qualified table h in
        elim (Bool-cases (lt nought share && not (member track (keys qualified)))) [
          | inl e ↦ rw e ((w, rest), omega arith)
          | inr e ↦ rw e (rest, omega arith)
        ]

    pub performance-IsBounded :
        (qualified : Dict (List (Row F)))
        → length qualified ≤ 4
        → IsBounded 20 100 (performance qualified)
    unfolding performance
    performance-IsBounded [] few = record { short = omega arith; within = tt }
    performance-IsBounded (e ∷ rest) few =
        let qualified : Dict (List (Row F)) = e ∷ rest in
        let shares = idle_shares qualified (track_emission_weights {F = F}) in
        let (units, short) = idle_unit qualified (track_emission_weights {F = F}) table_unit in
        let (low, high) =
          sum_bounds laws shares nought 1 0 (nought_refl laws) (nought_refl laws) (omega arith)
            units in
        let idle : Within 4 (sum shares) =
          (low, le_trans _ _ _ high (lit_mono _ 1 4 1 (omega arith) (omega arith) (omega arith))) in
        let (blow, bhigh) =
          laws.div_shrinks (sum shares) (length qualified)
            (Within-mono laws 4 exact _ (omega arith) idle) (omega arith) (omega arith) in
        IsBounded-mono laws _ _ _ _ _ (omega arith) (omega arith) (
          pay_tracks-IsBounded qualified _ 0 0 [] (blow, le_trans _ _ _ bhigh idle.1) (omega arith)
            (record { short = omega arith; within = tt }))
