-- ===== src/Emission/Qualified.antt =====
-- The hotkeys of the emission weights of phylax/analysis/scoring.py.
use phylax_subnet.Prelude.{
  ◌≡◌, sym, ap, subst, inl, inr, Bool, true, ◌&&◌, ◌||◌, String, List, [], ◌∷◌, ◌++◌, arith, eq_iff,
  Dict, All, Any, keep, member, take, values, All-put, All-take, All-append, All-weaken, All-keep,
  All-Any, Any-map, Bool-cases, is_empty,
}
use phylax_subnet.Prelude.Text.{Text, codes}
use phylax_subnet.Number.{Float, nought, sum}
use phylax_subnet.Emission.{
  Row, Qualification, nobody, track_emission_weights, top_k, get_float, add_to, map_values,
  normalise, rows_of, ranks_before, positive_rows, add_hotkeys, qualify, qualify_all, pay_rows,
  pay_tracks, performance, scale_performance, add_each, add_contributions, eligible_of,
  compute_emission_weights,
}
use phylax_subnet.Emission.Sort.{sort, All-sort}

both_true : (a b : Bool) → (a && b) ≡ true → (a ≡ true) × (b ≡ true)
both_true a b h = ground arith

eligible_of-All :
    (Q : String → Type 0) (active contributors : List String)
    → All Q active
    → All Q (eligible_of active contributors)
eligible_of-All Q active contributors h =
    All-sort Q _ (keep (λ k. member k contributors) active) (
      All-weaken _ Q (keep (λ k. member k contributors) active) (λ k p. p.0)
        (All-keep Q _ active h))

-- Every key satisfies `Q`.
abbrev pub Keyed : {V : Type 0} → (String → Type 0) → Dict V → Type 0
Keyed {V} Q d = All (λ (e : String × V). Q e.0) d

module _ {F : Type 0} ⦃num : Float F⦄ where
  open num use {le, lt, add, mul, div, lit}

  -- `rows` has a row of this hotkey with a positive score that reaches the cut.
  abbrev pub HasRow : List (Row F) → F → String → Type 0
  HasRow rows cut hotkey =
      Any (λ r. (r.0 ≡ hotkey) × (lt nought r.1 ≡ true) × (le cut r.1 ≡ true)) rows

  -- Some track of the emission table has such a row.
  abbrev pub IsQualifier : Dict (List (Row F)) → Dict F → String → Type 0
  IsQualifier scores thresholds hotkey =
      Any (λ (e : String × F). HasRow (rows_of scores e.0) (get_float thresholds e.0) hotkey)
        track_emission_weights

  HasRow-of_mem :
      (cut : F) (rows : List (Row F)) (y : Row F)
      → Any (λ x. x ≡ y) rows × ((lt nought y.1 && le cut y.1) ≡ true)
      → HasRow rows cut y.0
  HasRow-of_mem cut rows y (m, t) =
      let (p, q) = both_true _ _ t in
      Any-map (λ x. x ≡ y) _ rows
        (λ x e. (
          ap (λ (r : Row F). r.0) e,
          subst (λ (r : Row F). lt nought r.1 ≡ true) (sym e) p,
          subst (λ (r : Row F). le cut r.1 ≡ true) (sym e) q,
        ))
        m

  positive_rows-HasRow :
      (sha256 : Text → Text) (salt : Text) (cut : F) (rows : List (Row F))
      → All (λ r. HasRow rows cut r.0) (positive_rows sha256 salt cut rows)
  unfolding positive_rows
  positive_rows-HasRow sha256 salt cut rows =
      let sorted = sort (ranks_before sha256 salt) rows in
      All-weaken _ _ (keep (λ (r : Row F). lt nought r.1 && le cut r.1) sorted)
        (HasRow-of_mem cut rows)
        (All-keep (λ y. Any (λ x. x ≡ y) rows) _ sorted
          (All-sort _ (ranks_before sha256 salt) rows (All-Any rows)))

  module _ (Q : String → Type 0) where
    record IsSound (q : Qualification F) : Type 0 where
      rows : All (λ (e : String × List (Row F)). All (λ (r : Row F). Q r.0) e.1) q.qualified
      hotkeys : All Q q.active

    add_hotkeys-All :
        (rows : List (Row F)) (active : List String)
        → All (λ (r : Row F). Q r.0) rows
        → All Q active
        → All Q (add_hotkeys active rows)
    add_hotkeys-All [] active h k = k
    add_hotkeys-All ((j, s) ∷ rows) active (q, h) k = elim (Bool-cases (member j active)) [
      | inl e ↦ rw e (add_hotkeys-All rows active h k)
      | inr e ↦
          rw e
            (add_hotkeys-All rows (active ++ (j ∷ [])) h (All-append Q active (j ∷ []) k (q, tt)))
    ]

    module _ (sha256 : Text → Text) (scores : Dict (List (Row F))) (thresholds : Dict F)
        (salt : Text) where
      Admits : String × F → Type 0
      Admits e = (h : String) → HasRow (rows_of scores e.0) (get_float thresholds e.0) h → Q h

      qualify-IsSound :
          (q : Qualification F) (e : String × F)
          → Admits e
          → IsSound q
          → IsSound (qualify sha256 scores thresholds salt q e)
      unfolding qualify Admits
      qualify-IsSound q (track, share) admits sound =
          let prefix = salt ++ codes ":" ++ codes track in
          let cut = get_float thresholds track in
          let listed = rows_of scores track in
          let positive = positive_rows sha256 prefix cut listed in
          let all_keyed : All (λ r. Q r.0) positive =
            All-weaken _ _ positive (λ r. admits r.0)
              (positive_rows-HasRow sha256 prefix cut listed) in
          elim (Bool-cases (le share nought || is_empty positive)) [
            | inl e ↦ rw e sound
            | inr e ↦ rw e record {
              rows =
                  All-put _ q.qualified track (take top_k positive) sound.rows
                    (λ j k. All-take _ top_k positive all_keyed)
                    (All-take _ top_k positive all_keyed);
              hotkeys = add_hotkeys-All positive q.active all_keyed sound.hotkeys;
            }
          ]

      qualify_all-IsSound :
          (table : Dict F) (q : Qualification F)
          → All Admits table
          → IsSound q
          → IsSound (qualify_all sha256 scores thresholds salt q table)
      unfolding qualify_all
      qualify_all-IsSound [] q h sound = sound
      qualify_all-IsSound (e ∷ table) q (a, h) sound =
          qualify_all-IsSound table (qualify sha256 scores thresholds salt q e) h
            (qualify-IsSound q e a sound)

    add_to-Keyed : (d : Dict F) (k : String) (v : F) → Keyed Q d → Q k → Keyed Q (add_to d k v)
    unfolding add_to
    add_to-Keyed d k v h q = All-put _ d k _ h (λ j e. subst Q (sym ((eq_iff j k).0 e)) q) q

    map_values-Keyed : (f : F → F) (d : Dict F) → Keyed Q d → Keyed Q (map_values f d)
    map_values-Keyed f [] h = tt
    map_values-Keyed f ((k, v) ∷ d) (q, h) = (q, map_values-Keyed f d h)

    pay_rows-Keyed :
        (rows : List (Row F)) (split : List F) (share denom : F) (d : Dict F)
        → All (λ r. Q r.0) rows
        → Keyed Q d
        → Keyed Q (pay_rows share denom d rows split)
    unfolding pay_rows
    pay_rows-Keyed [] split share denom d r h = h
    pay_rows-Keyed (row ∷ rows) [] share denom d r h = h
    pay_rows-Keyed ((k, s) ∷ rows) (frac ∷ split) share denom d (q, r) h =
        pay_rows-Keyed rows split share denom (add_to d k (mul share (div frac denom))) r
          (add_to-Keyed d k _ h q)

    pay_tracks-Keyed :
        (qualified : Dict (List (Row F))) (bonus : F) (d : Dict F)
        → All (λ (e : String × List (Row F)). All (λ (r : Row F). Q r.0) e.1) qualified
        → Keyed Q d
        → Keyed Q (pay_tracks bonus d qualified)
    unfolding pay_tracks
    pay_tracks-Keyed [] bonus d r h = h
    pay_tracks-Keyed ((track, top) ∷ rest) bonus d (q, r) h =
        pay_tracks-Keyed rest bonus _ r (pay_rows-Keyed top _ _ _ d q h)

    performance-Keyed :
        (qualified : Dict (List (Row F)))
        → All (λ (e : String × List (Row F)). All (λ (r : Row F). Q r.0) e.1) qualified
        → Keyed Q (performance qualified)
    unfolding performance
    performance-Keyed [] r = tt
    performance-Keyed (e ∷ rest) r = pay_tracks-Keyed (e ∷ rest) _ [] r tt

    scale-Keyed : (d : Dict F) → Keyed Q d → Keyed Q (scale_performance d)
    unfolding scale_performance
    scale-Keyed d h = elim (Bool-cases (lt nought (sum (values d)))) [
      | inl e ↦ rw e (map_values-Keyed _ d h)
      | inr e ↦ rw e h
    ]

    normalise-Keyed : (d : Dict F) → Keyed Q d → Keyed Q (normalise d)
    unfolding normalise
    normalise-Keyed d h = elim (Bool-cases (lt nought (sum (values d)))) [
      | inl e ↦ rw e (map_values-Keyed _ d h)
      | inr e ↦ rw e h
    ]

    add_each-Keyed :
        (names : List String) (per : F) (d : Dict F)
        → All Q names
        → Keyed Q d
        → Keyed Q (add_each per d names)
    unfolding add_each
    add_each-Keyed [] per d n h = h
    add_each-Keyed (k ∷ names) per d (q, n) h =
        add_each-Keyed names per (add_to d k per) n (add_to-Keyed d k per h q)

    add_contributions-Keyed :
        (names : List String) (d : Dict F)
        → All Q names
        → Keyed Q d
        → Keyed Q (add_contributions names d)
    unfolding add_contributions
    add_contributions-Keyed [] d n h = h
    add_contributions-Keyed (k ∷ names) d n h = add_each-Keyed (k ∷ names) _ d n h

  -- Only a hotkey with a row of positive score that reaches the threshold, in some track of the
  -- emission table, is given a weight. A recognised contributor without such a row earns nothing.
  pub weights-IsQualifier :
      (sha256 : Text → Text) (scores : Dict (List (Row F))) (contributors : List String)
      (thresholds : Dict F) (salt : Text)
      → Keyed
          (IsQualifier scores thresholds)
          (compute_emission_weights sha256 scores contributors thresholds salt)
  unfolding compute_emission_weights Admits
  weights-IsQualifier sha256 scores contributors thresholds salt =
      let Q = IsQualifier scores thresholds in
      let q = qualify_all sha256 scores thresholds salt (nobody F) track_emission_weights in
      let sound =
        qualify_all-IsSound Q sha256 scores thresholds salt track_emission_weights (nobody F)
          (
            λ h a. inl a,
            (λ h a. inr (inl a), (λ h a. inr (inr (inl a)), (λ h a. inr (inr (inr (inl a))), tt))),
          )
          (record { rows = tt; hotkeys = tt }) in
      normalise-Keyed Q _ (
        add_contributions-Keyed Q (eligible_of q.active contributors) _
          (eligible_of-All Q q.active contributors sound.hotkeys)
          (scale-Keyed Q _ (performance-Keyed Q q.qualified sound.rows)))
