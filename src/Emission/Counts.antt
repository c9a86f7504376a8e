-- ===== src/Emission/Counts.antt =====
-- How many tracks, rows and hotkeys the first loop of `compute_emission_weights`, of
-- phylax/analysis/scoring.py, collects.
use phylax_subnet.Prelude.{
  ℕ, ◌+◌, ◌≤◌, inl, inr, Bool, ◌&&◌, ◌||◌, String, List, [], ◌∷◌, ◌++◌, arith, Dict, keep, take,
  All, All-put, length, length-append, length-take-le, Bool-cases, is_empty,
}
use phylax_subnet.Prelude.Text.{Text, codes}
use phylax_subnet.Number.{Float, nought}
use phylax_subnet.Emission.{
  Row, Qualification, top_k, get_float, rows_of, ranks_before, positive_rows, add_hotkeys, qualify,
  qualify_all,
}
use phylax_subnet.Emission.Sort.{sort, length-sort}
use phylax_subnet.Emission.Range.{length-put}

pub length-keep : {A : Type 0} (test : A → Bool) (xs : List A) → length (keep test xs) ≤ length xs
length-keep test [] = omega arith
length-keep test (x ∷ xs) = ground (arith, length-keep test xs)

module _ {F : Type 0} ⦃num : Float F⦄ where
  open num use {lit, add, mul, div, le, lt}

  -- How many rows the tracks of a table have in all.
  abbrev pub rows_in : Dict (List (Row F)) → Dict F → ℕ
  rows_in scores [] = 0
  rows_in scores ((track, share) ∷ table) = length (rows_of scores track) + rows_in scores table

  length-add_hotkeys :
      (rows : List (Row F)) (active : List String)
      → length (add_hotkeys active rows) ≤ length active + length rows
  length-add_hotkeys [] active = omega arith
  length-add_hotkeys ((h, s) ∷ rows) active = ground (
    arith,
    length-append active (h ∷ []),
    length-add_hotkeys rows active,
    length-add_hotkeys rows (active ++ (h ∷ [])),
  )

  length-positive_rows :
      (sha256 : Text → Text) (salt : Text) (cut : F) (rows : List (Row F))
      → length (positive_rows sha256 salt cut rows) ≤ length rows
  unfolding positive_rows
  length-positive_rows sha256 salt cut rows = omega (
    arith,
    length-keep (λ (r : Row F). lt nought r.1 && le cut r.1) (sort (ranks_before sha256 salt) rows),
    length-sort (ranks_before sha256 salt) rows,
  )

  -- At most m tracks with up to five rows each, and at most k hotkeys.
  pub record IsShort (m k : ℕ) (q : Qualification F) : Type 0 where
    pub tracks : length q.qualified ≤ m
    pub tops : All (λ (e : String × List (Row F)). length e.1 ≤ top_k) q.qualified
    pub hotkeys : length q.active ≤ k

  module _ (sha256 : Text → Text) (scores : Dict (List (Row F))) (thresholds : Dict F)
      (salt : Text) where
    qualify-IsShort :
        (m k : ℕ) (q : Qualification F) (e : String × F)
        → IsShort m k q
        → IsShort
            (m + 1)
            (k + length (rows_of scores e.0))
            (qualify sha256 scores thresholds salt q e)
    unfolding qualify
    qualify-IsShort m k q (track, share) h =
        let prefix = salt ++ codes ":" ++ codes track in
        let listed = rows_of scores track in
        let positive = positive_rows sha256 prefix (get_float thresholds track) listed in
        elim (Bool-cases (le share nought || is_empty positive)) [
          | inl e ↦ rw e (record {
            tracks = omega (arith, h.tracks);
            tops = h.tops;
            hotkeys = omega (arith, h.hotkeys);
          })
          | inr e ↦ rw e (record {
            tracks = omega (arith, h.tracks, length-put q.qualified track (take top_k positive));
            tops =
                All-put _ q.qualified track (take top_k positive) h.tops
                  (λ j p. length-take-le top_k positive) (length-take-le top_k positive);
            hotkeys = omega (
              arith,
              h.hotkeys,
              length-add_hotkeys positive q.active,
              length-positive_rows sha256 prefix (get_float thresholds track) listed,
            );
          })
        ]

    pub qualify_all-IsShort :
        (table : Dict F) (m k : ℕ) (q : Qualification F)
        → IsShort m k q
        → IsShort
            (m + length table)
            (k + rows_in scores table)
            (qualify_all sha256 scores thresholds salt q table)
    unfolding qualify_all
    qualify_all-IsShort [] m k q h = record {
      tracks = omega (arith, h.tracks);
      tops = h.tops;
      hotkeys = omega (arith, h.hotkeys);
    }
    qualify_all-IsShort (e ∷ table) m k q h =
        let next =
          qualify_all-IsShort table (m + 1) (k + length (rows_of scores e.0)) _
            (qualify-IsShort m k q e h) in
        record {
          tracks = omega (arith, next.tracks);
          tops = next.tops;
          hotkeys = omega (arith, next.hotkeys);
        }
