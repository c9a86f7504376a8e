-- ===== src/Quality/Range.antt =====
-- The range of `finding_quality` of phylax/analysis/quality.py.
use mathlib.Core.Path.{subst}
use phylax_subnet.Prelude.{[], ◌≡◌, is_empty, ◌=ℕ◌}
use phylax_subnet.Number.{Float, IsUnit, nought}
use phylax_subnet.Number.Laws.{IsFloat, nought-le-one, nought_refl}
use phylax_subnet.Value.{
  Value, arr, nil, or_else, iterate, returns, >>=-eq-returns, returned, by_branch, Conversions,
}
use phylax_subnet.Scoring.Bounds.{clip01-IsUnit}
use phylax_subnet.Matching.{count_hits}
use phylax_subnet.Quality.{delta_findings, dicts, matches, finding_quality}

module _ {F : Type 0} ⦃num : Float F⦄ (laws : IsFloat F) (conv : Conversions F) where
  open num use {lit}

  nought-IsUnit : IsUnit {F = F} nought
  nought-IsUnit = (nought_refl laws, nought-le-one laws)

  -- The quality of findings, where it is computed, lies in the unit interval.
  pub finding_quality-IsUnit :
      (expected reported observed : Value F) (q : F)
      → finding_quality conv expected reported observed ≡ returns q
      → IsUnit q
  unfolding finding_quality
  finding_quality-IsUnit expected reported observed q h =
      let (wanted, e1, h1) = >>=-eq-returns (delta_findings conv expected observed) _ h in
      by_branch (is_empty wanted) (λ k. subst IsUnit (returned _ _ k) nought-IsUnit)
        (λ k.
          let (listed, e2, h2) = >>=-eq-returns (iterate (or_else reported (arr nil))) _ k in
          by_branch (is_empty (dicts listed)) (λ k. subst IsUnit (returned _ _ k) nought-IsUnit)
            (by_branch (count_hits matches (dicts listed) [] wanted =ℕ 0)
              (λ k. subst IsUnit (returned _ _ k) nought-IsUnit)
              (λ k. subst IsUnit (returned _ _ k) (clip01-IsUnit laws _)))
            h2)
        h1
