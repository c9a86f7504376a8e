-- ===== src/Examples/Scoring.antt =====
-- Scores of runs, and the matching of findings.
use phylax_subnet.Prelude.{Option, length, List, ℕ, ◌≤◌, ◌<◌, ◌*◌, ◌≡◌, [], ◌∷◌, arith, leb, ◌=ℕ◌}
use phylax_subnet.Number.Fixed.{Fixed, fixed_float}
use phylax_subnet.Scoring.{ScoreComponents}
use phylax_subnet.Matching.{count_hits}
use phylax_subnet.Matching.Counts.{IsMatching, AreDistinct, chosen, count_hits_bounds}
use phylax_subnet.Validator.Verdict.{median}
use phylax_subnet.Validator.Median.{count, median_balanced}

abbrev faint : ScoreComponents Fixed
faint = record {
  verdict_correctness = 1000;
  evidence_integrity = 90;
  solution_quality = 800;
  benchmark_agreement = 1000;
}

count_hits_bounds_example :
    ((ps : List (Option ℕ)) × IsMatching ◌=ℕ◌ (3 ∷ 3 ∷ 5 ∷ []) (3 ∷ 5 ∷ []) ps
      × AreDistinct (chosen ps)
      × (length (chosen ps) ≡ count_hits ◌=ℕ◌ (3 ∷ 3 ∷ 5 ∷ []) [] (3 ∷ 5 ∷ [])))
    × (count_hits ◌=ℕ◌ (3 ∷ 3 ∷ 5 ∷ []) [] (3 ∷ 5 ∷ []) ≤ 2)
    × (count_hits ◌=ℕ◌ (3 ∷ 3 ∷ 5 ∷ []) [] (3 ∷ 5 ∷ []) ≤ 3)
count_hits_bounds_example = count_hits_bounds ◌=ℕ◌ (3 ∷ 3 ∷ 5 ∷ []) (3 ∷ 5 ∷ [])

median_balanced_example :
    (3 ≤ 2 * count (λ y. leb y (median (2 ∷ 0 ∷ 2 ∷ []))) (2 ∷ 0 ∷ 2 ∷ []))
    × (3 < 2 * count (leb (median (2 ∷ 0 ∷ 2 ∷ []))) (2 ∷ 0 ∷ 2 ∷ []))
median_balanced_example = median_balanced (2 ∷ 0 ∷ 2 ∷ []) (omega arith)
