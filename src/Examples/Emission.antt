-- ===== src/Examples/Emission.antt =====
-- The emission weights of two miners, of which one stays below the threshold.
use phylax_subnet.Prelude.{String, List, [], ◌∷◌, arith, Dict, get, All, refl}
use phylax_subnet.Number.{IsUnit}
use phylax_subnet.Number.Fixed.{Fixed, fixed_float, Fixed-IsFloat}
use phylax_subnet.Emission.{Row, compute_emission_weights}
use phylax_subnet.Emission.Qualified.{Keyed, IsQualifier, weights-IsQualifier}
use phylax_subnet.Emission.Weights.{weights-IsUnit}
use phylax_subnet.Emission.Range.{IsBounded}
use phylax_subnet.Examples.{digest}

abbrev scores : Dict (List (Row Fixed))
scores = ("skills", ("alice", 900) ∷ ("bob", 100) ∷ []) ∷ ("packages", ("bob", 300) ∷ []) ∷ []

abbrev thresholds : Dict Fixed
thresholds = ("skills", 200) ∷ ("packages", 400) ∷ []

weights-IsQualifier_example :
    Keyed
      (IsQualifier {F = Fixed} scores thresholds)
      (compute_emission_weights {F = Fixed} digest scores ("bob" ∷ []) thresholds [])
weights-IsQualifier_example = weights-IsQualifier digest scores ("bob" ∷ []) thresholds []

weights-IsUnit_example :
    All
      (λ (e : String × Fixed). IsUnit {F = Fixed} e.1)
      (compute_emission_weights {F = Fixed} digest scores ("bob" ∷ []) thresholds [])
unfolding get
weights-IsUnit_example =
    weights-IsUnit Fixed-IsFloat digest scores ("bob" ∷ []) thresholds [] (omega arith)

abbrev weights : Dict Fixed
weights = ("alice", 600) ∷ ("bob", 400) ∷ []

weights-IsBounded : IsBounded {F = Fixed} 2 1 weights
weights-IsBounded = record { short = omega arith; within = ((refl, refl), ((refl, refl), tt)) }
