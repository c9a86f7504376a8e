-- ===== src/Matching.antt =====
-- The greedy matching of reported to expected findings, the loop of `_match_counts` in
-- phylax/analysis/repositories.py and of `finding_quality` in phylax/analysis/quality.py.
pub mod Counts
use phylax_subnet.Prelude.{
  ℕ, zero, suc, ◌+◌, Bool, true, false, Option, none, some, List, [], ◌∷◌, ◌=ℕ◌, ◌||◌,
  if◌then◌else◌,
}

-- index in used
abbrev pub is_used : ℕ → List ℕ → Bool
is_used i [] = false
is_used i (j ∷ js) = j =ℕ i || is_used i js

module _ {E R : Type 0} (matcher : E → R → Bool) where
  -- The inner loop: the first unused candidate that matches, if there is one.
  unfoldable pub first_match : E → List ℕ → ℕ → List R → Option ℕ
  first_match e used i [] = none
  first_match e used i (r ∷ rs) =
      let later = first_match e used (i + 1) rs in
      if is_used i used then later else if matcher e r then some i else later

  -- The outer loop, from the positions used so far, to the number of hits.
  unfoldable pub count_hits : List R → List ℕ → List E → ℕ
  count_hits found used [] = 0
  count_hits found used (e ∷ es) = elim (first_match e used 0 found) [
    | none ↦ count_hits found used es
    | some i ↦ suc (count_hits found (i ∷ used) es)
  ]
