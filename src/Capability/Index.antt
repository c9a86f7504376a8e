-- ===== src/Capability/Index.antt =====
-- The index of phylax/analysis/capability.py against its taxonomy.
use phylax_subnet.Prelude.{
  ◌≡◌, refl, Bool, true, false, not, ◌&&◌, none, some, List, [], ◌∷◌, arith, All, All-weaken, any,
}
use phylax_subnet.Prelude.Text.{Text, codes, same, same_refl}
use phylax_subnet.Capability.{Permission, taxonomy, lookup, find_last}

abbrev named : Text → List Permission → Bool
named k ps = any (λ p. same (codes p.name) k) ps

abbrev names_distinct : List Permission → Bool
names_distinct [] = true
names_distinct (p ∷ ps) = not (named (codes p.name) ps) && names_distinct ps

find_last-none : (ps : List Permission) (k : Text) → named k ps ≡ false → find_last ps k ≡ none
unfolding find_last
find_last-none [] k h = refl
find_last-none (p ∷ ps) k h = ground (arith, find_last-none ps k)

find_last-All :
    (ps : List Permission)
    → names_distinct ps ≡ true
    → All (λ p. find_last ps (codes p.name) ≡ some p) ps
unfolding find_last
find_last-All [] h = tt
find_last-All (p ∷ ps) h = (
  ground (arith, find_last-none ps (codes p.name), same_refl (codes p.name)),
  All-weaken _ _ ps (λ q e. rw e) (find_last-All ps (ground arith)),
)

-- Every permission of the taxonomy is found under its name, with its own group and protection
-- level: no name of the taxonomy is listed twice.
pub lookup-taxonomy : All (λ p. lookup (codes p.name) ≡ some p) taxonomy
unfolding lookup same codes
lookup-taxonomy = find_last-All taxonomy refl
