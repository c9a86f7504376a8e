-- ===== src/Prelude/Names.antt =====
-- Lists of names: which are in a list, which lists share none, and which repeat none.
use mathlib.Core.Path.{◌≡◌, refl}
use mathlib.Core.Bool.{false, ◌||◌}
use mathlib.Core.List.{List, [], ◌∷◌, ◌++◌}
use native.Mathlib.Omega.{arith}
use Prim.Native.String.{String}
use text.Mathlib.TextEquality.{eq_iff}
use phylax_subnet.Prelude.Lists.{All}
use phylax_subnet.Prelude.Dicts.{Dict, keys, member}

-- None of the first names is among the others.
abbrev pub IsApart : List String → List String → Type 0
IsApart xs ys = All (λ x. member x ys ≡ false) xs

abbrev pub IsDistinct : List String → Type 0
IsDistinct [] = Unit
IsDistinct (x ∷ xs) = (member x xs ≡ false) × IsDistinct xs

pub member-append :
    (k : String) (xs ys : List String) → member k (xs ++ ys) ≡ (member k xs || member k ys)
member-append k [] ys = refl
member-append k (x ∷ xs) ys = ground (arith, member-append k xs ys)

pub keys-append {ℓ} : {V : Type ℓ} (d e : Dict V) → keys (d ++ e) ≡ keys d ++ keys e
keys-append [] e = refl
keys-append ((k, v) ∷ d) e = rw (keys-append d e) refl

pub IsApart-cons :
    (xs ys : List String) (y : String) → IsApart xs ys → member y xs ≡ false → IsApart xs (y ∷ ys)
IsApart-cons [] ys y h m = tt
IsApart-cons (x ∷ xs) ys y (a, h) m =
    (ground (arith, eq_iff x y, eq_iff y x), IsApart-cons xs ys y h (ground arith))

pub IsApart-snoc :
    (xs ys : List String) (y : String)
    → IsApart xs ys
    → member y xs ≡ false
    → IsApart xs (ys ++ (y ∷ []))
IsApart-snoc [] ys y h m = tt
IsApart-snoc (x ∷ xs) ys y (a, h) m = (
  ground (arith, eq_iff x y, eq_iff y x, member-append x ys (y ∷ [])),
  IsApart-snoc xs ys y h (ground arith),
)

pub IsDistinct-snoc :
    (xs : List String) (y : String)
    → IsDistinct xs
    → member y xs ≡ false
    → IsDistinct (xs ++ (y ∷ []))
IsDistinct-snoc [] y d m = (refl, tt)
IsDistinct-snoc (x ∷ xs) y (a, d) m = (
  ground (arith, eq_iff x y, eq_iff y x, member-append x xs (y ∷ [])),
  IsDistinct-snoc xs y d (ground arith),
)
