-- ===== src/Number.antt =====
-- The `float` values of the program, through the operations that it applies to them.
pub mod Laws
pub mod Fixed
use phylax_subnet.Prelude.{ℕ, ◌≡◌, Bool, true, ◌&&◌, List, [], ◌∷◌, if◌then◌else◌}

-- `lit n d` is the `float` nearest to n / d: a literal, a converted `int`, or the true division of
-- two `int`s. `negative n` is the `float` of the `int` -(n + 1).
pub record Float (F : Type 0) : Type 0 where
  pub lit : ℕ → ℕ → F
  pub negative : ℕ → F
  pub add : F → F → F
  pub sub : F → F → F
  pub mul : F → F → F
  pub div : F → F → F
  pub sqrt : F → F
  pub le : F → F → Bool
  pub lt : F → F → Bool

module _ {F : Type 0} ⦃num : Float F⦄ where
  open num use {lit, add, le, lt}

  infix 4 ◌≼◌
  abbrev pub ◌≼◌ : F → F → Type 0
  x ≼ y = le x y ≡ true

  abbrev pub nought : F
  nought = lit 0 1

  abbrev pub one : F
  one = lit 1 1

  -- x == y
  abbrev pub equal : F → F → Bool
  equal x y = le x y && le y x

  -- max(x, y): the first one unless the second is greater
  abbrev pub max : F → F → F
  max x y = if lt x y then y else x

  -- min(x, y): the first one unless the second is less
  abbrev pub min : F → F → F
  min x y = if lt y x then y else x

  -- the left fold of `sum`, from a start value
  abbrev pub sum_from : F → List F → F
  sum_from acc [] = acc
  sum_from acc (x ∷ xs) = sum_from (add acc x) xs

  abbrev pub sum : List F → F
  sum xs = sum_from nought xs

  abbrev pub IsUnit : F → Type 0
  IsUnit x = (nought ≼ x) × (x ≼ one)
