-- ===== src/Number/Laws.antt =====
-- What the program may rely on of IEEE 754 doubles. The arithmetic is rounded, so no law of a field
-- is among these: only the order away from NaN, the monotony of correctly rounded operations, and
-- that whole numbers up to 2 ^ 53 are exact.
use phylax_subnet.Prelude.{
  ℕ, ◌+◌, ◌*◌, ◌^◌, ◌≤◌, ◌<◌, ◌≡◌, true, not, ◌⊎◌, inl, inr, List, [], ◌∷◌, arith, length, All,
  Bool-cases,
}
use mathlib.Core.Path.{subst}
use phylax_subnet.Number.{Float, ◌≼◌, nought, one, max, min, sum_from, sum, IsUnit}

abbrev pub exact : ℕ
exact = 2 ^ 53

module _ {F : Type 0} ⦃num : Float F⦄ where
  open num use {lit, negative, add, sub, mul, div, sqrt, le, lt}

  -- between 0 and 2 ^ 53, so neither infinite nor NaN
  abbrev pub IsModest : F → Type 0
  IsModest x = (nought ≼ x) × (x ≼ lit exact 1)

module _ (F : Type 0) ⦃num : Float F⦄ where
  open num use {lit, negative, add, sub, mul, div, sqrt, le, lt}

  pub record IsFloat : Type 0 where
    pub refl_of_le : (x y : F) → x ≼ y → (x ≼ x) × (y ≼ y)
    pub le_trans : (x y z : F) → x ≼ y → y ≼ z → x ≼ z
    pub lt-eq-not-le : (x y : F) → x ≼ x → y ≼ y → lt x y ≡ not (le y x)
    pub le_of_lt : (x y : F) → lt x y ≡ true → x ≼ y
    pub le_total : (x y : F) → x ≼ x → y ≼ y → (x ≼ y) ⊎ (y ≼ x)
    pub lit_mono : (n d m e : ℕ) → 0 < d → 0 < e → n * e ≤ m * d → lit n d ≼ lit m e
    pub lit_lt : (n m : ℕ) → n < m → m ≤ exact → lt (lit n 1) (lit m 1) ≡ true
    pub lit_pos : (n d : ℕ) → 0 < n → 0 < d → d ≤ 1000 → lt nought (lit n d) ≡ true
    pub negative_le : (n : ℕ) → negative n ≼ nought
    pub add-lit : (n m : ℕ) → n + m ≤ exact → add (lit n 1) (lit m 1) ≡ lit (n + m) 1
    pub mul-lit : (n m : ℕ) → n * m ≤ exact → mul (lit n 1) (lit m 1) ≡ lit (n * m) 1
    pub add_mono : (x y u v : F) → nought ≼ x → x ≼ y → nought ≼ u → u ≼ v → add x u ≼ add y v
    pub le-add_right : (x y : F) → nought ≼ x → nought ≼ y → x ≼ add x y
    pub le-add_left : (x y : F) → nought ≼ x → nought ≼ y → y ≼ add x y
    pub sub_unit : (x : F) → IsUnit x → IsUnit (sub one x)
    pub mul_shrinks : (x y : F) → IsModest x → IsUnit y → (nought ≼ mul x y) × (mul x y ≼ x)
    pub div_unit :
        (x y : F) → nought ≼ x → x ≼ y → lt nought y ≡ true → y ≼ lit exact 1 → IsUnit (div x y)
    pub div_shrinks :
        (x : F) (n : ℕ)
        → IsModest x
        → 0 < n
        → n ≤ exact
        → (nought ≼ div x (lit n 1)) × (div x (lit n 1) ≼ x)
    pub div_negative :
        (n : ℕ) (y : F) → lt nought y ≡ true → y ≼ lit exact 1 → div (negative n) y ≼ nought
    pub sqrt_ge : (n m : ℕ) → n * n ≤ m → m ≤ exact → lit n 1 ≼ sqrt (lit m 1)
    pub sqrt_le : (m : ℕ) → m ≤ exact → sqrt (lit m 1) ≼ lit m 1

module _ {F : Type 0} ⦃num : Float F⦄ (laws : IsFloat F) where
  open num use {lit, add, le, lt}
  open laws use {
    refl_of_le, le_trans, lt-eq-not-le, le_of_lt, le_total, lit_mono, add-lit, add_mono,
  }

  pub nought-le-one : ◌≼◌ {F = F} nought one
  nought-le-one = lit_mono 0 1 1 1 (omega arith) (omega arith) (omega arith)

  pub nought_refl : ◌≼◌ {F = F} nought nought
  nought_refl = (refl_of_le _ _ nought-le-one).0

  pub lit_nonneg : (n d : ℕ) → 0 < d → nought ≼ lit n d
  lit_nonneg n d h = lit_mono 0 1 n d (omega arith) h (omega arith)

  pub lit-IsUnit : (n d : ℕ) → 0 < d → n ≤ d → IsUnit (lit n d)
  lit-IsUnit n d h k = (lit_nonneg n d h, lit_mono n d 1 1 h (omega arith) (omega arith))

  -- Python's `min` and `max` with a first argument that is a number keep to its side of the other.
  pub min_le : (x y : F) → x ≼ x → min x y ≼ x
  min_le x y h = elim (Bool-cases (lt y x)) [ inl e ↦ rw e (le_of_lt y x e) | inr e ↦ rw e h ]

  pub le-max : (x y : F) → x ≼ x → x ≼ max x y
  le-max x y h = elim (Bool-cases (lt x y)) [ inl e ↦ rw e (le_of_lt x y e) | inr e ↦ rw e h ]

  pub max_le : (x y z : F) → x ≼ z → y ≼ z → max x y ≼ z
  max_le x y z h k = elim (Bool-cases (lt x y)) [ inl e ↦ rw e k | inr e ↦ rw e h ]

  pub le-sum_from :
      (xs : List F) (acc : F) → nought ≼ acc → All (λ x. nought ≼ x) xs → acc ≼ sum_from acc xs
  le-sum_from [] acc h k = (refl_of_le _ _ h).1
  le-sum_from (x ∷ xs) acc h (p, k) =
      let grown = laws.le-add_right acc x h p in
      le_trans _ _ _ grown (le-sum_from xs (add acc x) (le_trans _ _ _ h grown) k)

  pub nought-le-sum : (xs : List F) → All (λ x. nought ≼ x) xs → nought ≼ sum xs
  nought-le-sum xs h = le-sum_from xs nought nought_refl h

  pub lt_of_lt_of_le : (x y z : F) → lt x y ≡ true → y ≼ z → lt x z ≡ true
  lt_of_lt_of_le x y z h k =
      let low = le_of_lt x y h in
      let (rx, ry) = refl_of_le x y low in
      let rz = (refl_of_le y z k).1 in
      ground (arith, lt-eq-not-le x y rx ry, lt-eq-not-le x z rx rz, le_trans y z x)

  -- A sum of n values of at most c is at most n * c.
  pub sum_from-le_bound :
      (xs : List F) (acc : F) (c b : ℕ)
      → nought ≼ acc
      → acc ≼ lit b 1
      → b + length xs * c ≤ exact
      → All (λ x. (nought ≼ x) × (x ≼ lit c 1)) xs
      → sum_from acc xs ≼ lit (b + length xs * c) 1
  sum_from-le_bound [] acc c b h k fits u =
      subst (λ n. acc ≼ lit n 1) (let e : b ≡ b + 0 * c = omega arith in e) k
  sum_from-le_bound (x ∷ xs) acc c b h k fits (u, us) =
      let e : b + length (x ∷ xs) * c ≡ (b + c) + length xs * c = grind arith in
      let up : add acc x ≼ lit (b + c) 1 =
        rw (← add-lit b c (grind arith)) (add_mono acc (lit b 1) x (lit c 1) h k u.0 u.1) in
      rw e (
        sum_from-le_bound xs (add acc x) c (b + c)
          (le_trans _ _ _ h (laws.le-add_right acc x h u.0)) up (grind arith) us)

  non_negative :
      (c : ℕ) (xs : List F) → All (λ x. (nought ≼ x) × (x ≼ lit c 1)) xs → All (λ x. nought ≼ x) xs
  non_negative c [] h = tt
  non_negative c (x ∷ xs) (w, h) = (w.0, non_negative c xs h)

  pub sum_bounds_above :
      (c : ℕ) (xs : List F) (acc : F)
      → nought ≼ acc
      → All (λ x. (nought ≼ x) × (x ≼ lit c 1)) xs
      → acc ≼ sum_from acc xs
  sum_bounds_above c xs acc h k = le-sum_from xs acc h (non_negative c xs k)

  pub sum_bounds :
      (xs : List F) (acc : F) (c b : ℕ)
      → nought ≼ acc
      → acc ≼ lit b 1
      → b + length xs * c ≤ exact
      → All (λ x. (nought ≼ x) × (x ≼ lit c 1)) xs
      → (nought ≼ sum_from acc xs) × (sum_from acc xs ≼ lit (b + length xs * c) 1)
  sum_bounds xs acc c b h k fits u =
      (le_trans _ _ _ h (sum_bounds_above c xs acc h u), sum_from-le_bound xs acc c b h k fits u)

  -- Each summand is at most the sum.
  pub parts_of_sum :
      (c : ℕ) (xs : List F) (acc : F)
      → nought ≼ acc
      → All (λ x. (nought ≼ x) × (x ≼ lit c 1)) xs
      → All (λ x. (nought ≼ x) × (x ≼ sum_from acc xs)) xs
  parts_of_sum c [] acc p h = tt
  parts_of_sum c (x ∷ xs) acc p (w, h) =
      let grown = le_trans _ _ _ p (laws.le-add_right acc x p w.0) in
      let above = sum_bounds_above c xs (add acc x) grown h in
      (
        (w.0, le_trans _ _ _ (laws.le-add_left acc x p w.0) above),
        parts_of_sum c xs (add acc x) grown h,
      )

  pub sum-le-length : (xs : List F) → length xs ≤ exact → All IsUnit xs → sum xs ≼ lit (length xs) 1
  sum-le-length xs b u =
      subst (λ n. sum xs ≼ lit n 1) (let e : 0 + length xs * 1 ≡ length xs = omega arith in e)
        (sum_from-le_bound xs nought 1 0 nought_refl nought_refl (omega arith) u)

  -- The mean of n values of the unit interval lies in it.
  pub mean-IsUnit :
      (xs : List F)
      → 0 < length xs
      → length xs ≤ exact
      → All IsUnit xs
      → IsUnit (num.div (sum xs) (lit (length xs) 1))
  mean-IsUnit xs p b u =
      laws.div_unit (sum xs) (lit (length xs) 1) (nought-le-sum xs (non_negative 1 xs u))
        (sum-le-length xs b u) (laws.lit_lt 0 (length xs) p b)
        (lit_mono (length xs) 1 exact 1 (omega arith) (omega arith) (omega arith))
