-- ===== src/Scoring/Bounds.antt =====
-- The ranges of `clip01`, `combine` and `clamped_mcc`, of phylax/analysis/scoring.py.
use native.Mathlib.Nat.{mul-le-mul, le_trans}
use phylax_subnet.Prelude.{
  ◌⊎◌, ℕ, ◌+◌, ◌-◌, ◌*◌, ◌^◌, ◌≤◌, ◌≡◌, refl, inl, inr, true, false, not, arith, leb, Bool-cases,
}
use phylax_subnet.Number.{Float, ◌≼◌, nought, one, equal, IsUnit}
use phylax_subnet.Number.Laws.{
  exact, IsFloat, nought-le-one, nought_refl, lit_nonneg, max_le, le-max, lt_of_lt_of_le,
}
use phylax_subnet.Scoring.{
  ScoreComponents, clip01, evidence_gate, combine, covariance, mcc_denominator, mcc, clamped_mcc,
}

-- The product under the root of `mcc`.
abbrev pub mcc_square : ℕ → ℕ → ℕ → ℕ → ℕ
mcc_square tp tn fp fn = (tp + fp) * (tp + fn) * (tn + fp) * (tn + fn)

-- Up to 8192 tasks every product that `mcc` forms is an exact `float`.
abbrev pub IsSmall : ℕ → ℕ → ℕ → ℕ → Type 0
IsSmall tp tn fp fn = tp + tn + fp + fn ≤ 2 ^ 13

square_le : (tp tn fp fn : ℕ) → (tp * tn - fp * fn) * (tp * tn - fp * fn) ≤ mcc_square tp tn fp fn
square_le tp tn fp fn =
    let low : tp * tn - fp * fn ≤ tp * tn = omega arith in
    let first : tp * tp ≤ (tp + fp) * (tp + fn) = mul-le-mul (omega arith) (omega arith) in
    let second : tn * tn ≤ (tn + fp) * (tn + fn) = mul-le-mul (omega arith) (omega arith) in
    omega (arith, mul-le-mul low low, mul-le-mul first second)

three_le : (a b c n : ℕ) → a ≤ n → b ≤ n → c ≤ n → a * b * c ≤ n * n * n
three_le a b c n h k l = mul-le-mul (mul-le-mul h k) l

four_le : (a b c d n : ℕ) → a ≤ n → b ≤ n → c ≤ n → d ≤ n → a * b * c * d ≤ n * n * n * n
four_le a b c d n h k l m = mul-le-mul (three_le a b c n h k l) m

module _ {F : Type 0} ⦃num : Float F⦄ (laws : IsFloat F) where
  open num use {lit, negative, add, mul, div, sqrt, le, lt}
  open laws use {le_of_lt, mul-lit, lt-eq-not-le, refl_of_le, sqrt_ge, sqrt_le}

  -- Every `float` at all, NaN and the infinities included, is clipped into the unit interval.
  pub clip01-IsUnit : (x : F) → IsUnit (clip01 x)
  unfolding clip01
  clip01-IsUnit x = ground (
    arith,
    nought-le-one laws,
    nought_refl laws,
    le_of_lt x one,
    le_of_lt nought x,
    refl_of_le nought one,
  )

  pub not_lt : (x y : F) → y ≼ x → lt x y ≡ false
  not_lt x y h = let (ry, rx) = refl_of_le y x h in ground (arith, lt-eq-not-le x y rx ry)

  -- Clipping keeps above what lies strictly between 0.0 and 1.0.
  pub le-clip01 : (a x : F) → lt nought a ≡ true → a ≼ one → a ≼ x → a ≼ clip01 x
  unfolding clip01
  le-clip01 a x p h k = elim (Bool-cases (lt x one)) [
    | inl e ↦ rw (e, lt_of_lt_of_le laws nought a x p k) k
    | inr e ↦ rw (e, lt_of_lt_of_le laws nought a one p h) h
  ]

  pub denominator-lit :
      (tp tn fp fn : ℕ)
      → IsSmall tp tn fp fn
      → mcc_denominator tp tn fp fn ≡ sqrt (lit (mcc_square tp tn fp fn) 1)
  unfolding mcc_denominator
  denominator-lit tp tn fp fn h =
      let a = tp + fp in
      let b = tp + fn in
      let c = tn + fp in
      let d = tn + fn in
      let n : ℕ = 2 ^ 13 in
      let p : a ≤ n = omega arith in
      let q : b ≤ n = omega arith in
      let r : c ≤ n = omega arith in
      let s : d ≤ n = omega arith in
      rw (
        mcc_denominator,
        mul-lit a b (le_trans (mul-le-mul p q) (omega arith)),
        mul-lit (a * b) c (le_trans (three_le a b c n p q r) (omega arith)),
        mul-lit (a * b * c) d (le_trans (four_le a b c d n p q r s) (omega arith)),
      )

  square_exact : (tp tn fp fn : ℕ) → IsSmall tp tn fp fn → mcc_square tp tn fp fn ≤ exact
  square_exact tp tn fp fn h =
      le_trans
        (four_le (tp + fp) (tp + fn) (tn + fp) (tn + fn) (2 ^ 13) (omega arith) (omega arith)
          (omega arith) (omega arith))
        (omega arith)

  -- The root is a number between the numerator of `mcc` and 2 ^ 53.
  pub denominator_bounds :
      (tp tn fp fn : ℕ)
      → IsSmall tp tn fp fn
      → (lit (tp * tn - fp * fn) 1 ≼ mcc_denominator tp tn fp fn)
        × (mcc_denominator tp tn fp fn ≼ lit (mcc_square tp tn fp fn) 1)
  denominator_bounds tp tn fp fn h =
      let fits = square_exact tp tn fp fn h in
      rw (denominator-lit tp tn fp fn h) (
        sqrt_ge (tp * tn - fp * fn) (mcc_square tp tn fp fn) (square_le tp tn fp fn) fits,
        sqrt_le (mcc_square tp tn fp fn) fits,
      )

  -- Where the root is not zero, it is positive.
  denominator_pos : (d : F) → nought ≼ d → equal d nought ≡ false → lt nought d ≡ true
  denominator_pos d h e =
      ground (arith, lt-eq-not-le nought d (nought_refl laws) (refl_of_le _ _ h).1)

  quotient_le :
      (tp tn fp fn : ℕ) (d : F)
      → lit (tp * tn - fp * fn) 1 ≼ d
      → d ≼ lit exact 1
      → lt nought d ≡ true
      → div (covariance tp tn fp fn) d ≼ one
  quotient_le tp tn fp fn d h k p = elim (Bool-cases (leb (fp * fn) (tp * tn))) [
    | inl e ↦ rw e (laws.div_unit _ d (lit_nonneg laws _ 1 (omega arith)) h p k).1
    | inr e ↦ rw e (laws.le_trans _ _ _ (laws.div_negative _ d p k) (nought-le-one laws))
  ]

  -- Up to 8192 tasks the clamped Matthews correlation lies in the unit interval, although its root
  -- and its quotient are rounded.
  pub clamped_mcc-IsUnit :
      (tp tn fp fn : ℕ) → IsSmall tp tn fp fn → IsUnit (clamped_mcc {F = F} tp tn fp fn)
  unfolding clamped_mcc mcc
  clamped_mcc-IsUnit tp tn fp fn h =
      let d : F = mcc_denominator tp tn fp fn in
      let (low, high) = denominator_bounds tp tn fp fn h in
      let big : d ≼ lit exact 1 = laws.le_trans _ _ _ high (
        laws.lit_mono _ 1 exact 1 (omega arith) (omega arith)
          (omega (arith, square_exact tp tn fp fn h))) in
      let pos : nought ≼ d = laws.le_trans _ _ _ (lit_nonneg laws _ 1 (omega arith)) low in
      elim (Bool-cases (equal d nought)) [
        | inl e ↦ rw e (
          le-max laws _ _ (nought_refl laws),
          max_le laws _ _ _ (nought-le-one laws) (nought-le-one laws),
        )
        | inr e ↦ rw e (
          le-max laws _ _ (nought_refl laws),
          max_le laws _ _ _ (nought-le-one laws)
              (quotient_le tp tn fp fn d low big (denominator_pos d pos e)),
        )
      ]

  -- The score of a run lies in the unit interval whatever its components are, the gate is passed
  -- exactly when the evidence is not below 0.10, and a run that fails the gate scores 0.0.
  pub combine_gate :
      (c : ScoreComponents F)
      → IsUnit (combine c).score
        × ((combine c).gate_passed ≡ not (lt c.evidence_integrity evidence_gate))
        × (((combine c).gate_passed ≡ true) ⊎ ((combine c).score ≡ nought))
  unfolding combine
  combine_gate c = elim (Bool-cases (lt c.evidence_integrity evidence_gate)) [
    | inl e ↦ rw e ((nought_refl laws, nought-le-one laws), refl, inr refl)
    | inr e ↦ rw e (clip01-IsUnit _, refl, inl refl)
  ]
