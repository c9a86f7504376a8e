-- ===== src/Number/Fixed.antt =====
-- An instance of the operations: unsigned fixed-point numbers in thousandths, rounded down. A result below
-- zero is held at zero.
use native.Mathlib.Decide.{dec_le}
use native.Mathlib.Nat.{
  le-div_iff_mul-le, div-mul-le_self, mul-le-mul, mul-le-mul_right, le_of_mul-le-mul_right,
  div-le_of_le-mul, div-one, zero-div,
}
use mathlib.Core.Path.{subst}
use phylax_subnet.Prelude.{
  ℕ, zero, suc, ◌+◌, ◌-◌, ◌*◌, ◌/◌, ◌≤◌, ◌<◌, ◌≡◌, refl, true, arith, leb, ltb, if◌then◌else◌,
}
use phylax_subnet.Number.{Float}
use phylax_subnet.Number.Laws.{IsFloat}

-- the greatest r up to k with r * r up to n
root_up_to : ℕ → ℕ → ℕ
root_up_to n zero = 0
root_up_to n (suc k) = let rest = root_up_to n k in if leb (suc k * suc k) n then suc k else rest

root_ge : (n k j : ℕ) → j ≤ k → j * j ≤ n → j ≤ root_up_to n k
unfolding root_up_to
root_ge n zero j h q = h
root_ge n (suc k) j h q = elim (dec_le j k) [
  | yes below ↦ grind (arith, root_ge n k j below q)
  | no above ↦ let e : j ≡ suc k = omega arith in ground (arith, subst (λ x. x * x ≤ n) e q)
]

root_square : (n k : ℕ) → root_up_to n k * root_up_to n k ≤ n
unfolding root_up_to
root_square n zero = omega arith
root_square n (suc k) = ground (arith, root_square n k)

abbrev pub Fixed : Type 0
Fixed = ℕ

unfoldable pub fixed_root : ℕ → ℕ
unfolding root_up_to
fixed_root x = root_up_to (x * 1000) (x * 1000)

instance abbrev pub fixed_float : Float Fixed
fixed_float = record {
  lit = λ n d. n * 1000 / d;
  negative = λ n. 0;
  add = λ x y. x + y;
  sub = λ x y. x - y;
  mul = λ x y. x * y / 1000;
  div = λ x y. x * 1000 / y;
  sqrt = fixed_root;
  le = leb;
  lt = ltb;
}

le→leb : (a b : ℕ) → a ≤ b → leb a b ≡ true
le→leb a b h = ground arith

lt→ltb : (a b : ℕ) → a < b → ltb a b ≡ true
lt→ltb a b h = ground arith

leb→le : (a b : ℕ) → leb a b ≡ true → a ≤ b
leb→le a b h = ground arith

square_gap : (m : ℕ) → (m * 1000 + 1) * (m * 1000 + 1) ≤ m * 1000 * 1000 → ⊥
square_gap zero h = omega arith
square_gap (suc m) h = grind arith

mul_shrinks_fixed : (x y : ℕ) → y ≤ 1000 → x * y / 1000 ≤ x
mul_shrinks_fixed x y h = div-le_of_le-mul 1000 (grind arith)

mul_lit_fixed : (n m : ℕ) → n * 1000 * (m * 1000) / 1000 ≡ n * m * 1000
mul_lit_fixed n m = omega arith

div_unit_fixed : (x y : ℕ) → x ≤ y → x * 1000 / y ≤ 1000
div_unit_fixed x y h = div-le_of_le-mul y (grind arith)

div_shrinks_fixed : (x n : ℕ) → 0 < n → x * 1000 / (n * 1000) ≤ x
div_shrinks_fixed x n h = div-le_of_le-mul (n * 1000) (grind arith)

lit_mono_fixed :
    (n d m e : ℕ) → 0 < d → 0 < e → n * e ≤ m * d → leb (n * 1000 / d) (m * 1000 / e) ≡ true
lit_mono_fixed n d m e p q h =
    let r = n * 1000 / d in
    let scaled : r * d * e ≤ n * 1000 * e = mul-le-mul_right e (div-mul-le_self (n * 1000) d) in
    le→leb _ _ ((le-div_iff_mul-le q).1 (le_of_mul-le-mul_right {k = d} (omega arith) p))

sqrt_ge_fixed : (n m : ℕ) → n * n ≤ m → leb (n * 1000) (fixed_root (m * 1000)) ≡ true
unfolding fixed_root
sqrt_ge_fixed n m h =
    le→leb _ _ (root_ge (m * 1000 * 1000) (m * 1000 * 1000) (n * 1000) (grind arith) (omega arith))

sqrt_le_fixed : (m : ℕ) → leb (fixed_root (m * 1000)) (m * 1000) ≡ true
unfolding fixed_root
sqrt_le_fixed m =
    le→leb _ _ (below (root_up_to (m * 1000 * 1000) (m * 1000 * 1000)) (root_square _ _))
  where
    below : (r : ℕ) → r * r ≤ m * 1000 * 1000 → r ≤ m * 1000
    below r h = elim (dec_le r (m * 1000)) [
      | yes p ↦ p
      | no q ↦
          let big : (m * 1000 + 1) * (m * 1000 + 1) ≤ r * r =
            mul-le-mul {n₁ = m * 1000 + 1} {m₁ = m * 1000 + 1} {n₂ = r} {m₂ = r} (omega arith)
              (omega arith) in
          absurd (square_gap m (omega arith))
    ]

pub Fixed-IsFloat : IsFloat Fixed
Fixed-IsFloat = record {
  refl_of_le = λ x y h. ground arith;
  le_trans = λ x y z h k. ground arith;
  lt-eq-not-le = λ x y h k. ground arith;
  le_of_lt = λ x y h. ground arith;
  le_total = λ x y h k. ground arith;
  lit_mono = lit_mono_fixed;
  lit_lt = λ n m h k. ground arith;
  lit_pos = λ n d h k l. lt→ltb _ _ ((le-div_iff_mul-le k).1 (omega arith));
  negative_le = λ n. ground arith;
  add-lit = λ n m h. ground arith;
  mul-lit = λ n m h. simp div-one (mul_lit_fixed n m);
  add_mono = λ x y u v a b c d. ground arith;
  le-add_right = λ x y h k. ground arith;
  le-add_left = λ x y h k. ground arith;
  sub_unit = λ x u. ground arith;
  mul_shrinks = λ x y m u. (ground arith, le→leb _ _ (mul_shrinks_fixed x y (leb→le _ _ u.1)));
  div_unit = λ x y h k l m. (ground arith, le→leb _ _ (div_unit_fixed x y (leb→le _ _ k)));
  div_shrinks =
      λ x n m p q. (ground arith, rw (div-one (n * 1000)) (le→leb _ _ (div_shrinks_fixed x n p)));
  div_negative = λ n y h k. rw zero-div refl;
  sqrt_ge = λ n m h k. rw (div-one (n * 1000), div-one (m * 1000)) (sqrt_ge_fixed n m h);
  sqrt_le = λ m h. rw (div-one (m * 1000)) (sqrt_le_fixed m);
}
