-- ===== src/Value/Int.antt =====
-- Sums and comparisons of Python's `int`.
use phylax_subnet.Prelude.{ℕ, suc, ◌+◌, ◌-◌, Bool, false, leb, if◌then◌else◌}
use phylax_subnet.Value.{ℤ, pos, negsuc}

abbrev pub pos_part : ℤ → ℕ
pos_part (pos n) = n
pos_part (negsuc n) = 0

abbrev pub neg_part : ℤ → ℕ
neg_part (pos n) = 0
neg_part (negsuc n) = suc n

-- a - b, as an integer.
abbrev pub sub_ℕ : ℕ → ℕ → ℤ
sub_ℕ a b = if leb b a then pos (a - b) else negsuc (b - a - 1)

infixl 65 ◌+ℤ◌
unfoldable pub ◌+ℤ◌ : ℤ → ℤ → ℤ
a +ℤ b = sub_ℕ (pos_part a + pos_part b) (neg_part a + neg_part b)

-- n <= a
abbrev pub reaches : ℕ → ℤ → Bool
reaches n (pos m) = leb n m
reaches n (negsuc m) = false
