-- ===== src/Emission/Sort.antt =====
-- A stable sort, as `sorted` with a key is, and the order of `str`.
use phylax_subnet.Prelude.{
  ◌+◌, ◌≡◌, refl, inl, inr, Bool, true, false, List, [], ◌∷◌, arith, ltb, ◌=ℕ◌, if◌then◌else◌, All,
  length, Bool-cases,
}
use phylax_subnet.Prelude.Text.{Text}

module _ {A : Type 0} where
  unfoldable pub insert : (A → A → Bool) → A → List A → List A
  insert before x [] = x ∷ []
  insert before x (y ∷ ys) = if before y x then y ∷ insert before x ys else x ∷ y ∷ ys

  unfoldable pub sort : (A → A → Bool) → List A → List A
  unfolding insert
  sort before [] = []
  sort before (x ∷ xs) = insert before x (sort before xs)

  pub All-insert :
      (P : A → Type 0) (before : A → A → Bool) (x : A) (xs : List A)
      → P x
      → All P xs
      → All P (insert before x xs)
  unfolding insert
  All-insert P before x [] p h = (p, tt)
  All-insert P before x (y ∷ ys) p (q, h) = elim (Bool-cases (before y x)) [
    | inl e ↦ rw e (q, All-insert P before x ys p h)
    | inr e ↦ rw e (p, (q, h))
  ]

  pub All-sort :
      (P : A → Type 0) (before : A → A → Bool) (xs : List A) → All P xs → All P (sort before xs)
  unfolding sort
  All-sort P before [] h = tt
  All-sort P before (x ∷ xs) (p, h) =
      All-insert P before x (sort before xs) p (All-sort P before xs h)

  pub length-insert :
      (before : A → A → Bool) (x : A) (xs : List A) → length (insert before x xs) ≡ length xs + 1
  unfolding insert
  length-insert before x [] = omega arith
  length-insert before x (y ∷ ys) = ground (arith, length-insert before x ys)

  pub length-sort : (before : A → A → Bool) (xs : List A) → length (sort before xs) ≡ length xs
  unfolding sort
  length-sort before [] = refl
  length-sort before (x ∷ xs) =
      omega (arith, length-insert before x (sort before xs), length-sort before xs)

unfoldable pub text_lt : Text → Text → Bool
text_lt s [] = false
text_lt [] (b ∷ t) = true
text_lt (a ∷ s) (b ∷ t) = if a =ℕ b then text_lt s t else ltb a b
