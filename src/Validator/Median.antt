-- ===== src/Validator/Median.antt =====
-- The consensus of the repetitions: the last lines of `_task_verdict` of neurons/validator.py.
use phylax_subnet.Prelude.{
  ℕ, zero, suc, ◌+◌, ◌*◌, ◌-◌, ◌/◌, ◌≤◌, ◌<◌, ◌≡◌, refl, Bool, List, [], ◌∷◌, arith, ltb, leb,
  length, Bool-cases, inl, inr, if◌then◌else◌, All, All-weaken,
}
use phylax_subnet.Emission.Sort.{insert, sort, length-sort, All-insert}
use phylax_subnet.Validator.Verdict.{at_index, median}

-- How many members pass the test.
unfoldable pub count : (ℕ → Bool) → List ℕ → ℕ
count test [] = 0
count test (x ∷ xs) = let rest = count test xs in if test x then rest + 1 else rest

count-insert :
    (test : ℕ → Bool) (x : ℕ) (xs : List ℕ) → count test (insert ltb x xs) ≡ count test (x ∷ xs)
unfolding count insert
count-insert test x [] = refl
count-insert test x (y ∷ ys) = ground (arith, count-insert test x ys)

count-sort : (test : ℕ → Bool) (xs : List ℕ) → count test (sort ltb xs) ≡ count test xs
unfolding count sort
count-sort test [] = refl
count-sort test (x ∷ xs) = ground (arith, count-insert test x (sort ltb xs), count-sort test xs)

-- Every member is below or equal to the ones after it.
IsSorted : List ℕ → Type 0
IsSorted [] = Unit
IsSorted (x ∷ xs) = All (λ y. x ≤ y) xs × IsSorted xs

insert-IsSorted : (x : ℕ) (xs : List ℕ) → IsSorted xs → IsSorted (insert ltb x xs)
unfolding insert IsSorted
insert-IsSorted x [] h = (tt, tt)
insert-IsSorted x (y ∷ ys) (h, k) = elim (Bool-cases (ltb y x)) [
  | inl e ↦ rw e (All-insert (λ z. y ≤ z) ltb x ys (ground arith) h, insert-IsSorted x ys k)
  | inr e ↦
      let low : x ≤ y = ground arith in
      rw e ((low, All-weaken _ _ ys (λ z l. omega arith) h), (h, k))
]

sort-IsSorted : (xs : List ℕ) → IsSorted (sort ltb xs)
unfolding sort IsSorted
sort-IsSorted [] = tt
sort-IsSorted (x ∷ xs) = insert-IsSorted x (sort ltb xs) (sort-IsSorted xs)

at_index_ge :
    (b : ℕ) (xs : List ℕ) (n : ℕ) → n < length xs → All (λ y. b ≤ y) xs → b ≤ at_index xs n
at_index_ge b [] n h k = omega arith
at_index_ge b (x ∷ xs) zero h k = k.0
at_index_ge b (x ∷ xs) (suc n) h k = at_index_ge b xs n (omega arith) k.1

count-All : (b : ℕ) (xs : List ℕ) → All (λ y. b ≤ y) xs → count (leb b) xs ≡ length xs
unfolding count
count-All b [] h = refl
count-All b (x ∷ xs) (h, k) = ground (arith, count-All b xs k)

-- In a sorted list the member at n has n + 1 members that are not above it, and as many that are
-- not below it as stand from n on.
sorted_ranks :
    (xs : List ℕ) (n : ℕ)
    → n < length xs
    → IsSorted xs
    → (n + 1 ≤ count (λ y. leb y (at_index xs n)) xs)
      × (length xs ≤ count (leb (at_index xs n)) xs + n)
unfolding count IsSorted
sorted_ranks [] n h k = omega arith
sorted_ranks (x ∷ xs) zero h (low, k) = (ground arith, ground (arith, count-All x xs low))
sorted_ranks (x ∷ xs) (suc n) h (low, k) =
    let (up, down) = sorted_ranks xs n (omega arith) k in
    let least = at_index_ge x xs n (omega arith) low in (ground arith, ground arith)

-- The consensus of one or more repetitions is backed from both sides: at least half of the verdicts
-- are as mild or milder, and more than half are as severe or more severe.
pub median_balanced :
    (ordinals : List ℕ)
    → 0 < length ordinals
    → (length ordinals ≤ 2 * count (λ y. leb y (median ordinals)) ordinals)
      × (length ordinals < 2 * count (leb (median ordinals)) ordinals)
unfolding median
median_balanced ordinals h =
    let n = (length ordinals - 1) / 2 in
    let same_length = length-sort ltb ordinals in
    let (up, down) = sorted_ranks (sort ltb ordinals) n (omega arith) (sort-IsSorted ordinals) in
    let m = median ordinals in
    (omega (arith, count-sort (λ y. leb y m) ordinals), omega (arith, count-sort (leb m) ordinals))
