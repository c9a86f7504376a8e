-- ===== src/Emission/Range.antt =====
-- The range of the weights that phylax/analysis/scoring.py computes.
use native.Mathlib.Nat.{mul-le-mul_right}
use phylax_subnet.Prelude.{
  ℕ, ◌+◌, ◌*◌, ◌≤◌, ◌≡◌, refl, inl, inr, false, ◌==◌, String, [], ◌∷◌, arith, Dict, get, put,
  values, All, All-put, All-weaken, length, Bool-cases,
}
use phylax_subnet.Number.{Float, ◌≼◌, nought, one, sum, sum_from, IsUnit}
use phylax_subnet.Number.Laws.{
  exact, IsFloat, nought-le-one, nought_refl, sum_bounds, sum_bounds_above, lit-IsUnit,
}
use phylax_subnet.Emission.{
  get_float, add_to, map_values, normalise, performance_share, scale_performance,
}

module _ {V : Type 0} where
  pub length-put : (d : Dict V) (k : String) (v : V) → length (put d k v) ≤ length d + 1
  unfolding put
  length-put [] k v = omega arith
  length-put ((j, w) ∷ d) k v = ground (arith, length-put d k v)

module _ {F : Type 0} ⦃num : Float F⦄ where
  open num use {lit, add, mul, div, le, lt}

  abbrev pub Within : ℕ → F → Type 0
  Within c x = (nought ≼ x) × (x ≼ lit c 1)

  -- At most n entries, each between 0 and c.
  pub record IsBounded (n c : ℕ) (d : Dict F) : Type 0 where
    pub short : length d ≤ n
    pub within : All (λ (e : String × F). Within c e.1) d

  module _ (laws : IsFloat F) where
    open laws use {le_trans, lit_mono, refl_of_le, le_of_lt}

    pub Within-mono : (c b : ℕ) (x : F) → c ≤ b → Within c x → Within b x
    Within-mono c b x h w =
        (w.0, le_trans _ _ _ w.1 (lit_mono c 1 b 1 (omega arith) (omega arith) (omega arith)))

    pub IsBounded-mono :
        (n m c b : ℕ) (d : Dict F) → n ≤ m → c ≤ b → IsBounded n c d → IsBounded m b d
    IsBounded-mono n m c b d h k w = record {
      short = omega (arith, w.short);
      within = All-weaken _ _ d (λ (e : String × F). Within-mono c b e.1 k) w.within;
    }

    pub get_float-Within :
        (c : ℕ) (d : Dict F) (k : String)
        → All (λ (e : String × F). Within c e.1) d
        → Within c (get_float d k)
    unfolding get
    get_float-Within c [] k h =
        (nought_refl laws, lit_mono 0 1 c 1 (omega arith) (omega arith) (omega arith))
    get_float-Within c ((j, v) ∷ d) k (w, h) = elim (Bool-cases (j == k)) [
      | inl e ↦ rw (get_float, e) w
      | inr e ↦ rw (get_float, e) (get_float-Within c d k h)
    ]

    pub add-Within :
        (c b : ℕ) (x y : F) → c + b ≤ exact → Within c x → Within b y → Within (c + b) (add x y)
    add-Within c b x y fits w v = (
      le_trans _ _ _ w.0 (laws.le-add_right x y w.0 v.0),
      rw (← laws.add-lit c b fits) (laws.add_mono x _ y _ w.0 w.1 v.0 v.1),
    )

    pub add_to-IsBounded :
        (n c b : ℕ) (d : Dict F) (k : String) (v : F)
        → c + b ≤ exact
        → Within b v
        → IsBounded n c d
        → IsBounded (n + 1) (c + b) (add_to d k v)
    unfolding add_to
    add_to-IsBounded n c b d k v fits w h =
        let total = add-Within c b (get_float d k) v fits (get_float-Within c d k h.within) w in
        record {
          short = omega (arith, length-put d k (add (get_float d k) v), h.short);
          within =
              All-put _ d k _
                (All-weaken _ _ d (λ (e : String × F). Within-mono c (c + b) e.1 (omega arith))
                  h.within)
                (λ j e. total) total;
        }

    values-Within :
        (c : ℕ) (d : Dict F) → All (λ (e : String × F). Within c e.1) d → All (Within c) (values d)
    values-Within c [] h = tt
    values-Within c ((k, v) ∷ d) (w, h) = (w, values-Within c d h)

    length-values : (d : Dict F) → length (values d) ≡ length d
    length-values [] = refl
    length-values ((k, v) ∷ d) = omega (arith, length-values d)

    pub map_values-IsBounded :
        (P : F → Type 0) (n b : ℕ) (f : F → F) (d : Dict F)
        → ((x : F) → P x → Within b (f x))
        → length d ≤ n
        → All (λ (e : String × F). P e.1) d
        → IsBounded n b (map_values f d)
    map_values-IsBounded P n b f [] g h k = record { short = omega arith; within = tt }
    map_values-IsBounded P n b f ((j, v) ∷ d) g h (w, k) =
        let rest = map_values-IsBounded P (length d) b f d g (omega arith) k in
        record { short = omega (arith, rest.short); within = (g v w, rest.within) }

    -- The sum of all values is a modest number.
    sum-values :
        (n c : ℕ) (d : Dict F) → n * c ≤ exact → IsBounded n c d → Within exact (sum (values d))
    sum-values n c d fits h =
        let w = values-Within c d h.within in
        let few : length (values d) * c ≤ n * c =
          mul-le-mul_right c (omega (arith, length-values d, h.short)) in
        let (low, high) =
          sum_bounds laws (values d) nought c 0 (nought_refl laws) (nought_refl laws) (omega arith)
            w in
        (low, le_trans _ _ _ high (lit_mono _ 1 exact 1 (omega arith) (omega arith) (omega arith)))

    -- Each value is at most the sum.
    members :
        (c : ℕ) (d : Dict F) (acc : F)
        → nought ≼ acc
        → All (λ (e : String × F). Within c e.1) d
        → All (λ (e : String × F). Within c e.1 × (e.1 ≼ sum_from acc (values d))) d
    members c [] acc p h = tt
    members c ((k, v) ∷ d) acc p (w, h) =
        let grown = le_trans _ _ _ p (laws.le-add_right acc v p w.0) in
        let above = sum_bounds_above laws c (values d) (add acc v) grown (values-Within c d h) in
        ((w, le_trans _ _ _ (laws.le-add_left acc v p w.0) above), members c d (add acc v) grown h)

    -- A sum that is not positive bounds every value by 1.
    idle_case :
        (c : ℕ) (d : Dict F)
        → lt nought (sum (values d)) ≡ false
        → nought ≼ sum (values d)
        → All (λ (e : String × F). Within c e.1 × (e.1 ≼ sum (values d))) d
        → All (λ (e : String × F). Within 1 e.1) d
    idle_case c d e low h =
        let total = sum (values d) in
        let flat : total ≼ one = ground (
          arith,
          laws.lt-eq-not-le nought total (nought_refl laws) (refl_of_le _ _ low).1,
          le_trans total nought one,
          nought-le-one laws,
        ) in
        All-weaken _ _ d (λ (x : String × F) w. (w.0.0, le_trans _ _ _ w.1 flat)) h

    pub normalise-IsBounded :
        (n c : ℕ) (d : Dict F) → n * c ≤ exact → IsBounded n c d → IsBounded n 1 (normalise d)
    unfolding normalise
    normalise-IsBounded n c d fits h =
        let (low, high) = sum-values n c d fits h in
        let parts = members c d nought (nought_refl laws) h.within in
        elim (Bool-cases (lt nought (sum (values d)))) [
          | inl e ↦ rw e (
              map_values-IsBounded _ n 1 _ d (λ x w. laws.div_unit x _ w.0.0 w.1 e high) h.short
                parts)
          | inr e ↦ rw e (record { short = h.short; within = idle_case c d e low parts })
        ]

    share_unit :
        (x total : F) → IsUnit (div x total) → Within 1 (mul (div x total) performance_share)
    share_unit x total u =
        let modest = Within-mono 1 exact (div x total) (omega arith) u in
        let (low, high) =
          laws.mul_shrinks (div x total) performance_share modest
            (lit-IsUnit laws 95 100 (omega arith) (omega arith)) in
        (low, le_trans _ _ _ high u.1)

    pub scale-IsBounded :
        (n c : ℕ) (d : Dict F)
        → n * c ≤ exact
        → IsBounded n c d
        → IsBounded n 1 (scale_performance d)
    unfolding scale_performance
    scale-IsBounded n c d fits h =
        let (low, high) = sum-values n c d fits h in
        let parts = members c d nought (nought_refl laws) h.within in
        elim (Bool-cases (lt nought (sum (values d)))) [
          | inl e ↦ rw e (
              map_values-IsBounded _ n 1 _ d
                (λ x w. share_unit x _ (laws.div_unit x _ w.0.0 w.1 e high)) h.short parts)
          | inr e ↦ rw e (record { short = h.short; within = idle_case c d e low parts })
        ]
