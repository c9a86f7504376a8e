-- ===== src/Emission/Reserved.antt =====
-- The reserved share: `apply_reserved_share` of phylax/analysis/scoring.py.
use phylax_subnet.Prelude.{
  ℕ, ◌+◌, ◌*◌, ◌^◌, ◌≤◌, ◌≡◌, inl, inr, true, false, not, ◌&&◌, ◌||◌, ◌==◌, String, arith, Dict,
  Bool-cases,
}
use phylax_subnet.Number.{Float, nought, one, IsUnit}
use phylax_subnet.Number.Laws.{exact, IsFloat}
use phylax_subnet.Emission.{apply_reserved_share}
use phylax_subnet.Emission.Range.{
  Within-mono, IsBounded, IsBounded-mono, map_values-IsBounded, add_to-IsBounded,
  normalise-IsBounded,
}

module _ {F : Type 0} ⦃num : Float F⦄ (laws : IsFloat F) where
  open num use {sub, mul, lt}
  open laws use {le_trans, le_of_lt}

  guard_open : (b c d : _) → (b || not (c && d)) ≡ false → (c ≡ true) × (d ≡ true)
  guard_open b c d h = ground arith

  -- What is left of a weight beside the reserved share.
  rest-IsUnit : (w share : F) → IsUnit share → IsUnit w → IsUnit (mul w (sub one share))
  rest-IsUnit w share s u =
      let (low, high) =
        laws.mul_shrinks w (sub one share) (Within-mono laws 1 exact w (omega arith) u)
          (laws.sub_unit share s) in
      (low, le_trans _ _ _ high u.1)

  -- A vector of up to 2 ^ 21 weights from 0.0 to 1.0 stays one, with at most one more entry, whatever reserved hotkey and share the server
  -- sends: a share that is not strictly between 0.0 and 1.0, NaN included, leaves it alone.
  pub reserved-IsBounded :
      (n : ℕ) (weights : Dict F) (hotkey : String) (share : F)
      → n ≤ 2 ^ 21
      → IsBounded n 1 weights
      → IsBounded (n + 1) 1 (apply_reserved_share weights hotkey share)
  unfolding apply_reserved_share
  reserved-IsBounded n weights hotkey share few h =
      elim (Bool-cases (hotkey == "" || not (lt nought share && lt share one))) [
        | inl e ↦ rw e (IsBounded-mono laws n (n + 1) 1 1 weights (omega arith) (omega arith) h)
        | inr e ↦
            let (low, high) = guard_open (hotkey == "") (lt nought share) (lt share one) e in
            let unit : IsUnit share = (le_of_lt _ _ low, le_of_lt _ _ high) in
            let scaled =
              map_values-IsBounded laws IsUnit n 1 (λ w. mul w (sub one share)) weights
                (λ w u. rest-IsUnit w share unit u) h.short h.within in
            let product : (n + 1) * 2 ≤ exact = omega arith in
            rw e (
              normalise-IsBounded laws (n + 1) 2 _ product
                (add_to-IsBounded laws n 1 1 _ hotkey share (omega arith) unit scaled))
      ]
