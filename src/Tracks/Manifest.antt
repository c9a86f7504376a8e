-- ===== src/Tracks/Manifest.antt =====
-- The manifest of a run and the integrity of its evidence: phylax/analysis/common.py.
use mathlib.Core.Path.{subst}
use phylax_subnet.Prelude.{
  ℕ, ◌≤◌, ◌≡◌, ap, false, String, List, [], ◌∷◌, ◌++◌, arith, length, is_empty, length-append,
  if◌then◌else◌,
}
use phylax_subnet.Prelude.Text.{Text}
use phylax_subnet.Number.{Float, one, IsUnit}
use phylax_subnet.Number.Laws.{exact, IsFloat, IsModest, lit-IsUnit}
use phylax_subnet.Value.{Value, returns, >>=-eq-returns, returned, Conversions}
use phylax_subnet.Scoring.{evidence_gate}
use phylax_subnet.Scoring.Bounds.{not_lt, le-clip01}
use phylax_subnet.Tracks.Common.{
  ManifestEntry, manifest_entry, entry_texts, manifest_of, build_manifest, integrity_from_caps,
}

module _ {F : Type 0} ⦃num : Float F⦄ where
  open num use {lit, add, mul, le, lt}

  fraction_of :
      (laws : IsFloat F) (vs : List (Value F)) (n : ℕ)
      → length vs ≤ exact
      → n ≤ length vs
      → IsUnit (if is_empty vs then one else lit n (length vs))
  fraction_of laws [] n few h = lit-IsUnit laws 1 1 (omega arith) (omega arith)
  fraction_of laws (v ∷ vs) n few h = lit-IsUnit laws n (length (v ∷ vs)) (ground arith) h

  module _ (conv : Conversions F) where
    length-manifest_entry :
        (track : String) (texts : Text × Text)
        → length (manifest_entry {F = F} conv track texts) ≤ 1
    unfolding manifest_entry
    length-manifest_entry track (name, observation) = ground arith

    length-manifest_of :
        (track : String) (vs : List (Value F)) (m : List (ManifestEntry F))
        → manifest_of {F = F} conv track vs ≡ returns m
        → length m ≤ length vs
    unfolding manifest_of
    length-manifest_of track [] m h = ground arith
    length-manifest_of track (v ∷ vs) m h =
        let (texts, e, h') = >>=-eq-returns (entry_texts conv v) _ h in
        let (rest, e', h'') = >>=-eq-returns (manifest_of conv track vs) _ h' in
        omega (
          arith,
          length-append (manifest_entry conv track texts) rest,
          length-manifest_entry track texts,
          length-manifest_of track vs rest e',
          ap length (returned (manifest_entry conv track texts ++ rest) m h''),
        )

    -- The fraction of canonical capabilities lies in the unit interval.
    fraction-IsUnit :
        (laws : IsFloat F) (track : String) (vs : List (Value F)) (m : List (ManifestEntry F))
        (x : F)
        → length vs ≤ exact
        → build_manifest conv track vs ≡ returns (m, x)
        → IsUnit x
    unfolding build_manifest
    fraction-IsUnit laws track vs m x few h =
        let (m', e, h') = >>=-eq-returns (manifest_of conv track vs) _ h in
        let same_pair : (m', (if is_empty vs then one else lit (length m') (length vs))) ≡ (m, x) =
          returned _ _ h' in
        subst IsUnit (ap (λ p. p.1) same_pair)
          (fraction_of laws vs (length m') few (length-manifest_of track vs m' e))

  module _ (laws : IsFloat F) where
    -- The evidence of a behavioural run is never below the gate of `combine`.
    integrity_ge :
        (caps : List (Value F)) (fraction : F)
        → IsUnit fraction
        → lt (integrity_from_caps caps fraction) evidence_gate ≡ false
    unfolding integrity_from_caps
    integrity_ge [] fraction u =
        not_lt laws _ _ (laws.lit_mono 10 100 7 10 (omega arith) (omega arith) (omega arith))
    integrity_ge (v ∷ vs) fraction u =
        let four = lit-IsUnit laws 4 10 (omega arith) (omega arith) in
        let (six, six_le) = lit-IsUnit laws 6 10 (omega arith) (omega arith) in
        let modest : IsModest (lit 6 10) = (
          six,
          laws.le_trans _ _ _ six_le
              (laws.lit_mono 1 1 exact 1 (omega arith) (omega arith) (omega arith)),
        ) in
        let (low, high) = laws.mul_shrinks (lit 6 10) fraction modest u in
        let gate_le = laws.lit_mono 10 100 4 10 (omega arith) (omega arith) (omega arith) in
        not_lt laws _ _ (
          le-clip01 laws evidence_gate _
            (laws.lit_pos 10 100 (omega arith) (omega arith) (omega arith))
            (lit-IsUnit laws 10 100 (omega arith) (omega arith)).1
            (laws.le_trans _ _ _ gate_le (laws.le-add_right (lit 4 10) _ four.0 low)))

    -- A manifest has no more entries than the run has capabilities, and the integrity of evidence
    -- that is computed from it is never below the 0.10 that `combine` asks for: of a run with up to
    -- 2 ^ 53 capabilities the evidence gate alone turns nothing away.
    pub build_manifest-above_gate :
        (conv : Conversions F) (track : String) (vs : List (Value F)) (m : List (ManifestEntry F))
        (x : F)
        → length vs ≤ exact
        → build_manifest conv track vs ≡ returns (m, x)
        → (length m ≤ length vs) × (lt (integrity_from_caps vs x) evidence_gate ≡ false)
    unfolding build_manifest
    build_manifest-above_gate conv track vs m x few h =
        let (m', e, h') = >>=-eq-returns (manifest_of conv track vs) _ h in
        let same_list : m' ≡ m = ap (λ p. p.0) (returned _ _ h') in
        (
          subst (λ l. length l ≤ length vs) same_list (length-manifest_of conv track vs m' e),
          integrity_ge vs x (fraction-IsUnit conv laws track vs m x few h),
        )
