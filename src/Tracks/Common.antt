-- ===== src/Tracks/Common.antt =====
-- What the tracks share: phylax/analysis/common.py.
use phylax_subnet.Prelude.{
  Bool, ◌||◌, String, Option, none, some, List, [], ◌∷◌, ◌++◌, ◌==◌, if◌then◌else◌, any, length,
  is_empty,
}
use phylax_subnet.Prelude.Text.{Text, codes, same, lower}
use phylax_subnet.Number.{Float, nought, one}
use phylax_subnet.Value.{Value, str, obj, Outcome, returns, ◌>>=◌, Conversions, text_field, raises}
use phylax_subnet.Capability
use phylax_subnet.Capability.{Permission, CapabilityGroup, ProtectionLevel, severity, is_valid_for}
use phylax_subnet.Scoring.{ScoreResult, clip01}

abbrev pub malicious_labels : List String
malicious_labels = "malicious" ∷ "known_bad" ∷ "known-bad" ∷ "block" ∷ "unsafe" ∷ "vulnerable" ∷ []

abbrev pub safe_labels : List String
safe_labels = "safe" ∷ "known_good" ∷ "known-good" ∷ "allow" ∷ "clean" ∷ []

-- label.lower() in labels
unfoldable pub is_labelled : List String → String → Bool
is_labelled labels label = any (λ l. same (lower (codes label)) (codes l)) labels

abbrev pub flags : String → Bool
flags verdict = verdict == "BLOCK" || verdict == "WARN"

pub record ManifestEntry (F : Type 0) : Type 0 where
  pub capability : Text
  pub group : CapabilityGroup
  pub protection : ProtectionLevel
  pub severity_of : F
  pub observation : Text

pub record TrackEvaluation (F : Type 0) : Type 0 where
  pub result : ScoreResult F
  pub capability_manifest : List (ManifestEntry F)

module _ {F : Type 0} ⦃num : Float F⦄ where
  open num use {lit, add, mul, div}

  unfoldable pub verdict_correctness : String → Option String → F
  unfolding is_labelled
  verdict_correctness verdict none = lit 5 10
  verdict_correctness verdict (some label) =
      if is_labelled malicious_labels label
      then (if flags verdict then one else nought)
      else if is_labelled safe_labels label
      then (if verdict == "ALLOW" then one else nought)
      else lit 5 10

  unfoldable pub label_risk : Option String → Option F
  unfolding is_labelled
  label_risk none = none
  label_risk (some label) =
      if is_labelled malicious_labels label
      then some one
      else if is_labelled safe_labels label
      then some nought
      else none

  module _ (conv : Conversions F) where
    -- The name and the observation of one entry.
    unfoldable pub entry_texts : Value F → Outcome (Text × Text)
    entry_texts (str s) = returns (codes s, [])
    entry_texts (obj fs) =
        returns (text_field conv fs "capability", text_field conv fs "observation")
    entry_texts _ = raises

    -- The manifest entry of a capability, if it is canonical and valid for the track.
    unfoldable pub manifest_entry : String → Text × Text → List (ManifestEntry F)
    manifest_entry track (name, observation) = elim (Capability.lookup name) [
      | none ↦ []
      | some perm ↦
          if is_valid_for track name
          then record {
            capability = name;
            group = perm.group;
            protection = perm.protection;
            severity_of = severity perm.protection;
            observation = observation;
          }
            ∷ []
          else []
    ]

    unfoldable pub manifest_of : String → List (Value F) → Outcome (List (ManifestEntry F))
    manifest_of track [] = returns []
    manifest_of track (v ∷ vs) = do
      texts ← entry_texts v
      rest ← manifest_of track vs
      returns (manifest_entry track texts ++ rest)

    -- The manifest, and the fraction of the capabilities that are canonical.
    unfoldable pub build_manifest : String → List (Value F) → Outcome (List (ManifestEntry F) × F)
    build_manifest track capabilities = do
      manifest ← manifest_of track capabilities
      returns (
        manifest,
        (if is_empty capabilities then one else lit (length manifest) (length capabilities)),
      )

  unfoldable pub integrity_from_caps : List (Value F) → F → F
  integrity_from_caps [] canonical_fraction = lit 7 10
  integrity_from_caps (v ∷ vs) canonical_fraction =
      clip01 (add (lit 4 10) (mul (lit 6 10) canonical_fraction))
