-- ===== src/Emission.antt =====
-- The emission weights: `compute_emission_weights`, `reserved_only_weights` and
-- `apply_reserved_share` of phylax/analysis/scoring.py.
pub mod Sort
pub mod Qualified
pub mod Range
pub mod Counts
pub mod Performance
pub mod Reserved
pub mod Weights
use Prim.Native.String.{compare}
use text.Mathlib.Text.{is_lt}
use phylax_subnet.Prelude.{
  ℕ, ◌+◌, ◌<◌, Bool, true, false, not, ◌&&◌, ◌||◌, String, Option, none, some, List, [], ◌∷◌, ◌++◌,
  map, ◌==◌, if◌then◌else◌, Dict, get, put, values, keys, member, keep, take, length, is_empty,
}
use phylax_subnet.Prelude.Text.{Text, codes}
use phylax_subnet.Number.{Float, nought, one, equal, sum}
use phylax_subnet.Emission.Sort.{sort, text_lt}

-- A miner's hotkey and its score.
abbrev pub Row : Type 0 → Type 0
Row F = String × F

abbrev pub top_k : ℕ
top_k = 5

-- `sha256` is `hashlib.sha256(s.encode()).hexdigest()`.
unfoldable pub tiebreak_key : (Text → Text) → Text → String → Text
tiebreak_key sha256 salt hotkey = sha256 (salt ++ codes ":" ++ codes hotkey)

-- sorted(active & contributors)
abbrev pub eligible_of : List String → List String → List String
eligible_of active contributors =
    sort (λ (h j : String). is_lt (compare h j)) (keep (λ h. member h contributors) active)

module _ {F : Type 0} ⦃num : Float F⦄ where
  open num use {lit, add, sub, mul, div, le, lt}

  abbrev pub track_emission_weights : Dict F
  track_emission_weights =
      ("repositories", lit 30 100)
      ∷ ("packages", lit 25 100)
      ∷ ("mcp_servers", lit 225 1000)
      ∷ ("skills", lit 225 1000)
      ∷ []

  abbrev pub top_k_split : List F
  top_k_split = lit 40 100 ∷ lit 25 100 ∷ lit 15 100 ∷ lit 12 100 ∷ lit 8 100 ∷ []

  abbrev pub performance_share : F
  performance_share = lit 95 100

  abbrev pub contribution_share : F
  contribution_share = lit 5 100

  abbrev pub get_float : Dict F → String → F
  get_float d k = elim (get d k) [ none ↦ nought | some v ↦ v ]

  -- weights[k] = weights.get(k, 0.0) + v
  unfoldable pub add_to : Dict F → String → F → Dict F
  add_to d k v = put d k (add (get_float d k) v)

  abbrev pub map_values : (F → F) → Dict F → Dict F
  map_values f [] = []
  map_values f ((k, v) ∷ d) = (k, f v) ∷ map_values f d

  -- Each value divided by the sum of all, if that is positive.
  unfoldable pub normalise : Dict F → Dict F
  normalise weights =
      let total = sum (values weights) in
      if lt nought total then map_values (λ w. div w total) weights else weights

  unfoldable pub reserved_only_weights : String → Dict F
  reserved_only_weights hotkey = if hotkey == "" then [] else (hotkey, one) ∷ []

  unfoldable pub apply_reserved_share : Dict F → String → F → Dict F
  apply_reserved_share weights hotkey share =
      if hotkey == "" || not (lt nought share && lt share one)
      then weights
      else normalise (add_to (map_values (λ w. mul w (sub one share)) weights) hotkey share)

  module _ (sha256 : Text → Text) where
    -- The order of the keys `(-score, tiebreak_key(...))`; `-a < -b` is `b < a`.
    unfoldable pub ranks_before : Text → Row F → Row F → Bool
    ranks_before salt (h, s) (j, t) =
        if equal s t
        then text_lt (tiebreak_key sha256 salt h) (tiebreak_key sha256 salt j)
        else lt t s

    unfoldable pub positive_rows : Text → F → List (Row F) → List (Row F)
    positive_rows salt cut rows =
        keep (λ (r : Row F). lt nought r.1 && le cut r.1) (sort (ranks_before salt) rows)

  -- active.update(...)
  abbrev pub add_hotkeys : List String → List (Row F) → List String
  add_hotkeys active [] = active
  add_hotkeys active ((h, s) ∷ rows) =
      add_hotkeys (if member h active then active else active ++ (h ∷ [])) rows

  abbrev pub rows_of : Dict (List (Row F)) → String → List (Row F)
  rows_of scores track = elim (get scores track) [ none ↦ [] | some rows ↦ rows ]

pub record Qualification (F : Type 0) : Type 0 where
  pub qualified : Dict (List (Row F))
  pub active : List String

abbrev pub nobody : (F : Type 0) → Qualification F
nobody F = record { qualified = []; active = [] }

module _ {F : Type 0} ⦃num : Float F⦄ where
  open num use {lit, add, mul, div, le, lt}

  -- The body of the first loop, for one track of the table.
  unfoldable pub qualify :
      (Text → Text)
      → Dict (List (Row F))
      → Dict F
      → Text
      → Qualification F
      → String × F
      → Qualification F
  qualify sha256 scores thresholds salt q (track, share) =
      let cut = get_float thresholds track in
      let positive =
        positive_rows sha256 (salt ++ codes ":" ++ codes track) cut (rows_of scores track) in
      if le share nought || is_empty positive then q else record {
        qualified = put q.qualified track (take top_k positive);
        active = add_hotkeys q.active positive;
      }

  unfoldable pub qualify_all :
      (Text → Text)
      → Dict (List (Row F))
      → Dict F
      → Text
      → Qualification F
      → Dict F
      → Qualification F
  qualify_all sha256 scores thresholds salt q [] = q
  qualify_all sha256 scores thresholds salt q (entry ∷ table) =
      qualify_all sha256 scores thresholds salt (qualify sha256 scores thresholds salt q entry)
        table

  -- The shares of the tracks that nobody qualified for.
  abbrev pub idle_shares : Dict (List (Row F)) → Dict F → List F
  idle_shares qualified [] = []
  idle_shares qualified ((track, share) ∷ table) =
      let rest = idle_shares qualified table in
      if lt nought share && not (member track (keys qualified)) then share ∷ rest else rest

  -- One track's share over its rows and the split.
  unfoldable pub pay_rows : F → F → Dict F → List (Row F) → List F → Dict F
  pay_rows share denom weights [] split = weights
  pay_rows share denom weights (row ∷ rows) [] = weights
  pay_rows share denom weights ((hotkey, score) ∷ rows) (frac ∷ split) =
      pay_rows share denom (add_to weights hotkey (mul share (div frac denom))) rows split

  unfoldable pub pay_tracks : F → Dict F → Dict (List (Row F)) → Dict F
  pay_tracks bonus weights [] = weights
  pay_tracks bonus weights ((track, top) ∷ rest) =
      let split = take (length top) top_k_split in
      let share = add (get_float track_emission_weights track) bonus in
      pay_tracks bonus (pay_rows share (sum split) weights top split) rest

  unfoldable pub performance : Dict (List (Row F)) → Dict F
  performance qualified =
      let idle = sum (idle_shares qualified track_emission_weights) in
      let bonus = div idle (lit (length qualified) 1) in
      if is_empty qualified then [] else pay_tracks bonus [] qualified

  unfoldable pub scale_performance : Dict F → Dict F
  scale_performance weights =
      let perf_total = sum (values weights) in
      if lt nought perf_total
      then map_values (λ w. mul (div w perf_total) performance_share) weights
      else weights

  unfoldable pub add_each : F → Dict F → List String → Dict F
  add_each per weights [] = weights
  add_each per weights (hotkey ∷ rest) = add_each per (add_to weights hotkey per) rest

  unfoldable pub add_contributions : List String → Dict F → Dict F
  add_contributions eligible weights =
      if is_empty eligible
      then weights
      else add_each (div contribution_share (lit (length eligible) 1)) weights eligible

  unfoldable pub compute_emission_weights :
      (Text → Text) → Dict (List (Row F)) → List String → Dict F → Text → Dict F
  compute_emission_weights sha256 scores contributors thresholds salt =
      let q = qualify_all sha256 scores thresholds salt (nobody F) track_emission_weights in
      normalise (
        add_contributions (eligible_of q.active contributors)
          (scale_performance (performance q.qualified)))
