-- ===== src/Quality.antt =====
-- The quality of reported findings: phylax/analysis/quality.py. Lower-casing and white space are
-- those of ASCII.
pub mod Range
use phylax_subnet.Prelude.{
  ℕ, ◌+◌, ◌≡◌, Bool, true, false, not, ◌&&◌, ◌||◌, String, Option, none, some, List, [], ◌∷◌, ◌++◌,
  ◌==◌, ◌=ℕ◌, leb, if◌then◌else◌, any, all, keep, length, is_empty, get, map,
}
use phylax_subnet.Prelude.Text.{Text, codes, same, contains, ends_with, lower, strip}
use phylax_subnet.Number.{Float, nought, one}
use phylax_subnet.Value.{
  Value, str, arr, nil, obj, Fields, entries, truthy, or_else, iterate, Outcome, returns, raises,
  ◌>>=◌, Conversions, text_field,
}
use phylax_subnet.Scoring.{clip01, fbeta}
use phylax_subnet.Matching.{count_hits}

abbrev pub ref_keys : List String
ref_keys = "evidence_ref" ∷ "file" ∷ "path" ∷ "location" ∷ "ref" ∷ "source" ∷ []

abbrev pub category_keys : List String
category_keys = "category" ∷ "type" ∷ "class" ∷ "kind" ∷ []

abbrev pub title_keys : List String
title_keys = "title" ∷ "summary" ∷ "description" ∷ "detail" ∷ "message" ∷ []

-- [a-z0-9]
abbrev pub is_token : ℕ → Bool
is_token c = leb b'a' c && leb c b'z' || leb b'0' c && leb c b'9'

abbrev pub add_word : Text → List Text → List Text
add_word [] ws = ws
add_word (c ∷ w) ws = (c ∷ w) ∷ ws

-- The word that a text begins with, and the words after it.
unfoldable pub split_words : Text → Text × List Text
split_words [] = ([], [])
split_words (c ∷ s) =
    let (w, ws) = split_words s in if is_token c then (c ∷ w, ws) else ([], add_word w ws)

abbrev pub distinct : List Text → List Text
distinct [] = []
distinct (t ∷ ts) = let rest = distinct ts in if any (same t) ts then rest else t ∷ rest

-- The members of a set of words, each once.
unfoldable pub tokens : Text → List Text
unfolding split_words
tokens s = let (w, ws) = split_words (lower s) in distinct (add_word w ws)

-- s.replace("\\", "/")
abbrev pub slashes : Text → Text
slashes s = map (λ c. if c =ℕ b'\\' then b'/' else c) s

-- s.lstrip("./")
abbrev strip_dots : Text → Text
strip_dots [] = []
strip_dots (c ∷ s) = let rest = strip_dots s in if c =ℕ b'.' || c =ℕ b'/' then rest else c ∷ s

unfoldable pub norm_ref : Text → Text
norm_ref s = strip_dots (lower (strip (slashes s)))

-- t & u of two sets of words
abbrev pub common : List Text → List Text → List Text
common ts us = keep (λ t. any (same t) us) ts

unfoldable pub same_category : Text → Text → Bool
unfolding tokens
same_category expected reported =
    let exp = strip (lower expected) in
    let rep = strip (lower reported) in
    if is_empty exp || is_empty rep
    then false
    else if same exp rep
    then true
    else not (is_empty (common (tokens exp) (tokens rep)))

module _ {F : Type 0} ⦃num : Float F⦄ where
  open num use {lit, le}

  abbrev stripped : Option (Value F) → Text
  stripped (some (str s)) = strip (codes s)
  stripped _ = []

  unfoldable pub first_text : Fields F → List String → Text
  first_text e [] = []
  first_text e (k ∷ ks) =
      let rest = first_text e ks in
      let found = stripped (get (entries e) k) in if is_empty found then rest else found

  unfoldable pub matches : Fields F → Fields F → Bool
  unfolding first_text norm_ref tokens
  matches expected reported =
      if not (same_category (first_text expected category_keys) (first_text reported category_keys))
      then false
      else let exp_ref = norm_ref (first_text expected ref_keys) in
        let rep_ref = norm_ref (first_text reported ref_keys) in
        if not (is_empty exp_ref) && not (is_empty rep_ref)
        then same exp_ref rep_ref || ends_with exp_ref rep_ref || ends_with rep_ref exp_ref
        else let exp_title = tokens (first_text expected title_keys) in
          let rep_title = tokens (first_text reported title_keys) in
          if is_empty exp_title || is_empty rep_title
          then true
          else let both = length (common exp_title rep_title) in
            let extra = length (keep (λ t. not (any (same t) exp_title)) rep_title) in
            le (lit 34 100) (lit both (length exp_title + extra))

  -- [r for r in xs if isinstance(r, dict)]
  abbrev pub dicts : List (Value F) → List (Fields F)
  dicts [] = []
  dicts (obj fs ∷ vs) = fs ∷ dicts vs
  dicts (v ∷ vs) = dicts vs

  -- A member of a set must be hashable.
  abbrev pub is_hashable : Value F → Bool
  is_hashable (arr xs) = false
  is_hashable (obj fs) = false
  is_hashable v = true

  module _ (conv : Conversions F) where
    unfoldable pub delta_findings : Value F → Value F → Outcome (List (Fields F))
    delta_findings expected observed_capabilities = do
      observed ← iterate (or_else observed_capabilities (arr nil))
      entries_of ← iterate (or_else expected (arr nil))
      if not (all is_hashable observed)
          then raises
          else returns (
              keep
                (λ (e : Fields F).
                  same (lower (strip (text_field conv e "plane"))) (codes "context")
                  || is_empty observed)
                (dicts entries_of))

    unfoldable pub finding_quality : Value F → Value F → Value F → Outcome F
    finding_quality expected reported observed_capabilities = do
      wanted ← delta_findings expected observed_capabilities
      if is_empty wanted then returns nought else (do
        listed ← iterate (or_else reported (arr nil))
        let found = dicts listed
        let hits = count_hits matches found [] wanted
        if is_empty found
            then returns nought
            else if hits =ℕ 0
            then returns nought
            else returns (clip01 (fbeta (lit hits (length found)) (lit hits (length wanted)) one)))
