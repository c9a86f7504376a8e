-- ===== src/Repositories/Finding.antt =====
-- When a reported vulnerability is the expected one: `_matches` of phylax/analysis/repositories.py
-- and what it calls.
use phylax_subnet.Prelude.{
  ℕ, zero, suc, ◌+◌, Bool, true, false, not, ◌&&◌, ◌||◌, String, none, some, List, [], ◌∷◌, ◌++◌,
  leb, ◌=ℕ◌, if◌then◌else◌, any, length, is_empty, get, map, keep,
}
use phylax_subnet.Prelude.Text.{Text, codes, same, lower, strip, starts_with, ends_with}
use phylax_subnet.Number.{Float, nought}
use phylax_subnet.Value.{
  ℤ, pos, negsuc, Value, null, arr, str, Fields, entries, items, or_else, returns, raises,
  Conversions, text_field, to_int, to_str,
}
use phylax_subnet.Quality.{add_word, distinct, slashes, split_words, common}

-- path.lstrip("/")
unfoldable pub strip_slashes : Text → Text
strip_slashes [] = []
strip_slashes (c ∷ s) = let rest = strip_slashes s in if c =ℕ b'/' then rest else c ∷ s

-- path.removeprefix("./")
unfoldable pub drop_dot : Text → Text
drop_dot (a ∷ b ∷ s) = if a =ℕ b'.' && b =ℕ b'/' then s else a ∷ b ∷ s
drop_dot s = s

-- path.startswith(("./", "/"))
unfoldable pub is_rooted : Text → Bool
is_rooted [] = false
is_rooted (a ∷ s) = a =ℕ b'/' || (a =ℕ b'.' && starts_with s (codes "/"))

-- The loop of `_norm_file`, for this many rounds at most.
unfoldable pub unroot : ℕ → Text → Text
unroot zero path = path
unroot (suc rounds) path =
    let rest = unroot rounds (drop_dot (strip_slashes path)) in
    if is_rooted path then rest else path

abbrev pub is_digit : ℕ → Bool
is_digit c = leb b'0' c && leb c b'9'

-- The first run of digits of a text.
unfoldable pub digits : Text → Text
digits [] = []
digits (c ∷ s) = if is_digit c then c ∷ digits s else []

unfoldable pub first_digits : Text → Text
unfolding digits
first_digits [] = []
first_digits (c ∷ s) = let later = first_digits s in if is_digit c then digits (c ∷ s) else later

-- s.lstrip("0")
unfoldable pub strip_zeros : Text → Text
strip_zeros [] = []
strip_zeros (c ∷ s) = let rest = strip_zeros s in if c =ℕ b'0' then rest else c ∷ s

-- `_tokens` of two texts, as one set
unfoldable pub words_of : Text → List Text
unfolding split_words
words_of s = let (w, ws) = split_words (lower s) in add_word w ws

-- abs(m - n) <= _LINE_WINDOW
unfoldable pub is_near : ℤ → ℤ → Bool
is_near (pos m) (pos n) = leb m (n + 10) && leb n (m + 10)
is_near (pos m) (negsuc n) = leb (m + n + 1) 10
is_near (negsuc m) (pos n) = leb (m + n + 1) 10
is_near (negsuc m) (negsuc n) = leb m (n + 10) && leb n (m + 10)

module _ {F : Type 0} ⦃num : Float F⦄ where
  open num use {lit, le}

  module _ (conv : Conversions F) where
    -- `_norm_file`; a round of the loop shortens the path.
    unfoldable pub norm_file : Fields F → Text
    norm_file vuln =
        let path = slashes (lower (strip (text_field conv vuln "file"))) in
        unroot (length path) path

    -- `_file_ok`
    unfoldable pub file_ok : Fields F → Fields F → Bool
    file_ok expected reported =
        let fe = norm_file expected in
        let fr = norm_file reported in
        if is_empty fe || is_empty fr
        then false
        else same fe fr || ends_with fe (b'/' ∷ fr) || ends_with fr (b'/' ∷ fe)

    -- `_cwe_num`
    unfoldable pub cwe_num : Value F → Text
    cwe_num value =
        let run = first_digits (to_str conv (or_else value (str ""))) in
        if is_empty run
        then []
        else if is_empty (strip_zeros run)
        then codes "0"
        else strip_zeros run

    -- v.get(k) of a dict
    abbrev pub value_at : Fields F → String → Value F
    value_at fs k = elim (get (entries fs) k) [ none ↦ null | some v ↦ v ]

    abbrev pub listed_cwes : Value F → List Text
    listed_cwes (arr xs) = map cwe_num (items xs)
    listed_cwes _ = []

    -- `_cwe_set`
    unfoldable pub cwe_set : Fields F → List Text
    cwe_set vuln =
        keep (λ c. not (is_empty c))
          (cwe_num (value_at vuln "cwe") ∷ listed_cwes (value_at vuln "all_cwes"))

    -- The words of the title and of the description.
    abbrev pub title_words : Fields F → List Text
    title_words v =
        distinct
          (words_of (text_field conv v "title") ++ words_of (text_field conv v "description"))

    -- `_title_overlap`
    unfoldable pub title_overlap : Fields F → Fields F → F
    title_overlap a b =
        let ta = title_words a in
        let tb = title_words b in
        let both = length (common ta tb) in
        let extra = length (keep (λ t. not (any (same t) ta)) tb) in
        if is_empty ta || is_empty tb then nought else lit both (length ta + extra)

    -- `_line_ok`
    unfoldable pub near : Fields F → Fields F → Bool
    near a b = elim (to_int conv (value_at a "line")) [
      | raises ↦ true
      | returns la ↦ elim (to_int conv (value_at b "line")) [
        | raises ↦ true
        | returns lb ↦ is_near la lb
      ]
    ]

    -- `_matches`
    unfoldable pub vuln_matches : Fields F → Fields F → Bool
    vuln_matches expected reported =
        let shared = not (is_empty (common (cwe_set expected) (cwe_set reported))) in
        let title_match = le (lit 34 100) (title_overlap expected reported) in
        if not (file_ok expected reported)
        then false
        else if not (shared || title_match)
        then false
        else near expected reported
