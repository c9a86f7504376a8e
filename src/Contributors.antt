-- ===== src/Contributors.antt =====
-- The recognised contributors, from the list that scripts/publish_contributors.py commits on chain
-- to `_parse_contributors` of neurons/validator.py. White space and the ends of lines are those of
-- ASCII.
pub mod Roundtrip
use phylax_subnet.Prelude.{
  ℕ, ◌+◌, Bool, true, false, not, ◌&&◌, ◌||◌, Option, none, some, List, [], ◌∷◌, ◌++◌, ◌=ℕ◌,
  if◌then◌else◌, any, keep, map, is_empty, length, leb,
}
use phylax_subnet.Prelude.Text.{Text, codes, same, strip, starts_with}
use phylax_subnet.Emission.Sort.{sort, text_lt}
use phylax_subnet.Screening.{splitlines}

-- The parts of a text between the commas.
unfoldable pub split_commas : Text → Text × List Text
split_commas [] = ([], [])
split_commas (c ∷ s) =
    let (part, parts) = split_commas s in
    if c =ℕ b',' then ([], part ∷ parts) else (c ∷ part, parts)

-- [h.strip() for h in parts if h.strip()]
abbrev pub stripped : List Text → List Text
stripped parts = keep (λ h. not (is_empty h)) (map strip parts)

-- `_parse_contributors`, where `loads` is `json.loads` with `str` of each item, and none where it
-- raises; a set is a list of its members.
unfoldable pub parse_contributors : (Text → Option (List Text)) → Text → List Text
parse_contributors loads raw =
    let text = strip raw in
    if is_empty text
    then []
    else if starts_with text (codes "[")
    then elim (loads text) [ none ↦ [] | some items ↦ stripped items ]
    else let (part, parts) = split_commas text in stripped (part ∷ parts)

-- The keys in their order, each once.
unfoldable pub ordered : List Text → List Text → List Text
ordered seen [] = seen
ordered seen (k ∷ keys) =
    let key = strip k in
    let known = any (same key) seen in
    let rest = ordered seen keys in
    let more = ordered (seen ++ (key ∷ [])) keys in if is_empty key || known then rest else more

-- `_load_hotkeys`, of the text of the file, if there is one, and the keys of the command line.
unfoldable pub load_hotkeys : Option Text → List Text → List Text
load_hotkeys none inline = ordered [] inline
load_hotkeys (some file) inline = ordered [] (
    keep (λ s. not (is_empty s || starts_with s (codes "#"))) (map strip (splitlines file))
    ++ inline)

-- ",".join(keys)
unfoldable pub join_commas : List Text → Text
join_commas [] = []
join_commas (k ∷ []) = k
join_commas (k ∷ j ∷ keys) = k ++ (b',' ∷ join_commas (j ∷ keys))

-- What `main` commits.
unfoldable pub payload : List Text → Text
payload contributors = join_commas (sort text_lt contributors)
