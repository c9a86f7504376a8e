-- ===== src/Corpus.antt =====
-- What the agents are given of the task corpus, and what is kept from them: phylax/harness/corpus.py.
-- The decoding of base64 and the draw of `random` are parameters.
pub mod Names
pub mod Blind
use phylax_subnet.Prelude.{
  ℕ, Bool, true, false, not, ◌||◌, String, Option, none, some, List, [], ◌∷◌, ◌++◌, ◌==◌, leb,
  if◌then◌else◌, is_empty, any, length, keep, Dict, get, put,
}
use phylax_subnet.Prelude.Text.{Text, codes, same, lower, strip}
use phylax_subnet.Number.{Float}
use phylax_subnet.Value.{
  Value, Items, nil, cons, null, bool, int, float, arr, obj, str, Fields, entries, truthy,
  to_string, Conversions,
}
use phylax_subnet.Emission.Sort.{sort, text_lt}
use phylax_subnet.Runner.{get_or_null}
use phylax_subnet.Round.Agents.{at_or}
use phylax_subnet.Sandbox.{clean_path, is_unsafe, split_slashes}

-- `_SIDECAR_FILES`
abbrev pub sidecar_files : List String
sidecar_files = "label.json" ∷ "ground_truth.json" ∷ "_label.example.json" ∷ "observed.json" ∷ []

abbrev pub last_of : Text → List Text → Text
last_of part [] = part
last_of part (p ∷ parts) = last_of p parts

-- name.rsplit("/", 1)[-1] in _SIDECAR_FILES
unfoldable pub is_sidecar : Text → Bool
is_sidecar name =
    let (part, parts) = split_slashes name in
    let base = last_of part parts in any (λ (f : String). same base (codes f)) sidecar_files

-- `_FINDING_BUCKETS`
unfoldable pub bucket_of : Text → Option String
bucket_of category =
    if same category (codes "vulnerability") || same category (codes "vulnerabilities")
    then some "vulnerabilities"
    else if same category (codes "supply_chain") || same category (codes "dependency")
    then some "supply_chain"
    else if same category (codes "secret")
        || same category (codes "secrets")
        || same category (codes "leaked_secret")
    then some "secrets"
    else none

module _ {F : Type 0} ⦃num : Float F⦄ (conv : Conversions F) where
  -- The loop of `pack_files` over the sorted files, where `decode` is none for a ValueError or a
  -- TypeError.
  unfoldable pub pack_sorted :
      (String → Option (List ℕ)) → List (String × Value F) → List (Text × List ℕ)
  pack_sorted decode [] = []
  pack_sorted decode ((rel, body) ∷ files) =
      let name = clean_path (codes rel) in
      let rest = pack_sorted decode files in
      if is_unsafe name || is_sidecar name
      then rest
      else elim (decode (to_string conv body)) [ none ↦ rest | some bytes ↦ (name, bytes) ∷ rest ]

  -- The archive of `pack_files`, entry by entry.
  unfoldable pub pack_files : (String → Option (List ℕ)) → Dict (Value F) → List (Text × List ℕ)
  pack_files decode files =
      pack_sorted decode (sort (λ (e f : String × Value F). text_lt (codes e.0) (codes f.0)) files)

  -- The entries that are dicts.
  unfoldable pub dicts : Items F → List (Fields F)
  dicts nil = []
  dicts (cons (obj fs) vs) = fs ∷ dicts vs
  dicts (cons _ vs) = dicts vs

  abbrev pub category_of : Fields F → Text
  category_of item = lower (strip (codes (to_string conv (at_or conv item "category" (str "")))))

  abbrev pub bucket_items : Dict (List (Fields F)) → String → List (Fields F)
  bucket_items buckets bucket = elim (get buckets bucket) [ none ↦ [] | some items ↦ items ]

  -- buckets.setdefault(bucket, []).append(item)
  abbrev pub add_item : Dict (List (Fields F)) → Option String → Fields F → Dict (List (Fields F))
  add_item buckets none item = buckets
  add_item buckets (some bucket) item =
      put buckets bucket (bucket_items buckets bucket ++ (item ∷ []))

  unfoldable pub fill_buckets : List (Fields F) → Dict (List (Fields F)) → Dict (List (Fields F))
  fill_buckets [] buckets = buckets
  fill_buckets (item ∷ items) buckets =
      fill_buckets items (add_item buckets (bucket_of (category_of item)) item)

  -- The buckets that stand in the document itself.
  unfoldable pub own_buckets : Fields F → List String → Dict (List (Fields F))
  own_buckets doc [] = []
  own_buckets doc (key ∷ keys) =
      let rest = own_buckets doc keys in
      elim (get_or_null doc key) [
        | arr items ↦ (key, dicts items) ∷ rest
        | null ↦ rest
        | bool b ↦ rest
        | int n ↦ rest
        | float x ↦ rest
        | str s ↦ rest
        | obj fs ↦ rest
      ]

  abbrev pub or_none : Dict (List (Fields F)) → Option (Dict (List (Fields F)))
  or_none [] = none
  or_none (b ∷ buckets) = some (b ∷ buckets)

  abbrev pub truth_of : String → Fields F → Value F → Option (Dict (List (Fields F)))
  truth_of track doc (arr findings) = or_none (
      fill_buckets (dicts findings)
        (if track == "repositories" then ("vulnerabilities", []) ∷ [] else []))
  truth_of track doc _ =
      or_none (own_buckets doc ("vulnerabilities" ∷ "supply_chain" ∷ "secrets" ∷ []))

  -- `_ground_truth` of a document that is a dict
  unfoldable pub ground_truth : String → Fields F → Option (Dict (List (Fields F)))
  ground_truth track doc =
      if is_empty (entries doc)
      then none
      else truth_of track doc (get_or_null doc "expected_findings")

  -- `select_from_listing`, where `sample` is random.Random(seed).sample, of a count that is not
  -- negative.
  abbrev pub source_of : Fields F → Text
  source_of e = codes (to_string conv (get_or_null e "source_id"))

  unfoldable pub select_from_listing :
      (String → List (Fields F) → ℕ → List (Fields F))
      → List (Fields F)
      → String
      → ℕ
      → List (Fields F)
  select_from_listing sample es draw_seed count =
      let pool =
        sort (λ (e f : Fields F). text_lt (source_of e) (source_of f))
          (keep (λ (e : Fields F). truthy (get_or_null e "source_id")) es) in
      if draw_seed == "" || leb count 0 || leb (length pool) count
      then pool
      else sample draw_seed pool count
