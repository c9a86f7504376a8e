-- ===== src/Sandbox.antt =====
-- The service that runs champions for customers: neurons/sandbox.py. The bodies of the requests are
-- validated before; the backend, the hash, the archive and the run of the agent are parameters.
pub mod Clean
pub mod Packed
pub mod Served
use phylax_subnet.Prelude.{
  ℕ, ◌+◌, Bool, true, false, not, ◌&&◌, ◌||◌, String, Option, none, some, List, [], ◌∷◌, ◌++◌, ◌==◌,
  ◌=ℕ◌, leb, ltb, if◌then◌else◌, is_empty, any, length, get, map,
}
use phylax_subnet.Prelude.Text.{Text, codes, same}
use phylax_subnet.Number.{Float}
use phylax_subnet.Value.{Value, str, Fields, truthy}
use phylax_subnet.Round.{Attempt, done, abstains, fails}
use phylax_subnet.Round.Agents.{utf8_width}
use phylax_subnet.Runner.{get_or_null}

abbrev pub max_files : ℕ
max_files = 400

abbrev pub max_file_bytes : ℕ
max_file_bytes = 524288

abbrev pub max_total_bytes : ℕ
max_total_bytes = 8388608

-- `_token_guard`: hmac.compare_digest is an equality.
unfoldable pub is_allowed : String → String → Bool
is_allowed expected given = not (expected == "") && expected == given

-- path.replace("\\", "/")
abbrev pub slashes : Text → Text
slashes s = map (λ (c : ℕ). if c =ℕ 92 then 47 else c) s

-- s.lstrip("/")
unfoldable pub strip_slashes : Text → Text
strip_slashes [] = []
strip_slashes (c ∷ s) = let rest = strip_slashes s in if c =ℕ 47 then rest else c ∷ s

-- s.split("/"): the first part and the others
unfoldable pub split_slashes : Text → Text × List Text
split_slashes [] = ([], [])
split_slashes (c ∷ s) =
    let (part, parts) = split_slashes s in if c =ℕ 47 then ([], part ∷ parts) else (c ∷ part, parts)

-- not clean or ".." in clean.split("/")
unfoldable pub is_unsafe : Text → Bool
is_unsafe clean =
    let (part, parts) = split_slashes clean in
    is_empty clean || any (λ s. same s (codes "..")) (part ∷ parts)

unfoldable pub clean_path : Text → Text
clean_path path = strip_slashes (slashes path)

-- len(body.encode("utf-8", "replace")): a surrogate is replaced by one byte.
unfoldable pub encoded_length : Text → ℕ
encoded_length [] = 0
encoded_length (c ∷ s) = (if leb 55296 c && leb c 57343 then 1 else utf8_width c) + encoded_length s

-- The entries of the archive, or the status of the error.
pub data Packing : Type 0 where
  refused : ℕ → Packing
  packed : List (Text × Text) → Packing

abbrev pub first_entry : Text × Text → Packing → Packing
first_entry e (refused status) = refused status
first_entry e (packed es) = packed (e ∷ es)

-- The loop of `pack`.
unfoldable pub pack_files : List (Text × Text) → ℕ → Packing
pack_files [] total = packed []
pack_files ((path, body) ∷ files) total =
    let clean = clean_path path in
    let size = encoded_length body in
    let rest = pack_files files (total + size) in
    if is_unsafe clean
    then refused 400
    else if ltb max_file_bytes size
    then refused 413
    else if ltb max_total_bytes (total + size)
    then refused 413
    else first_entry (clean, body) rest

-- `pack`
unfoldable pub pack : List (Text × Text) → Packing
pack files = if ltb max_files (length files) then refused 413 else pack_files files 0

-- s.split(":", 1)[-1]
unfoldable pub after_colon : Text → Option Text
after_colon [] = none
after_colon (c ∷ s) = let rest = after_colon s in if c =ℕ 58 then some s else rest

abbrev pub hash_part : Text → Text
hash_part s = elim (after_colon s) [ none ↦ s | some rest ↦ rest ]

-- What the service answers.
pub data Answer (F : Type 0) : Type 0 where
  report : Value F → Answer F
  failed : ℕ → Answer F

-- A request for a run.
pub record RunRequest : Type 0 where
  pub token : String
  pub hotkey : String
  pub agent_hash : Text
  pub files : List (Text × Text)

module _ {F : Type 0} ⦃num : Float F⦄ (sha256 : Text → Text)
    (fetch : String → Attempt (Option (Fields F)))
    (run_task : List (Text × Text) → Fields F → Attempt (Option (Value F))) where
  -- The end of `run`: an exception that nothing catches is a 500.
  abbrev pub ran : Attempt (Option (Value F)) → Answer F
  ran (done (some v)) = report v
  ran (done none) = failed 422
  ran abstains = failed 503
  ran fails = failed 500

  -- The agent whose code is a text, against the hash of the champion.
  unfoldable pub serve_code : RunRequest → List (Text × Text) → Fields F → Text → Answer F
  serve_code r files fs code =
      if not (is_empty r.agent_hash) && not (same (sha256 code) (hash_part r.agent_hash))
      then failed 409
      else ran (run_task files fs)

  -- runnable["code"].encode raises unless the code is a text
  abbrev pub serve_value : RunRequest → List (Text × Text) → Fields F → Value F → Answer F
  serve_value r files fs (str s) = serve_code r files fs (codes s)
  serve_value r files fs v = if is_empty r.agent_hash then ran (run_task files fs) else failed 500

  abbrev pub serve_agent : RunRequest → List (Text × Text) → Attempt (Option (Fields F)) → Answer F
  serve_agent r files (done (some fs)) =
      let code = get_or_null fs "code" in
      if not (truthy code) then failed 404 else serve_value r files fs code
  serve_agent r files (done none) = failed 404
  serve_agent r files abstains = failed 500
  serve_agent r files fails = failed 500

  abbrev pub serve_packed : RunRequest → Packing → Answer F
  serve_packed r (refused status) = failed status
  serve_packed r (packed files) = serve_agent r files (fetch r.hotkey)

  -- POST /v1/run, `expected` being the token of the service
  unfoldable pub serve : String → RunRequest → Answer F
  serve expected r =
      if not (is_allowed expected r.token) then failed 401 else serve_packed r (pack r.files)
