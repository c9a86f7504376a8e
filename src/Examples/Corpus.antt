-- ===== src/Examples/Corpus.antt =====
-- A served source tree with a label in one of its directories.
use phylax_subnet.Prelude.{ℕ, ◌≡◌, refl, String, Option, some, List, [], ◌∷◌, Dict}
use phylax_subnet.Prelude.Text.{Text, codes, same}
use phylax_subnet.Number.Fixed.{Fixed, fixed_float}
use phylax_subnet.Value.{Value, str, to_string}
use phylax_subnet.Emission.Sort.{sort, insert, text_lt}
use phylax_subnet.Sandbox.{clean_path, strip_slashes, is_unsafe, split_slashes}
use phylax_subnet.Corpus.{pack_files, pack_sorted, is_sidecar}
use phylax_subnet.Examples.{plain}

abbrev tree : Dict (Value Fixed)
tree =
    ("src\\label.json", str "e30=") ∷ ("../b.py", str "e30=") ∷ ("/src/a.py", str "cGFzcw==") ∷ []

abbrev decode : String → Option (List ℕ)
decode s = some (112 ∷ 97 ∷ [])

abbrev archive : List (Text × List ℕ)
archive = (codes "src/a.py", 112 ∷ 97 ∷ []) ∷ []

archived : pack_files plain decode tree ≡ archive
unfolding pack_files pack_sorted is_sidecar sort insert text_lt clean_path strip_slashes is_unsafe
    split_slashes codes same to_string
archived = refl
