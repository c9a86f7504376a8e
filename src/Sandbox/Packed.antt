-- ===== src/Sandbox/Packed.antt =====
-- What the service packs of a customer's files: `pack` of neurons/sandbox.py.
use phylax_subnet.Prelude.{ℕ, ◌+◌, ◌≤◌, ◌≡◌, List, [], ◌∷◌, length, All}
use phylax_subnet.Prelude.Text.{Text}
use phylax_subnet.Sandbox.Clean.{IsInside}
use phylax_subnet.Sandbox.{max_file_bytes, max_total_bytes, encoded_length}

abbrev pub packed_size : List (Text × Text) → ℕ
packed_size [] = 0
packed_size ((path, body) ∷ es) = encoded_length body + packed_size es

-- An entry has a path inside the root and is not too large.
abbrev pub IsSafeEntry : Text × Text → Type 0
IsSafeEntry e = IsInside e.0 × (encoded_length e.1 ≤ max_file_bytes)

-- The entries of an archive of so many files, after those of so many bytes.
abbrev IsArchive : ℕ → ℕ → List (Text × Text) → Type 0
IsArchive total n es =
    All IsSafeEntry es × (total + packed_size es ≤ max_total_bytes) × (length es ≡ n)
