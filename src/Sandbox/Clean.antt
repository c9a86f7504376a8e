-- ===== src/Sandbox/Clean.antt =====
-- The paths of packed files: the cleaning of a path in `pack` of neurons/sandbox.py, and in `_pack` of
-- phylax/harness/corpus.py.
use phylax_subnet.Prelude.{
  ℕ, ◌≡◌, Bool, true, false, List, [], ◌∷◌, ◌=ℕ◌, inl, inr, is_empty, any, All, Bool-cases, arith,
}
use phylax_subnet.Prelude.Text.{Text, codes, same}
use phylax_subnet.Sandbox.{slashes, strip_slashes, split_slashes, is_unsafe, clean_path}

-- The path is empty or begins with a slash.
abbrev pub is_absolute : Text → Bool
is_absolute [] = true
is_absolute (c ∷ p) = c =ℕ 47

-- A backslash, the separator of other systems.
abbrev pub is_backslash : ℕ → Bool
is_backslash c = c =ℕ 92

-- The path is not empty, does not begin with a slash, holds no backslash, and none of the names that
-- its slashes separate is "..".
abbrev pub IsInside : Text → Type 0
IsInside p =
    (is_absolute p ≡ false)
    × All (λ c. is_backslash c ≡ false) p
    × All (λ s. same s (codes "..") ≡ false) ((split_slashes p).0 ∷ (split_slashes p).1)

slashes_plain : (s : Text) → All (λ c. is_backslash c ≡ false) (slashes s)
slashes_plain [] = tt
slashes_plain (c ∷ s) = (ground arith, slashes_plain s)

strip_slashes_plain :
    (s : Text)
    → All (λ c. is_backslash c ≡ false) s
    → All (λ c. is_backslash c ≡ false) (strip_slashes s)
unfolding strip_slashes
strip_slashes_plain [] h = tt
strip_slashes_plain (c ∷ s) (p, h) = elim (Bool-cases (c =ℕ 47)) [
  | inl e ↦ rw e (strip_slashes_plain s h)
  | inr e ↦ rw e (p, h)
]

strip_slashes-is_absolute :
    (s : Text) → is_empty (strip_slashes s) ≡ false → is_absolute (strip_slashes s) ≡ false
unfolding strip_slashes
strip_slashes-is_absolute [] h = cc
strip_slashes-is_absolute (c ∷ s) h = elim (Bool-cases (c =ℕ 47)) [
  | inl e ↦ rw e (strip_slashes-is_absolute s (rw e at h))
  | inr e ↦ rw e e
]

none_of : {A : Type 0} (p : A → Bool) (xs : List A) → any p xs ≡ false → All (λ x. p x ≡ false) xs
none_of p [] h = tt
none_of p (x ∷ xs) h = (ground arith, none_of p xs (ground arith))

-- A cleaned path that is not refused is inside.
pub clean_path-IsInside :
    (path : Text) → is_unsafe (clean_path path) ≡ false → IsInside (clean_path path)
unfolding is_unsafe clean_path
clean_path-IsInside path h = (
  strip_slashes-is_absolute (slashes path) (ground arith),
  strip_slashes_plain (slashes path) (slashes_plain path),
  none_of (λ s. same s (codes ".."))
      ((split_slashes (clean_path path)).0 ∷ (split_slashes (clean_path path)).1) (ground arith),
)
