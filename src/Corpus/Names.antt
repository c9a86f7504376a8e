-- ===== src/Corpus/Names.antt =====
-- The last part of a path: `name.rsplit("/", 1)[-1]` of phylax/harness/corpus.py.
use phylax_subnet.Prelude.{
  ℕ, ◌≡◌, refl, Bool, true, false, List, [], ◌∷◌, ◌=ℕ◌, is_empty, Bool-cases, inl, inr, arith, any,
}
use phylax_subnet.Prelude.Text.{Text, same, ends_with}
use phylax_subnet.Sandbox.{split_slashes}
use phylax_subnet.Corpus.{last_of}

abbrev pub last_part : Text → Text
last_part name = let (part, parts) = split_slashes name in last_of part parts

abbrev pub has_slash : Text → Bool
has_slash s = any (λ (c : ℕ). c =ℕ 47) s

-- A text without slashes is one part.
split-plain : (s f : Text) → same s f ≡ true → has_slash f ≡ false → split_slashes s ≡ (s, [])
unfolding split_slashes same
split-plain [] f e p = refl
split-plain (c ∷ s) [] e p = cc
split-plain (c ∷ s) (d ∷ f) e p =
    let rest = split-plain s f (ground arith) (ground arith) in
    let plain : (c =ℕ 47) ≡ false = ground arith in rw (rest, plain) refl

-- The last of more than one part does not depend on the first.
last_kept :
    (part part' : Text) (parts : List Text) (f : Text)
    → is_empty parts ≡ false
    → same (last_of part' parts) f ≡ true
    → same (last_of part parts) f ≡ true
last_kept part part' [] f h e = cc
last_kept part part' (p ∷ parts) f h e = e

-- Where a path ends in a slash and a name, it has more than one part, and the name is the last one.
split-ends :
    (s f : Text)
    → has_slash f ≡ false
    → ends_with s (47 ∷ f) ≡ true
    → (is_empty (split_slashes s).1 ≡ false) × (same (last_part s) f ≡ true)
unfolding split_slashes ends_with same
split-ends [] f p h = cc
split-ends (c ∷ s) f p h = elim (Bool-cases (same (c ∷ s) (47 ∷ f))) [
  | inl e ↦
      let slash : (c =ℕ 47) ≡ true = ground arith in
      let equal : same s f ≡ true = ground arith in
      let whole = split-plain s f equal p in rw (slash, whole) (refl, equal)
  | inr e ↦
      let (more, last) = split-ends s f p (ground arith) in
      elim (Bool-cases (c =ℕ 47)) [
        | inl t ↦ rw t (refl, last)
        | inr t ↦ rw t (
          more,
          last_kept (c ∷ (split_slashes s).0) (split_slashes s).0 (split_slashes s).1 f more last,
        )
      ]
]

-- A path whose last part is another name does not end in the name.
pub other-ends :
    (name f : Text)
    → has_slash f ≡ false
    → same (last_part name) f ≡ false
    → ends_with (47 ∷ name) (47 ∷ f) ≡ false
unfolding ends_with same
other-ends name f p h = elim (Bool-cases (same name f)) [
  | inl e ↦ let k = rw (split-plain name f e p) at h in cc
  | inr e ↦ elim (Bool-cases (ends_with name (47 ∷ f))) [
    | inl t ↦ let (more, last) = split-ends name f p t in cc
    | inr t ↦ rw (e, t) refl
  ]
]
