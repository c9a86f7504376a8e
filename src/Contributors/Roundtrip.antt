-- ===== src/Contributors/Roundtrip.antt =====
-- Publishing the contributors and reading them back: scripts/publish_contributors.py and
-- `_parse_contributors` of neurons/validator.py.
use phylax_subnet.Prelude.{
  ℕ, ◌≡◌, refl, ap, sym, ◌∙◌, Bool, true, false, not, ◌||◌, Option, List, [], ◌∷◌, ◌++◌, ◌=ℕ◌, All,
  All-append, is_empty, arith,
}
use phylax_subnet.Prelude.Text.{Text, codes, is_space, starts_with, IsUnspaced, strip-IsUnspaced}
use phylax_subnet.Emission.Sort.{sort, text_lt, All-sort}
use phylax_subnet.Contributors.{split_commas, stripped, parse_contributors, join_commas, payload}

abbrev pub is_plain : ℕ → Bool
is_plain c = not (is_space c || c =ℕ b',' || c =ℕ b'[')

-- A key of one character or more, none of them white space, "," or "[".
abbrev pub IsKey : Text → Type 0
IsKey k = (is_empty k ≡ false) × All (λ c. is_plain c ≡ true) k

split_commas-key :
    (k rest : Text)
    → All (λ c. is_plain c ≡ true) k
    → split_commas (k ++ rest) ≡ (k ++ (split_commas rest).0, (split_commas rest).1)
unfolding split_commas
split_commas-key [] rest h = refl
split_commas-key (c ∷ k) rest (p, h) =
    let comma : (c =ℕ b',') ≡ false = ground arith in rw (split_commas-key k rest h, comma) refl

plain-IsUnspaced : (k : Text) → All (λ c. is_plain c ≡ true) k → IsUnspaced k
plain-IsUnspaced [] h = tt
plain-IsUnspaced (c ∷ k) (p, h) = (ground arith, plain-IsUnspaced k h)

join_commas-IsUnspaced : (keys : List Text) → All IsKey keys → IsUnspaced (join_commas keys)
unfolding join_commas
join_commas-IsUnspaced [] h = tt
join_commas-IsUnspaced (k ∷ []) (p, h) = plain-IsUnspaced k p.1
join_commas-IsUnspaced (k ∷ j ∷ keys) (p, h) =
    All-append _ k _ (plain-IsUnspaced k p.1) (refl, join_commas-IsUnspaced (j ∷ keys) h)

stripped-keys : (keys : List Text) → All IsKey keys → stripped keys ≡ keys
stripped-keys [] h = refl
stripped-keys (k ∷ keys) (p, h) =
    rw (strip-IsUnspaced k (plain-IsUnspaced k p.1), p.0, stripped-keys keys h) refl

append_nil : (k : Text) → k ++ [] ≡ k
append_nil [] = refl
append_nil (c ∷ k) = rw (append_nil k) refl

split_commas-join_commas :
    (k : Text) (keys : List Text)
    → All IsKey (k ∷ keys)
    → split_commas (join_commas (k ∷ keys)) ≡ (k, keys)
unfolding join_commas split_commas
split_commas-join_commas k [] (p, h) =
    ap split_commas (sym (append_nil k))
    ∙ split_commas-key k [] p.1
    ∙ ap (λ (q : Text). (q, [])) (append_nil k)
split_commas-join_commas k (j ∷ keys) (p, h) =
    rw
      (
        split_commas-key k (b',' ∷ join_commas (j ∷ keys)) p.1,
        split_commas-join_commas j keys h,
        append_nil k,
      )
      refl

-- What is joined is no JSON, and not empty.
join_commas-start :
    (k : Text) (keys : List Text)
    → IsKey k
    → (is_empty (join_commas (k ∷ keys)) ≡ false)
      × (starts_with (join_commas (k ∷ keys)) (codes "[") ≡ false)
unfolding join_commas starts_with codes
join_commas-start [] keys h = let e = h.0 in cc
join_commas-start (c ∷ k) [] (e, (p, h)) = (refl, ground arith)
join_commas-start (c ∷ k) (j ∷ keys) (e, (p, h)) = (refl, ground arith)

-- A list of keys is read back as it was joined.
parse_contributors-join_commas :
    (loads : Text → Option (List Text)) (keys : List Text)
    → All IsKey keys
    → parse_contributors loads (join_commas keys) ≡ keys
unfolding parse_contributors join_commas
parse_contributors-join_commas loads [] h = rw (strip-IsUnspaced [] tt) refl
parse_contributors-join_commas loads (k ∷ keys) h =
    let (filled, no_json) = join_commas-start k keys h.0 in
    rw
      (
        strip-IsUnspaced (join_commas (k ∷ keys)) (join_commas-IsUnspaced (k ∷ keys) h),
        filled,
        no_json,
        split_commas-join_commas k keys h,
      )
      (stripped-keys (k ∷ keys) h)

-- What is published of keys without white space, "," or "[" is read back as their sorted list.
pub parse_contributors-payload :
    (loads : Text → Option (List Text)) (contributors : List Text)
    → All IsKey contributors
    → parse_contributors loads (payload contributors) ≡ sort text_lt contributors
unfolding payload
parse_contributors-payload loads contributors h =
    parse_contributors-join_commas loads (sort text_lt contributors)
      (All-sort IsKey text_lt contributors h)
