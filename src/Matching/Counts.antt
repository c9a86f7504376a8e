-- ===== src/Matching/Counts.antt =====
-- The number of hits of the greedy matching.
use phylax_subnet.Prelude.{
  ℕ, zero, suc, ◌+◌, ◌≤◌, ◌<◌, ◌≡◌, refl, Bool, true, false, not, ◌&&◌, ◌=ℕ◌, Option, none, some,
  List, [], ◌∷◌, arith, length, All, Bool-cases, Option-cases, inl, inr, if◌then◌else◌,
}
use phylax_subnet.Matching.{is_used, first_match, count_hits}

-- How many of the positions from i on, n of them, are not used.
free : ℕ → ℕ → List ℕ → ℕ
free i zero used = 0
free i (suc n) used = (if is_used i used then 0 else 1) + free (i + 1) n used

free-all : (i n : ℕ) → free i n [] ≡ n
unfolding free
free-all i zero = refl
free-all i (suc n) = omega (arith, free-all (i + 1) n)

-- A position outside the range does not count.
free-outside : (i n p : ℕ) (used : List ℕ) → p < i → free i n (p ∷ used) ≡ free i n used
unfolding free
free-outside i zero p used h = refl
free-outside i (suc n) p used h = ground (arith, free-outside (i + 1) n p used)

-- What stands at position p, the list beginning at position i.
abbrev pub place : {R : Type 0} → ℕ → List R → ℕ → Option R
place i [] p = none
place i (r ∷ rs) p = if p =ℕ i then some r else place (i + 1) rs p

-- The positions that were assigned.
abbrev pub chosen : List (Option ℕ) → List ℕ
chosen [] = []
chosen (none ∷ ps) = chosen ps
chosen (some p ∷ ps) = p ∷ chosen ps

-- No position occurs twice.
abbrev pub AreDistinct : List ℕ → Type 0
AreDistinct [] = Unit
AreDistinct (p ∷ ps) = (is_used p ps ≡ false) × AreDistinct ps

unchosen :
    (p : ℕ) (used ps : List ℕ)
    → All (λ q. is_used q (p ∷ used) ≡ false) ps
    → (is_used p ps ≡ false) × All (λ q. is_used q used ≡ false) ps
unchosen p used [] h = (refl, tt)
unchosen p used (q ∷ ps) (k, h) =
    let (one, rest) = unchosen p used ps h in (ground arith, (ground arith, rest))

module _ {E R : Type 0} (matcher : E → R → Bool) where
  -- A match is at an unused position, which using it takes away.
  first_match-free :
      (e : E) (used : List ℕ) (i p : ℕ) (rs : List R)
      → first_match matcher e used i rs ≡ some p
      → (i ≤ p) × (free i (length rs) used ≡ suc (free i (length rs) (p ∷ used)))
  unfolding first_match free
  first_match-free e used i p [] h = cc
  first_match-free e used i p (r ∷ rs) h =
      ground (arith, first_match-free e used (i + 1) p rs, free-outside (i + 1) (length rs) p used)

  count_hits-le_free :
      (found : List R) (es : List E) (used : List ℕ)
      → count_hits matcher found used es ≤ free 0 (length found) used
  unfolding count_hits
  count_hits-le_free found [] used = omega arith
  count_hits-le_free found (e ∷ es) used =
      elim (Option-cases (first_match matcher e used 0 found)) [
        | inl none_left ↦ rw (count_hits, none_left) (count_hits-le_free found es used)
        | inr (p, at) ↦
            rw (count_hits, at)
              (omega (
                arith,
                (first_match-free e used 0 p found at).1,
                count_hits-le_free found es (p ∷ used),
              ))
      ]

  count_hits-le_expected :
      (found : List R) (es : List E) (used : List ℕ) → count_hits matcher found used es ≤ length es
  unfolding count_hits
  count_hits-le_expected found [] used = omega arith
  count_hits-le_expected found (e ∷ es) used =
      elim (Option-cases (first_match matcher e used 0 found)) [
        | inl none_left ↦
            rw (count_hits, none_left) (omega (arith, count_hits-le_expected found es used))
        | inr (p, at) ↦
            rw (count_hits, at) (omega (arith, count_hits-le_expected found es (p ∷ used)))
      ]

  -- Each expected finding is assigned no position, or one of a reported finding that matches it.
  abbrev pub IsMatching : List R → List E → List (Option ℕ) → Type 0
  IsMatching found [] [] = Unit
  IsMatching found (e ∷ es) (none ∷ ps) = IsMatching found es ps
  IsMatching found (e ∷ es) (some p ∷ ps) =
      ((r : R) × (place 0 found p ≡ some r) × (matcher e r ≡ true)) × IsMatching found es ps
  IsMatching found [] (p ∷ ps) = ⊥
  IsMatching found (e ∷ es) [] = ⊥

  first_match-place :
      (e : E) (used : List ℕ) (i p : ℕ) (rs : List R)
      → first_match matcher e used i rs ≡ some p
      → (i ≤ p)
        × (is_used p used ≡ false)
        × ((r : R) × (place i rs p ≡ some r) × (matcher e r ≡ true))
  unfolding first_match
  first_match-place e used i p [] h = cc
  first_match-place e used i p (r ∷ rs) h =
      elim (Bool-cases (not (is_used i used) && matcher e r)) [
        | inl k ↦
            let same : i ≡ p = ground arith in
            rw (← same) (omega arith, ground arith, (r, ground arith, ground arith))
        | inr k ↦
            let later : first_match matcher e used (i + 1) rs ≡ some p = ground arith in
            let (below, unused, (r', there, m)) = first_match-place e used (i + 1) p rs later in
            let apart : (p =ℕ i) ≡ false = ground arith in
            (omega arith, unused, (r', rw apart there, m))
      ]

  -- The hits from the positions used so far are a matching onto others.
  abbrev IsFresh : List R → List ℕ → List E → Type 0
  IsFresh found used es =
      (ps : List (Option ℕ)) × IsMatching found es ps
      × AreDistinct (chosen ps)
      × All (λ q. is_used q used ≡ false) (chosen ps)
      × (length (chosen ps) ≡ count_hits matcher found used es)

  count_hits-IsFresh : (found : List R) (es : List E) (used : List ℕ) → IsFresh found used es
  unfolding count_hits
  count_hits-IsFresh found [] used = ([], tt, tt, tt, refl)
  count_hits-IsFresh found (e ∷ es) used =
      elim (Option-cases (first_match matcher e used 0 found)) [
        | inl none_left ↦
            let (ps, m, d, f, n) = count_hits-IsFresh found es used in
            (none ∷ ps, m, d, f, rw (count_hits, none_left) n)
        | inr (p, at) ↦
            let (ps, m, d, f, n) = count_hits-IsFresh found es (p ∷ used) in
            let (below, unused, there) = first_match-place e used 0 p found at in
            let (once, fresh) = unchosen p used (chosen ps) f in
            (
              some p ∷ ps,
              (there, m),
              (once, d),
              (unused, fresh),
              rw (count_hits, at) (omega (arith, n)),
            )
      ]

  -- The hits count a matching that assigns each expected finding at most one reported finding, which
  -- matches it, and no reported finding twice; they are at most as many as the expected findings and
  -- at most as many as the reported ones.
  pub count_hits_bounds :
      (found : List R) (es : List E)
      → ((ps : List (Option ℕ)) × IsMatching found es ps
          × AreDistinct (chosen ps)
          × (length (chosen ps) ≡ count_hits matcher found [] es))
        × (count_hits matcher found [] es ≤ length es)
        × (count_hits matcher found [] es ≤ length found)
  count_hits_bounds found es =
      let (ps, m, d, f, n) = count_hits-IsFresh found es [] in
      (
        (ps, m, d, n),
        count_hits-le_expected found es [],
        omega (arith, count_hits-le_free found es [], free-all 0 (length found)),
      )
