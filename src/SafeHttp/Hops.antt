-- ===== src/SafeHttp/Hops.antt =====
-- What a fetch asks for and what it returns: `safe_get_bytes` of phylax/utils/safe_http.py.
use phylax_subnet.Prelude.{
  ℕ, zero, suc, ◌+◌, ◌≤◌, ◌≡◌, refl, true, false, String, Option, none, some, List, [], ◌∷◌, ◌==◌,
  ◌⊎◌, inl, inr, arith, All, Any, subst, ◌&&◌, length, Bool-cases, Option-cases, if◌then◌else◌, leb,
  ltb, ◌=ℕ◌,
}
use phylax_subnet.Value.{Outcome, returns, raises, Outcome-cases, >>=-eq-returns, by_branch}
use phylax_subnet.SafeHttp.{Network, Response, is_safe_url, redirected, hops, safe_get_bytes}

module _ (net : Network) where
  -- A URL that was found safe at the hop it was asked for at.
  abbrev pub IsChecked : ℕ × String → Type 0
  IsChecked asked = is_safe_url net asked.0 asked.1 ≡ returns true

  redirected-safe :
      (hop : ℕ) (r : Response) (next_url : String)
      → redirected net hop r ≡ returns (some next_url)
      → is_safe_url net (hop + 1) next_url ≡ returns true
  unfolding redirected
  redirected-safe hop r next_url h = elim (Option-cases r.location) [
    | inl e ↦ cc
    | inr (loc, e) ↦
        by_branch (loc == "") (λ k. cc)
          (λ k.
            let (url, e1, h1) = >>=-eq-returns (net.join r.url loc) _ k in
            let (safe, e2, h2) = >>=-eq-returns (is_safe_url net (hop + 1) url) _ h1 in
            elim (Bool-cases safe) [ inl f ↦ cc | inr f ↦ cc ])
          (rw (redirected, e) at h)
  ]

  -- The body is that of an answer with status 200 to this request, and not too long.
  abbrev pub IsBody : ℕ → List ℕ → ℕ × String → Type 0
  IsBody max_bytes body asked =
      (r : Response) × (net.request asked.0 asked.1 ≡ some r)
      × (r.status ≡ 200)
      × (r.content ≡ body)
      × (length body ≤ max_bytes)

  -- How a fetch ends with this request: by an error, with nothing, or with a body.
  abbrev IsEnd : ℕ → ℕ × String → Outcome (Option (List ℕ)) → Type 0
  IsEnd max_bytes asked result =
      (result ≡ raises)
      ⊎ (result ≡ returns none)
      ⊎ ((body : List ℕ) × IsBody max_bytes body asked × (result ≡ returns (some body)))

  source_of_end :
      (max_bytes : ℕ) (asked : ℕ × String) (body : List ℕ)
      → IsEnd max_bytes asked (returns (some body))
      → IsBody max_bytes body asked
  source_of_end max_bytes asked body (inl e) = cc
  source_of_end max_bytes asked body (inr (inl e)) = cc
  source_of_end max_bytes asked body (inr (inr (found, h, e))) =
      let same : found ≡ body = cc in subst (λ b. IsBody max_bytes b asked) same h

  body-IsEnd :
      (max_bytes hop : ℕ) (url : String) (r : Response)
      → net.request hop url ≡ some r
      → r.status ≡ 200
      → IsEnd max_bytes
          (hop, url)
          (returns (if ltb max_bytes (length r.content) then none else some r.content))
  body-IsEnd max_bytes hop url r e s = elim (Bool-cases (ltb max_bytes (length r.content))) [
    | inl t ↦ rw t (inr (inl refl))
    | inr t ↦ rw t (inr (inr (r.content, (r, e, s, refl, ground arith), refl)))
  ]

  -- A round ends the fetch with its request, or follows a redirect to a safe URL.
  round_cases :
      (max_bytes rounds hop : ℕ) (url : String)
      → ((result : Outcome (Option (List ℕ))) × IsEnd max_bytes (hop, url) result
          × (hops net max_bytes (suc rounds) hop url ≡ ((hop, url) ∷ [], result)))
        ⊎ ((next_url : String) × (is_safe_url net (hop + 1) next_url ≡ returns true)
            × (hops net max_bytes (suc rounds) hop url ≡ (
              (hop, url) ∷ (hops net max_bytes rounds (hop + 1) next_url).0,
              (hops net max_bytes rounds (hop + 1) next_url).1,
            )))
  unfolding hops
  round_cases max_bytes rounds hop url = elim (Option-cases (net.request hop url)) [
    | inl e ↦ rw (hops, e) (inl (returns none, inr (inl refl), refl))
    | inr (r, e) ↦ elim (Bool-cases (leb 300 r.status && ltb r.status 400)) [
      | inl t ↦ elim (Outcome-cases (redirected net hop r)) [
        | inl f ↦ rw (hops, e, t, f) (inl (raises, inl refl, refl))
        | inr (none, f) ↦ rw (hops, e, t, f) (inl (returns none, inr (inl refl), refl))
        | inr (some next_url, f) ↦
            rw (hops, e, t, f) (inr (next_url, redirected-safe hop r next_url f, refl))
      ]
      | inr t ↦ elim (Bool-cases (r.status =ℕ 200)) [
        | inl s ↦ inl (_, body-IsEnd max_bytes hop url r e (ground arith), rw (hops, e, t, s) refl)
        | inr s ↦ rw (hops, e, t, s) (inl (returns none, inr (inl refl), refl))
      ]
    ]
  ]

  hops-IsChecked :
      (max_bytes rounds hop : ℕ) (url : String)
      → is_safe_url net hop url ≡ returns true
      → All IsChecked (hops net max_bytes rounds hop url).0
  unfolding hops
  hops-IsChecked max_bytes zero hop url h = tt
  hops-IsChecked max_bytes (suc rounds) hop url h = elim (round_cases max_bytes rounds hop url) [
    | inl (result, _, e) ↦ rw e (h, tt)
    | inr (next_url, safe, e) ↦ rw e (h, hops-IsChecked max_bytes rounds (hop + 1) next_url safe)
  ]

  hops-length :
      (max_bytes rounds hop : ℕ) (url : String)
      → length (hops net max_bytes rounds hop url).0 ≤ rounds
  unfolding hops
  hops-length max_bytes zero hop url = omega arith
  hops-length max_bytes (suc rounds) hop url = elim (round_cases max_bytes rounds hop url) [
    | inl (result, _, e) ↦ rw e (omega arith)
    | inr (next_url, safe, e) ↦
        rw e (omega (arith, hops-length max_bytes rounds (hop + 1) next_url))
  ]

  -- A body that is returned is that of a request of the fetch.
  hops-content :
      (max_bytes rounds hop : ℕ) (url : String) (body : List ℕ)
      → (hops net max_bytes rounds hop url).1 ≡ returns (some body)
      → Any (IsBody max_bytes body) (hops net max_bytes rounds hop url).0
  unfolding hops
  hops-content max_bytes zero hop url body h = cc
  hops-content max_bytes (suc rounds) hop url body h = elim (round_cases max_bytes rounds hop url) [
    | inl (result, end, e) ↦ rw e (
        inl (
          source_of_end max_bytes (hop, url) body
            (subst (IsEnd max_bytes (hop, url)) (rw e at h) end)))
    | inr (next_url, safe, e) ↦
        rw e (inr (hops-content max_bytes rounds (hop + 1) next_url body (rw e at h)))
  ]

  -- Every URL that a fetch asks for was found safe at the hop it is asked for at.
  pub safe_get_bytes-IsChecked :
      (max_redirects max_bytes : ℕ) (url : String)
      → All IsChecked (safe_get_bytes net max_redirects max_bytes url).0
  unfolding safe_get_bytes
  safe_get_bytes-IsChecked max_redirects max_bytes url =
      elim (Outcome-cases (is_safe_url net 0 url)) [
        | inl e ↦ rw (safe_get_bytes, e) tt
        | inr (false, e) ↦ rw (safe_get_bytes, e) tt
        | inr (true, e) ↦
            rw (safe_get_bytes, e) (hops-IsChecked max_bytes (max_redirects + 1) 0 url e)
      ]

  -- A fetch makes one request more than the redirects allowed, at most.
  pub safe_get_bytes-length :
      (max_redirects max_bytes : ℕ) (url : String)
      → length (safe_get_bytes net max_redirects max_bytes url).0 ≤ max_redirects + 1
  unfolding safe_get_bytes
  safe_get_bytes-length max_redirects max_bytes url =
      ground (arith, hops-length max_bytes (max_redirects + 1) 0 url)

  -- A body that is returned is that of an answer with status 200 to a request of the fetch, and no
  -- longer than allowed.
  pub safe_get_bytes-content :
      (max_redirects max_bytes : ℕ) (url : String) (body : List ℕ)
      → (safe_get_bytes net max_redirects max_bytes url).1 ≡ returns (some body)
      → Any (IsBody max_bytes body) (safe_get_bytes net max_redirects max_bytes url).0
  unfolding safe_get_bytes
  safe_get_bytes-content max_redirects max_bytes url body h =
      elim (Outcome-cases (is_safe_url net 0 url)) [
        | inl e ↦ cc
        | inr (false, e) ↦ cc
        | inr (true, e) ↦
            rw (safe_get_bytes, e)
              (hops-content max_bytes (max_redirects + 1) 0 url body (rw (safe_get_bytes, e) at h))
      ]
