-- ===== src/Proxy/Keys.antt =====
-- Which key a call carries, and who may register one: `do_POST` of
-- phylax/harness/inference_proxy.py.
use phylax_subnet.Prelude.{
  Option, ◌≡◌, refl, ◌∙◌, false, String, none, some, ◌==◌, ◌⊎◌, inl, inr, arith, eq_iff,
  Option-cases, if◌then◌else◌, get,
}
use phylax_subnet.Prelude.Text.{strip_string}
use phylax_subnet.Number.{Float}
use phylax_subnet.Value.{Outcome, returns, >>=-eq-returns, by_branch, Conversions}
use phylax_subnet.Proxy.{
  Proxy, Session, Settings, Request, Reply, Call, Upstream, answered, refused, unreachable, chutes,
  openrouter, provider_url, admit_with, admit, settle, dispatch, Metrics, complete, do_post,
  admin_refusal, body_length, is_bad_length, max_body, over_budget,
}

provider_url-known :
    (provider key url : String)
    → provider_url provider key ≡ some url
    → (url ≡ chutes) ⊎ (url ≡ openrouter)
unfolding provider_url
provider_url-known provider key url h = ground arith

or_empty : (own : String) → (if own == "" then "" else own) ≡ own
or_empty own = ground (arith, eq_iff own "")

module _ {F : Type 0} ⦃num : Float F⦄ (conv : Conversions F) where
  -- An answer is no call.
  pub refused_page :
      {P : Type 0} {reply : Reply F} {call : Call}
      → ◌≡◌ {A = Outcome (Call ⊎ Reply F)} (returns (inr reply)) (returns (inl call))
      → P
  refused_page h = cc

  -- A call that is dispatched names what it was dispatched with, and the budget is not spent.
  pub dispatch-call :
      (settings : Settings) (metrics : Metrics) (nonce provider api_key : String) (call : Call)
      → dispatch conv settings metrics nonce provider api_key ≡ returns (inl call)
      → (call.nonce ≡ nonce)
        × (call.api_key ≡ api_key)
        × (provider_url provider api_key ≡ some call.url)
        × (over_budget conv settings metrics nonce ≡ none)
  unfolding dispatch
  dispatch-call settings metrics nonce provider api_key call h =
      elim (Option-cases (provider_url provider api_key)) [
        | inl e ↦ refused_page (rw (dispatch, e) at h)
        | inr (url, e) ↦
            by_branch (api_key == "") (λ k. refused_page k)
              (λ k. elim (Option-cases (over_budget conv settings metrics nonce)) [
                | inr (why, o) ↦ refused_page (rw o at k)
                | inl o ↦ let k' = rw o at k in (cc, cc, cc, o)
              ])
              (rw (dispatch, e) at h)
      ]

  -- With an admin token set, a call that goes out carries the key of the session that is registered
  -- for its nonce, never one of the agent's request, and goes to one of the two providers.
  pub admit-key :
      (settings : Settings) (p : Proxy) (r : Request F) (call : Call)
      → (settings.admin_token == "") ≡ false
      → admit conv settings p r ≡ returns (inl call)
      → ((s : Session) × (get p.sessions call.nonce ≡ some s) × (call.api_key ≡ s.api_key))
        × ((call.url ≡ chutes) ⊎ (call.url ≡ openrouter))
  unfolding admit
  admit-key settings p r call token h =
      let (length, e1, h1) = >>=-eq-returns (body_length conv r) _ (rw token at h) in
      by_branch (is_bad_length conv length max_body) (λ k. refused_page k)
        (λ k. elim (Option-cases (get p.sessions (strip_string r.nonce_header))) [
          | inl e ↦ refused_page (rw e at k)
          | inr (s, e) ↦
              let (n, key, url, _) = dispatch-call settings p.metrics _ _ _ call (rw e at k) in
              ((s, rw n e, key ∙ or_empty s.api_key), provider_url-known _ _ _ url)
        ])
        h1

  -- What goes out with a session that was looked up before carries the key of that session.
  pub admit_with-call :
      (settings : Settings) (metrics : Metrics) (session : Option Session) (r : Request F)
      (call : Call)
      → (settings.admin_token == "") ≡ false
      → admit_with conv settings metrics session r ≡ returns (inl call)
      → (call.nonce ≡ strip_string r.nonce_header)
        × ((s : Session) × (session ≡ some s) × (call.api_key ≡ s.api_key))
  admit_with-call settings metrics session r call token h =
      let (length, e1, h1) = >>=-eq-returns (body_length conv r) _ (rw token at h) in
      by_branch (is_bad_length conv length max_body) (λ k. refused_page k)
        (λ k. elim (Option-cases session) [
          | inl e ↦ refused_page (rw e at k)
          | inr (s, e) ↦
              let (n, key, url, _) = dispatch-call settings metrics _ _ _ call (rw e at k) in
              (n, (s, e, key ∙ or_empty s.api_key))
        ])
        h1

  pub settle-sessions :
      (p : Proxy) (call : Call) (u : Upstream F) → (settle conv p call u).0.sessions ≡ p.sessions
  unfolding settle
  settle-sessions p call (answered usage) = refl
  settle-sessions p call (refused code) = refl
  settle-sessions p call (unreachable why) = refl

  complete-sessions :
      (settings : Settings) (provider : Call → Upstream F) (p : Proxy) (r : Request F)
      → (complete conv settings provider p r).0.sessions ≡ p.sessions
  unfolding complete
  complete-sessions settings provider p r = grind (arith, settle-sessions)

  -- A request on the agents' port, whatever its path and body, registers and removes no session.
  pub do_post-sessions :
      (settings : Settings) (provider : Call → Upstream F) (p : Proxy) (r : Request F)
      → (do_post conv settings false provider p r).0.sessions ≡ p.sessions
  unfolding do_post admin_refusal
  do_post-sessions settings provider p r = ground (arith, complete-sessions settings provider p r)
