-- ===== src/Proxy/Traces.antt =====
-- What the proxy does for a nonce, as the events of its account (phylax/harness/inference_proxy.py).
use phylax_subnet.Prelude.{
  ℕ, ◌≡◌, refl, subst, false, ◌||◌, String, List, ◌∷◌, ◌==◌, ◌⊎◌, inl, inr, Bool-cases,
  if◌then◌else◌, get, put, pop, get-put, get-pop,
}
use phylax_subnet.Number.{Float}
use phylax_subnet.Value.{Outcome, returns, raises, Conversions}
use phylax_subnet.Proxy.{
  Proxy, Session, Settings, Reply, usage_of, reset_metrics, read_session, registered, open_session,
}
use phylax_subnet.Proxy.Interleaving.{
  Busy, out_for, Step, look, send, turn_away, receive, open_up, clear, Reach, here, next, idle,
}
use phylax_subnet.Proxy.Account.{
  AccountEvent, registers, cleared, elsewhere, run, IsLegal, waiting_for, account, session_event,
  event_of, account_events,
}
use phylax_subnet.Proxy.Traced.{spent-pop, same_account, IsTraced, traced}
use phylax_subnet.Proxy.TracedCalls.{
  look-IsTraced, send-IsTraced, turn_away-IsTraced, receive-IsTraced,
}

module _ {F : Type 0} ⦃num : Float F⦄ (conv : Conversions F) (nonce : String)
    (named : nonce == "" ≡ false) (settings : Settings) (limit : ℕ) where
  clear-IsTraced :
      {es : List AccountEvent} {b : Busy F} (k : String)
      → IsTraced nonce settings.max_requests es b
      → IsTraced nonce settings.max_requests
          ((if k == "" || k == nonce then cleared else elsewhere) ∷ es)
          (record b { proxy = (reset_metrics {F = F} conv b.proxy k).0 })
  unfolding reset_metrics usage_of get
  clear-IsTraced {es} {b} k t = elim (Bool-cases (k == "")) [
    | inl e ↦
        rw (reset_metrics, e)
          (traced nonce cleared _ t tt refl (same_account refl refl refl refl) t.known)
    | inr e ↦ elim (Bool-cases (k == nonce)) [
      | inl f ↦
          rw (reset_metrics, e, f)
            (traced nonce cleared _ t tt refl
              (same_account (rw (get-pop b.proxy.sessions k nonce, f) refl) refl
                (rw (spent-pop b.proxy.metrics k nonce, f) refl) refl)
              t.known)
      | inr f ↦
          rw (reset_metrics, e, f)
            (traced nonce elsewhere _ t tt refl
              (same_account (rw (get-pop b.proxy.sessions k nonce, f) refl) refl
                (rw (spent-pop b.proxy.metrics k nonce, f) refl) refl)
              t.known)
    ]
  ]

  with_proxy :
      {budget : ℕ} {es : List AccountEvent} (b : Busy F) {p p' : Proxy}
      → p ≡ p'
      → IsTraced nonce budget es (record b { proxy = p })
      → IsTraced nonce budget es (record b { proxy = p' })
  with_proxy {budget} {es} b e t =
      subst (λ q. IsTraced nonce budget es (record b { proxy = q })) e t

  opened-IsTraced :
      {es : List AccountEvent} {b : Busy F} (asked : Outcome ((String × Session) ⊎ Reply F))
      (p : Proxy) (reply : Reply F)
      → registered conv b.proxy asked ≡ returns (p, reply)
      → IsTraced nonce settings.max_requests es b
      → IsTraced nonce settings.max_requests
          (session_event nonce asked ∷ es)
          (record b { proxy = p })
  opened-IsTraced raises p reply h t = cc
  opened-IsTraced {es} {b} (returns (inr page)) p reply h t =
      let same : b.proxy ≡ p = cc in
      with_proxy b same
        (traced nonce elsewhere b t tt refl (same_account refl refl refl refl) t.known)
  opened-IsTraced {es} {b} (returns (inl (name, session))) p reply h t =
      let same : record {
        metrics = pop b.proxy.metrics name;
        sessions = put b.proxy.sessions name session;
      }
          ≡ p =
        cc in
      with_proxy b same (elim (Bool-cases (name == nonce)) [
        | inl f ↦ rw f (
            traced nonce (registers session.api_key) _ t tt refl
              (same_account (rw (get-put b.proxy.sessions name nonce session, f) refl) refl
                (rw (spent-pop b.proxy.metrics name nonce, f) refl) refl)
              t.known)
        | inr f ↦ rw f (
            traced nonce elsewhere _ t tt refl
              (same_account (rw (get-put b.proxy.sessions name nonce session, f) refl) refl
                (rw (spent-pop b.proxy.metrics name nonce, f) refl) refl)
              t.known)
      ])

  module _ (token : (settings.admin_token == "") ≡ false) where
    Step-IsTraced :
        {es : List AccountEvent} {b c : Busy F} (step : Step conv settings limit b c)
        → IsTraced nonce settings.max_requests es b
        → IsTraced nonce settings.max_requests (event_of conv settings limit nonce step ∷ es) c
    unfolding open_session
    Step-IsTraced (look r) t = look-IsTraced conv nonce named settings limit r t
    Step-IsTraced (send before after r session call free e h) t =
        send-IsTraced conv nonce named settings limit before after r session call token free e h t
    Step-IsTraced (turn_away before after r session e h) t =
        turn_away-IsTraced conv nonce named settings limit before after r session e t
    Step-IsTraced (receive before after call u e) t =
        receive-IsTraced conv nonce named settings limit before after call u e t
    Step-IsTraced (open_up r p reply h) t = opened-IsTraced (read_session conv r) p reply h t
    Step-IsTraced (clear k) t = clear-IsTraced k t

    Reach-IsTraced :
        {c : Busy F} (reached : Reach conv settings limit idle c)
        → IsTraced nonce settings.max_requests (account_events conv settings limit nonce reached) c
    unfolding usage_of get out_for waiting_for
    Reach-IsTraced here = record { legal = tt; ended = refl; known = tt }
    Reach-IsTraced (next reached step) = Step-IsTraced step (Reach-IsTraced reached)

    -- However the threads of the proxy interleave and whatever they serve for other nonces, the
    -- steps are legal events of the account of a nonce that is not empty, if an admin token is set,
    -- and the account that the events lead to is what the proxy holds. A call goes out for a request
    -- that waits, with a key that such a request has found registered, and while the answers counted
    -- since the last session or reset are below the budget; each answer is counted once.
    pub Reach-IsLegal :
        {c : Busy F} (reached : Reach conv settings limit idle c)
        → IsLegal settings.max_requests (account_events conv settings limit nonce reached)
          × (run (account_events conv settings limit nonce reached) ≡ account nonce c)
    Reach-IsLegal reached = let t = Reach-IsTraced reached in (t.legal, t.ended)
