-- ===== src/Proxy/TracedCalls.antt =====
-- The steps of a chat completion as events of an account (phylax/harness/inference_proxy.py).
use phylax_subnet.Prelude.{
  ℕ, ◌+◌, ◌<◌, ◌≡◌, refl, sym, ap, subst, ◌∙◌, true, false, String, Option, some, List, ◌∷◌, ◌++◌,
  ◌==◌, inl, inr, arith, eq_iff, eq_refl, length, Bool-cases, Any, All, All-weaken, if◌then◌else◌,
  get,
}
use phylax_subnet.Prelude.Text.{strip_string}
use phylax_subnet.Number.{Float}
use phylax_subnet.Value.{returns, Conversions}
use phylax_subnet.Proxy.{
  Proxy, Session, Settings, Request, Call, Upstream, answered, refused, unreachable, admit_with,
  settle,
}
use phylax_subnet.Proxy.Keys.{admit_with-call, settle-sessions}
use phylax_subnet.Proxy.Budget.{spent, record_upstream_error-spent, admit_with-spent}
use phylax_subnet.Proxy.Interleaving.{Busy, out_for, look, send}
use phylax_subnet.Proxy.Account.{
  Account, AccountEvent, looked_up, turned_away, called, counted, dropped, elsewhere, run, found,
  key_of_session, waiting_for, account, answer_event, event_of,
}
use phylax_subnet.Proxy.Traced.{
  All-middle, same_account, out_for-middle, waiting_for-middle, IsFound, IsTraced, traced,
  record_answer-counted,
}

module _ {F : Type 0} ⦃num : Float F⦄ (conv : Conversions F) (nonce : String)
    (named : nonce == "" ≡ false) (settings : Settings) (limit : ℕ) where
  pub look-IsTraced :
      {es : List AccountEvent} {b : Busy F} (r : Request F)
      → IsTraced nonce settings.max_requests es b
      → IsTraced nonce settings.max_requests
          (event_of conv settings limit nonce {b = b} (look r) ∷ es)
          (record b {
            waiting = (r, get b.proxy.sessions (strip_string r.nonce_header)) ∷ b.waiting;
          })
  unfolding waiting_for
  look-IsTraced {es} {b} r t = elim (Bool-cases (strip_string r.nonce_header == nonce)) [
    | inl e ↦
        let same : strip_string r.nonce_header ≡ nonce =
          (eq_iff (strip_string r.nonce_header) nonce).0 e in
        let key = key_of_session (get b.proxy.sessions nonce) in
        rw e record {
          legal = (ap (λ (a : Account). a.key) (sym t.ended), t.legal);
          ended = rw t.ended (same_account refl (rw e refl) refl refl);
          known = (
            λ s. inl (rw same refl),
            All-weaken (IsFound nonce es) (IsFound nonce (looked_up key ∷ es)) b.waiting
                (λ w p s. inr (p s)) t.known,
          );
        }
    | inr e ↦ rw e (
        traced nonce elsewhere _ t tt refl (same_account refl (rw e refl) refl refl)
          ((λ s. (let no = rw e at s in cc)), t.known))
  ]

  -- A request is taken from those that wait.
  taken :
      {es : List AccountEvent} {b : Busy F} (before after : List (Request F × Option Session))
      (r : Request F) (session : Option Session)
      → IsTraced nonce settings.max_requests es b
      → b.waiting ≡ before ++ (r, session) ∷ after
      → (IsFound nonce es (r, session) × All (IsFound nonce es) (before ++ after))
        × (waiting_for nonce b.waiting
            ≡ waiting_for nonce (before ++ after)
              + (if strip_string r.nonce_header == nonce then 1 else 0))
  taken {es} {b} before after r session t e = (
    All-middle (IsFound nonce es) before after (r, session)
        (subst (All (IsFound nonce es)) e t.known),
    ap (waiting_for nonce) e ∙ waiting_for-middle nonce before after r session,
  )

  pub send-IsTraced :
      {es : List AccountEvent} {b : Busy F} (before after : List (Request F × Option Session))
      (r : Request F) (session : Option Session) (call : Call)
      (token : (settings.admin_token == "") ≡ false) (free : length b.out < limit)
      (e : b.waiting ≡ before ++ (r, session) ∷ after)
      (h : admit_with conv settings b.proxy.metrics session r ≡ returns (inl call))
      → IsTraced nonce settings.max_requests es b
      → IsTraced nonce settings.max_requests
          (event_of conv settings limit nonce {b = b} (send before after r session call free e h)
            ∷ es)
          (record b { waiting = before ++ after; out = call ∷ b.out })
  unfolding out_for
  send-IsTraced {es} {b} before after r session call token free e h t =
      let ((mine, others), left) = taken before after r session t e in
      let (n, (s, f, k)) = admit_with-call conv settings b.proxy.metrics session r call token h in
      let below = admit_with-spent conv settings b.proxy.metrics session r call h in
      let was : run es ≡ account nonce b = t.ended in
      elim (Bool-cases (strip_string r.nonce_header == nonce)) [
        | inl g ↦
            let same : call.nonce ≡ nonce = n ∙ (eq_iff (strip_string r.nonce_header) nonce).0 g in
            let mine' = mine g in
            let key : key_of_session session ≡ some call.api_key = rw (f, k) refl in
            let left' = rw g at left in
            rw g (
              traced nonce (called call.api_key) _ t
                (
                  rw was (omega (arith, left')),
                  rw was (subst (λ m. spent b.proxy.metrics m < settings.max_requests) same below),
                  subst (λ k'. Any (λ j. j ≡ k') (found es)) key mine',
                )
                refl (same_account refl (omega (arith, left')) refl (rw (same, eq_refl nonce) refl))
                others)
        | inr g ↦
            let left' = rw g at left in
            let other : call.nonce == nonce ≡ false = rw n g in
            rw g (
              traced nonce elsewhere _ t tt refl
                (same_account refl (omega (arith, left')) refl (rw other refl)) others)
      ]

  pub turn_away-IsTraced :
      {es : List AccountEvent} {b : Busy F} (before after : List (Request F × Option Session))
      (r : Request F) (session : Option Session)
      → b.waiting ≡ before ++ (r, session) ∷ after
      → IsTraced nonce settings.max_requests es b
      → IsTraced nonce settings.max_requests
          ((if strip_string r.nonce_header == nonce then turned_away else elsewhere) ∷ es)
          (record b { waiting = before ++ after })
  turn_away-IsTraced {es} {b} before after r session e t =
      let ((mine, others), left) = taken before after r session t e in
      let was : run es ≡ account nonce b = t.ended in
      elim (Bool-cases (strip_string r.nonce_header == nonce)) [
        | inl g ↦
            let left' = rw g at left in
            rw g (
              traced nonce turned_away _ t (rw was (omega (arith, left'))) refl
                (same_account refl (omega (arith, left')) refl refl) others)
        | inr g ↦
            let left' = rw g at left in
            rw g (
              traced nonce elsewhere _ t tt refl
                (same_account refl (omega (arith, left')) refl refl) others)
      ]

  -- What an answer of the provider does to the count of its nonce.
  settle-counted :
      (p : Proxy) (call : Call) (u : Upstream F)
      → call.nonce == nonce ≡ false
      → spent (settle conv p call u).0.metrics nonce ≡ spent p.metrics nonce
  unfolding settle
  settle-counted p call (answered usage) g =
      rw (record_answer-counted conv nonce named p.metrics call.nonce usage, g) refl
  settle-counted p call (refused code) g =
      record_upstream_error-spent p.metrics call.nonce code nonce
  settle-counted p call (unreachable why) g = refl

  answer-IsTraced :
      {es : List AccountEvent} {b : Busy F} (before after : List Call) (call : Call)
      (u : Upstream F)
      → call.nonce == nonce ≡ true
      → out_for nonce b.out ≡ out_for nonce (before ++ after) + 1
      → IsTraced nonce settings.max_requests es b
      → IsTraced nonce settings.max_requests
          (answer_event u ∷ es)
          (record b { proxy = (settle conv b.proxy call u).0; out = before ++ after })
  unfolding settle
  answer-IsTraced {es} {b} before after call (answered usage) g left t =
      let was : run es ≡ account nonce b = t.ended in
      traced nonce counted _ t (rw was (omega (arith, left))) refl
        (same_account refl refl
          (rw (record_answer-counted conv nonce named b.proxy.metrics call.nonce usage, g) refl)
          (omega (arith, left)))
        t.known
  answer-IsTraced {es} {b} before after call (refused code) g left t =
      let was : run es ≡ account nonce b = t.ended in
      traced nonce dropped _ t (rw was (omega (arith, left))) refl
        (same_account refl refl
          (sym (record_upstream_error-spent b.proxy.metrics call.nonce code nonce))
          (omega (arith, left)))
        t.known
  answer-IsTraced {es} {b} before after call (unreachable why) g left t =
      let was : run es ≡ account nonce b = t.ended in
      traced nonce dropped _ t (rw was (omega (arith, left))) refl
        (same_account refl refl refl (omega (arith, left))) t.known

  pub receive-IsTraced :
      {es : List AccountEvent} {b : Busy F} (before after : List Call) (call : Call)
      (u : Upstream F)
      → b.out ≡ before ++ call ∷ after
      → IsTraced nonce settings.max_requests es b
      → IsTraced nonce settings.max_requests
          ((if call.nonce == nonce then answer_event u else elsewhere) ∷ es)
          (record b { proxy = (settle conv b.proxy call u).0; out = before ++ after })
  receive-IsTraced {es} {b} before after call u e t =
      let left : out_for nonce b.out
          ≡ out_for nonce (before ++ after) + (if call.nonce == nonce then 1 else 0) =
        ap (out_for nonce) e ∙ out_for-middle nonce before after call in
      elim (Bool-cases (call.nonce == nonce)) [
        | inl g ↦ rw g (answer-IsTraced before after call u g (rw g at left) t)
        | inr g ↦
            let left' = rw g at left in
            rw g (
              traced nonce elsewhere _ t tt refl
                (same_account (rw (settle-sessions conv b.proxy call u) refl) refl
                  (sym (settle-counted b.proxy call u g)) (omega (arith, left')))
                t.known)
      ]
