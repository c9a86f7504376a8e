-- ===== src/Proxy/Budget.antt =====
-- The request budget of a nonce, under any interleaving: `_over_budget` and `_record` of
-- phylax/harness/inference_proxy.py.
use phylax_subnet.Prelude.{
  ℕ, ◌+◌, ◌-◌, ◌≤◌, ◌<◌, ◌≡◌, String, Option, none, ◌⊎◌, List, [], ◌∷◌, ◌++◌, ◌==◌, inl, inr, arith,
  length, eq_iff, Bool-cases, if◌then◌else◌, get, put, pop, get-put, get-pop, subst, ap,
}
use phylax_subnet.Number.{Float}
use phylax_subnet.Value.{
  Value, Outcome, raises, returns, Conversions, >>=-eq-returns, returned, by_branch,
}
use phylax_subnet.Proxy.{
  Usage, Metrics, Proxy, Settings, Request, Reply, Call, Upstream, answered, refused, unreachable,
  usage_of, count_answer, record_answer, record_upstream_error, over_budget, Session, admit_with,
  settle, reset_metrics, read_session, registered, open_session, body_length, is_bad_length,
  max_body, is_none, count_error,
}
use phylax_subnet.Proxy.Keys.{refused_page, dispatch-call}
use phylax_subnet.Prelude.{not, ◌&&◌}
use phylax_subnet.Proxy.Interleaving.{
  Busy, out_for, Step, look, send, turn_away, receive, open_up, clear, Reach, here, next, idle,
}

-- The calls that the meter has counted for the nonce.
abbrev pub spent : Metrics → String → ℕ
spent metrics nonce = (usage_of metrics nonce).requests

pub spent-put :
    (metrics : Metrics) (k nonce : String) (row : Usage)
    → spent (put metrics k row) nonce ≡ (if k == nonce then row.requests else spent metrics nonce)
unfolding usage_of
spent-put metrics k nonce row = ground (arith, get-put metrics k nonce row)

spent-pop-le :
    (metrics : Metrics) (k nonce : String) → spent (pop metrics k) nonce ≤ spent metrics nonce
unfolding usage_of
spent-pop-le metrics k nonce = ground (arith, get-pop metrics k nonce)

pub out_for-append :
    (nonce : String) (before after : List Call)
    → out_for nonce (before ++ after) ≡ out_for nonce before + out_for nonce after
unfolding out_for
out_for-append nonce [] after = omega arith
out_for-append nonce (call ∷ before) after = ground (arith, out_for-append nonce before after)

out_for-le_length : (nonce : String) (calls : List Call) → out_for nonce calls ≤ length calls
unfolding out_for
out_for-le_length nonce [] = omega arith
out_for-le_length nonce (call ∷ calls) = ground (arith, out_for-le_length nonce calls)

-- A call that the provider refuses with an HTTP error is not counted as a request.
pub record_upstream_error-spent :
    (metrics : Metrics) (k : String) (code : ℕ) (nonce : String)
    → spent (record_upstream_error metrics k code) nonce ≡ spent metrics nonce
unfolding record_upstream_error count_error
record_upstream_error-spent metrics k code nonce =
    ground
      (arith, eq_iff k nonce, spent-put metrics k nonce (count_error (usage_of metrics k) code))

module _ {F : Type 0} ⦃num : Float F⦄ (conv : Conversions F) where
  pub count_answer-requests :
      (usage : Value F) (row : Usage) → (count_answer conv usage row).0.requests ≡ row.requests + 1
  unfolding count_answer
  count_answer-requests usage row = ground arith

  record_answer-spent :
      (metrics : Metrics) (k : String) (usage : Value F) (nonce : String)
      → spent (record_answer conv metrics k usage).0 nonce
        ≤ spent metrics nonce + (if k == nonce then 1 else 0)
  unfolding record_answer
  record_answer-spent metrics k usage nonce =
      let (row, raised) = count_answer conv usage (usage_of metrics k) in
      ground (
        arith,
        eq_iff k nonce,
        count_answer-requests usage (usage_of metrics k),
        spent-put metrics k nonce (count_answer conv usage (usage_of metrics k)).0,
      )

  -- An answer is counted once at most, and only for the nonce of its call.
  settle-spent :
      (p : Proxy) (call : Call) (u : Upstream F) (nonce : String)
      → spent (settle conv p call u).0.metrics nonce
        ≤ spent p.metrics nonce + out_for nonce (call ∷ [])
  unfolding settle out_for
  settle-spent p call (answered usage) nonce =
      ground (arith, record_answer-spent p.metrics call.nonce usage nonce)
  settle-spent p call (refused code) nonce =
      ground (arith, record_upstream_error-spent p.metrics call.nonce code nonce)
  settle-spent p call (unreachable why) nonce = ground arith

  over_budget-none :
      (settings : Settings) (metrics : Metrics) (nonce : String)
      → over_budget conv settings metrics nonce ≡ none
      → spent metrics nonce < settings.max_requests
  unfolding over_budget
  over_budget-none settings metrics nonce h = ground arith

  pub admit_with-spent :
      (settings : Settings) (metrics : Metrics) (session : Option Session) (r : Request F)
      (call : Call)
      → admit_with conv settings metrics session r ≡ returns (inl call)
      → spent metrics call.nonce < settings.max_requests
  admit_with-spent settings metrics session r call h =
      let (length, e1, h1) = >>=-eq-returns (body_length conv r) _ h in
      by_branch (is_bad_length conv length max_body) (λ k. refused_page conv k)
        (λ k.
          by_branch (not (settings.admin_token == "") && is_none session) (λ l. refused_page conv l)
            (λ l.
              let (n, _, _, free) = dispatch-call conv settings metrics _ _ _ call l in
              rw n (over_budget-none settings metrics _ free))
            k)
        h1

  -- What a returned proxy has counted.
  returned-spent :
      (p' : Proxy) (reply : Reply F) (nonce : String) (bound : ℕ) (x : Proxy × Reply F)
      → spent x.0.metrics nonce ≤ bound
      → returns x ≡ returns (p', reply)
      → spent p'.metrics nonce ≤ bound
  returned-spent p' reply nonce bound x h e =
      subst (λ (y : Proxy × Reply F). spent y.0.metrics nonce ≤ bound) (returned _ _ e) h

  registered-spent :
      (p p' : Proxy) (reply : Reply F) (nonce : String)
      (asked : Outcome ((String × Session) ⊎ Reply F))
      → registered conv p asked ≡ returns (p', reply)
      → spent p'.metrics nonce ≤ spent p.metrics nonce
  registered-spent p p' reply nonce raises h = cc
  registered-spent p p' reply nonce (returns (inr page)) h =
      returned-spent p' reply nonce (spent p.metrics nonce) (p, page) (omega arith) h
  registered-spent p p' reply nonce (returns (inl (name, session))) h =
      returned-spent p' reply nonce (spent p.metrics nonce) _ (spent-pop-le p.metrics name nonce) h

  open_session-spent :
      (p p' : Proxy) (r : Request F) (reply : Reply F) (nonce : String)
      → open_session conv p r ≡ returns (p', reply)
      → spent p'.metrics nonce ≤ spent p.metrics nonce
  unfolding open_session
  open_session-spent p p' r reply nonce h =
      registered-spent p p' reply nonce (read_session conv r) h

  reset_metrics-spent :
      (p : Proxy) (k nonce : String)
      → spent (reset_metrics {F = F} conv p k).0.metrics nonce ≤ spent p.metrics nonce
  unfolding reset_metrics usage_of get
  reset_metrics-spent p k nonce = elim (Bool-cases (k == "")) [
    | inl e ↦ rw (reset_metrics, e) (omega arith)
    | inr e ↦ rw (reset_metrics, e) (spent-pop-le p.metrics k nonce)
  ]

  module _ (settings : Settings) (limit : ℕ) where
    -- What is counted for a nonce and what is out for it, against the budget.
    abbrev pub IsWithin : String → Busy F → Type 0
    IsWithin nonce b =
        spent b.proxy.metrics nonce + out_for nonce b.out ≤ settings.max_requests + (limit - 1)

    send-IsWithin :
        (nonce : String) (metrics : Metrics) (out : List Call) (call : Call)
        → length out < limit
        → spent metrics call.nonce < settings.max_requests
        → spent metrics nonce + out_for nonce out ≤ settings.max_requests + (limit - 1)
        → spent metrics nonce + out_for nonce (call ∷ out) ≤ settings.max_requests + (limit - 1)
    unfolding out_for
    send-IsWithin nonce metrics out call free below w =
        let few = out_for-le_length nonce out in
        elim (Bool-cases (call.nonce == nonce)) [
          | inl e ↦
              let mine =
                subst (λ n. spent metrics n < settings.max_requests) ((eq_iff call.nonce nonce).0 e)
                  below in
              rw e (omega arith)
          | inr e ↦ rw e w
        ]

    Step-IsWithin :
        {b c : Busy F} (nonce : String)
        → Step conv settings limit b c
        → IsWithin nonce b
        → IsWithin nonce c
    unfolding out_for
    Step-IsWithin {b} nonce (look r) w = w
    Step-IsWithin {b} nonce (send before after r session call free e h) w =
        send-IsWithin nonce b.proxy.metrics b.out call free
          (admit_with-spent settings b.proxy.metrics session r call h) w
    Step-IsWithin {b} nonce (turn_away before after r session e h) w = w
    Step-IsWithin {b} nonce (receive before after call u e) w =
        let was = ap (out_for nonce) e in
        let split = out_for-append nonce before (call ∷ after) in
        let left = out_for-append nonce before after in
        let first = out_for-append nonce (call ∷ []) after in
        let counted = settle-spent b.proxy call u nonce in omega arith
    Step-IsWithin {b} nonce (open_up r p reply h) w =
        let fewer = open_session-spent b.proxy p r reply nonce h in omega arith
    Step-IsWithin {b} nonce (clear k) w =
        let fewer = reset_metrics-spent b.proxy k nonce in omega arith

    -- However the threads interleave, what is counted for a nonce and what is out for it stays
    -- within the budget and one less than the number of calls that may be out at a time.
    pub Reach-IsWithin :
        {c : Busy F} (nonce : String) → Reach conv settings limit idle c → IsWithin nonce c
    unfolding usage_of get out_for
    Reach-IsWithin nonce here = omega arith
    Reach-IsWithin nonce (next r step) = Step-IsWithin nonce step (Reach-IsWithin nonce r)
