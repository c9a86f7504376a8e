-- ===== src/Proxy/Traced.antt =====
-- Events of an account that are legal and lead to it (phylax/harness/inference_proxy.py).
use phylax_subnet.Prelude.{
  ℕ, ◌+◌, ◌≡◌, sym, subst, true, false, String, Option, List, [], ◌∷◌, ◌++◌, ◌==◌, arith, eq_iff,
  Any, All, All-weaken, if◌then◌else◌, pop, get-pop,
}
use phylax_subnet.Prelude.Text.{strip_string}
use phylax_subnet.Number.{Float}
use phylax_subnet.Value.{Value, Conversions}
use phylax_subnet.Proxy.{Metrics, Session, Request, Call, usage_of, count_answer, record_answer}
use phylax_subnet.Proxy.Budget.{spent, spent-put, count_answer-requests}
use phylax_subnet.Proxy.Interleaving.{Busy, out_for}
use phylax_subnet.Proxy.Account.{
  Account, AccountEvent, apply, run, found, IsAllowed, IsLegal, key_of_session, waiting_for,
  account,
}

pub spent-pop :
    (metrics : Metrics) (k nonce : String)
    → spent (pop metrics k) nonce ≡ (if k == nonce then 0 else spent metrics nonce)
unfolding usage_of
spent-pop metrics k nonce = ground (arith, get-pop metrics k nonce)

pub All-middle :
    {A : Type 0} (P : A → Type 0) (before after : List A) (x : A)
    → All P (before ++ x ∷ after)
    → P x × All P (before ++ after)
All-middle P [] after x (p, h) = (p, h)
All-middle P (y ∷ before) after x (q, h) =
    let (p, rest) = All-middle P before after x h in (p, (q, rest))

pub same_account :
    {a b : Account}
    → a.key ≡ b.key
    → a.waiting ≡ b.waiting
    → a.counted ≡ b.counted
    → a.out ≡ b.out
    → a ≡ b
same_account k w c o = cc

pub out_for-middle :
    (nonce : String) (before after : List Call) (call : Call)
    → out_for nonce (before ++ call ∷ after)
      ≡ out_for nonce (before ++ after) + (if call.nonce == nonce then 1 else 0)
unfolding out_for
out_for-middle nonce [] after call = ground arith
out_for-middle nonce (c ∷ before) after call =
    ground (arith, out_for-middle nonce before after call)

module _ {F : Type 0} (nonce : String) where
  pub waiting_for-middle :
      (before after : List (Request F × Option Session)) (r : Request F) (session : Option Session)
      → waiting_for nonce (before ++ (r, session) ∷ after)
        ≡ waiting_for nonce (before ++ after)
          + (if strip_string r.nonce_header == nonce then 1 else 0)
  unfolding waiting_for
  waiting_for-middle [] after r session = ground arith
  waiting_for-middle ((r', session') ∷ before) after r session =
      ground (arith, waiting_for-middle before after r session)

  -- The key of a request that waits for the nonce is one that was found.
  abbrev pub IsFound : List AccountEvent → Request F × Option Session → Type 0
  IsFound es w =
      strip_string w.0.nonce_header == nonce ≡ true → Any (λ k. k ≡ key_of_session w.1) (found es)

  -- The events are legal, and lead to the account.
  pub record IsTraced (budget : ℕ) (es : List AccountEvent) (b : Busy F) : Type 0 where
    pub legal : IsLegal budget es
    pub ended : run es ≡ account nonce b
    pub known : All (IsFound es) b.waiting

  -- One event more, which finds no key.
  pub traced :
      {budget : ℕ} {es : List AccountEvent} {b : Busy F} (e : AccountEvent) (c : Busy F)
      → IsTraced budget es b
      → IsAllowed budget es e
      → (found (e ∷ es) ≡ found es)
      → apply e (account nonce b) ≡ account nonce c
      → All (IsFound es) c.waiting
      → IsTraced budget (e ∷ es) c
  traced {es = es} e c t a f moved k = record {
    legal = (a, t.legal);
    ended = rw t.ended moved;
    known =
        All-weaken (IsFound es) (IsFound (e ∷ es)) c.waiting
          (λ w p s. subst (Any (λ k'. k' ≡ key_of_session w.1)) (sym f) (p s)) k;
  }

module _ {F : Type 0} ⦃num : Float F⦄ (conv : Conversions F) (nonce : String)
    (named : nonce == "" ≡ false) where
  pub record_answer-counted :
      (metrics : Metrics) (k : String) (usage : Value F)
      → spent (record_answer conv metrics k usage).0 nonce
        ≡ (if k == nonce then spent metrics nonce + 1 else spent metrics nonce)
  unfolding record_answer
  record_answer-counted metrics k usage =
      let (row, raised) = count_answer conv usage (usage_of metrics k) in
      ground (
        arith,
        eq_iff k nonce,
        count_answer-requests conv usage (usage_of metrics k),
        spent-put metrics k nonce (count_answer conv usage (usage_of metrics k)).0,
      )
