-- ===== src/Proxy/Interleaving.antt =====
-- The proxy under many requests at once: it serves each in a thread of its own, and holds its lock
-- only around single reads and writes of its state (phylax/harness/inference_proxy.py).
use phylax_subnet.Prelude.{
  ℕ, ◌+◌, ◌<◌, ◌≡◌, Bool, true, false, String, Option, get, ◌⊎◌, inr, List, [], ◌∷◌, ◌++◌, ◌==◌,
  inl, length, if◌then◌else◌,
}
use phylax_subnet.Prelude.Text.{strip_string}
use phylax_subnet.Number.{Float}
use phylax_subnet.Value.{Outcome, returns, raises, Conversions}
use phylax_subnet.Proxy.{
  Proxy, Settings, Request, Reply, Call, Upstream, Session, admit_with, settle, reset_metrics,
  open_session,
}

-- The proxy, the requests for which a session was looked up, with what was found, and the calls that
-- are out at the providers.
pub record Busy (F : Type 0) : Type 0 where
  pub proxy : Proxy
  pub waiting : List (Request F × Option Session)
  pub out : List Call

-- How many of the calls are for the nonce.
unfoldable pub out_for : String → List Call → ℕ
out_for nonce [] = 0
out_for nonce (call ∷ calls) =
    let rest = out_for nonce calls in if call.nonce == nonce then rest + 1 else rest

-- A call goes out.
abbrev pub is_call : {F : Type 0} → Outcome (Call ⊎ Reply F) → Bool
is_call raises = false
is_call (returns (inr reply)) = false
is_call (returns (inl call)) = true

module _ {F : Type 0} ⦃num : Float F⦄ (conv : Conversions F) (settings : Settings) (limit : ℕ) where
  -- One step of one of the threads, of which `limit` may be waiting for a provider. The lock is taken
  -- for the session, and again for the meter.
  pub data Step (b : Busy F) : Busy F → Type 0 where
    -- the session of a request is looked up
    look :
        (r : Request F)
        → Step b (record b {
          waiting = (r, get b.proxy.sessions (strip_string r.nonce_header)) ∷ b.waiting;
        })
    -- a call goes out, with the session that was found
    send :
        (before after : List (Request F × Option Session)) (r : Request F)
        (session : Option Session) (call : Call)
        → length b.out < limit
        → b.waiting ≡ before ++ (r, session) ∷ after
        → admit_with conv settings b.proxy.metrics session r ≡ returns (inl call)
        → Step b (record b { waiting = before ++ after; out = call ∷ b.out })
    -- or the request is answered at once
    turn_away :
        (before after : List (Request F × Option Session)) (r : Request F)
        (session : Option Session)
        → b.waiting ≡ before ++ (r, session) ∷ after
        → is_call (admit_with conv settings b.proxy.metrics session r) ≡ false
        → Step b (record b { waiting = before ++ after })
    -- a provider's answer comes in, for any of the calls that are out
    receive :
        (before after : List Call) (call : Call) (u : Upstream F)
        → b.out ≡ before ++ call ∷ after
        → Step b (record b { proxy = (settle conv b.proxy call u).0; out = before ++ after })
    -- the validator opens a session
    open_up :
        (r : Request F) (p : Proxy) (reply : Reply F)
        → open_session conv b.proxy r ≡ returns (p, reply)
        → Step b (record b { proxy = p })
    -- or clears the meter
    clear :
        (nonce : String)
        → Step b (record b { proxy = (reset_metrics {F = F} conv b.proxy nonce).0 })

  pub data Reach (b : Busy F) : Busy F → Type 0 where
    here : Reach b b
    next : {c d : Busy F} → Reach b c → Step c d → Reach b d

abbrev pub idle : {F : Type 0} → Busy F
idle = record { proxy = record { metrics = []; sessions = [] }; waiting = []; out = [] }
