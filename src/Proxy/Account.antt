-- ===== src/Proxy/Account.antt =====
-- What the proxy promises for one nonce, whatever else it serves: an account, the events that move it
-- and when each may happen (phylax/harness/inference_proxy.py).
use phylax_subnet.Prelude.{
  ℕ, ◌+◌, ◌-◌, ◌<◌, ◌≡◌, ◌||◌, String, Option, none, some, List, [], ◌∷◌, ◌==◌, ◌⊎◌, inl, inr, Any,
  if◌then◌else◌, get,
}
use phylax_subnet.Prelude.Text.{strip_string}
use phylax_subnet.Number.{Float}
use phylax_subnet.Value.{Outcome, returns, raises, Conversions}
use phylax_subnet.Proxy.{
  Session, Settings, Request, Reply, Upstream, answered, refused, unreachable, read_session,
}
use phylax_subnet.Proxy.Budget.{spent}
use phylax_subnet.Proxy.Interleaving.{
  Busy, out_for, Step, look, send, turn_away, receive, open_up, clear, Reach, here, next,
}

-- The key that is registered, the requests that have looked it up and wait, the calls that are
-- counted and those that are out.
pub record Account : Type 0 where
  pub key : Option String
  pub waiting : ℕ
  pub counted : ℕ
  pub out : ℕ

pub data AccountEvent : Type 0 where
  looked_up : Option String → AccountEvent
  turned_away : AccountEvent
  called : String → AccountEvent
  counted : AccountEvent
  dropped : AccountEvent
  registers : String → AccountEvent
  cleared : AccountEvent
  elsewhere : AccountEvent

-- What an event does to the account.
abbrev pub apply : AccountEvent → Account → Account
apply (looked_up key) a = record a { waiting = a.waiting + 1 }
apply turned_away a = record a { waiting = a.waiting - 1 }
apply (called key) a = record a { waiting = a.waiting - 1; out = a.out + 1 }
apply counted a = record a { counted = a.counted + 1; out = a.out - 1 }
apply dropped a = record a { out = a.out - 1 }
apply (registers key) a = record a { key = some key; counted = 0 }
apply cleared a = record a { key = none; counted = 0 }
apply elsewhere a = a

-- The account after the events, the last of which comes first.
abbrev pub run : List AccountEvent → Account
run [] = record { key = none; waiting = 0; counted = 0; out = 0 }
run (e ∷ es) = apply e (run es)

abbrev key_before : AccountEvent → List (Option String) → List (Option String)
key_before (looked_up key) keys = key ∷ keys
key_before _ keys = keys

-- The keys that requests have found.
abbrev pub found : List AccountEvent → List (Option String)
found [] = []
found (e ∷ es) = key_before e (found es)

-- When an event may happen: a look finds the key that is registered; a call goes out for a request
-- that waits, with a key that a request has found, and while fewer calls are counted than the budget
-- has; an answer is taken of a call that is out.
abbrev pub IsAllowed : ℕ → List AccountEvent → AccountEvent → Type 0
IsAllowed budget es (looked_up key) = key ≡ (run es).key
IsAllowed budget es turned_away = 0 < (run es).waiting
IsAllowed budget es (called key) =
    (0 < (run es).waiting) × ((run es).counted < budget) × Any (λ k. k ≡ some key) (found es)
IsAllowed budget es counted = 0 < (run es).out
IsAllowed budget es dropped = 0 < (run es).out
IsAllowed budget es (registers key) = Unit
IsAllowed budget es cleared = Unit
IsAllowed budget es elsewhere = Unit

abbrev pub IsLegal : ℕ → List AccountEvent → Type 0
IsLegal budget [] = Unit
IsLegal budget (e ∷ es) = IsAllowed budget es e × IsLegal budget es

abbrev pub key_of_session : Option Session → Option String
key_of_session none = none
key_of_session (some s) = some s.api_key

-- How many of the requests are for the nonce.
unfoldable pub waiting_for : {F : Type 0} → String → List (Request F × Option Session) → ℕ
waiting_for nonce [] = 0
waiting_for nonce ((r, session) ∷ ws) =
    let rest = waiting_for nonce ws in
    if strip_string r.nonce_header == nonce then rest + 1 else rest

-- The account of a nonce.
abbrev pub account : {F : Type 0} → String → Busy F → Account
account nonce b = record {
  key = key_of_session (get b.proxy.sessions nonce);
  waiting = waiting_for nonce b.waiting;
  counted = spent b.proxy.metrics nonce;
  out = out_for nonce b.out;
}

abbrev pub answer_event : {F : Type 0} → Upstream F → AccountEvent
answer_event (answered usage) = counted
answer_event (refused code) = dropped
answer_event (unreachable why) = dropped

abbrev pub session_event :
    {F : Type 0} → String → Outcome ((String × Session) ⊎ Reply F) → AccountEvent
session_event nonce raises = elsewhere
session_event nonce (returns (inr reply)) = elsewhere
session_event nonce (returns (inl (name, session))) =
    if name == nonce then registers session.api_key else elsewhere

module _ {F : Type 0} ⦃num : Float F⦄ (conv : Conversions F) (settings : Settings) (limit : ℕ)
    (nonce : String) where
  -- What a step is for the nonce.
  abbrev pub event_of : {b c : Busy F} → Step conv settings limit b c → AccountEvent
  event_of {b} (look r) =
      if strip_string r.nonce_header == nonce
      then looked_up (key_of_session (get b.proxy.sessions nonce))
      else elsewhere
  event_of (send before after r session call free e h) =
      if strip_string r.nonce_header == nonce then called call.api_key else elsewhere
  event_of (turn_away before after r session e h) =
      if strip_string r.nonce_header == nonce then turned_away else elsewhere
  event_of (receive before after call u e) =
      if call.nonce == nonce then answer_event u else elsewhere
  event_of (open_up r p reply h) = session_event nonce (read_session conv r)
  event_of (clear k) = if k == "" || k == nonce then cleared else elsewhere

  abbrev pub account_events : {b c : Busy F} → Reach conv settings limit b c → List AccountEvent
  account_events here = []
  account_events (next reached step) = event_of step ∷ account_events reached
