-- ===== src/Proxy.antt =====
-- The inference proxy: phylax/harness/inference_proxy.py. A request comes as `urlparse`, `parse_qs`
-- and the header dictionary give it, and its body as `json.loads` does. What the provider does with
-- a call is a parameter; a call goes out in `admit`, and its answer is taken by `settle`, since
-- other requests are served in between.
pub mod Budget
pub mod Keys
pub mod Interleaving
pub mod Account
pub mod Traced
pub mod TracedCalls
pub mod Traces
use phylax_subnet.Prelude.{
  ℕ, ◌+◌, Bool, true, false, not, ◌&&◌, ◌||◌, String, Option, none, some, List, [], ◌∷◌, ◌==◌,
  if◌then◌else◌, Dict, get, put, pop, leb, ltb, ◌=ℕ◌, ◌⊎◌, inl, inr,
}
use phylax_subnet.Prelude.Text.{codes, starts_with, strip_string, remove_prefix, concat}
use phylax_subnet.Number.{Float}
use phylax_subnet.Value.{
  ℤ, pos, negsuc, Value, int, str, obj, Fields, end, field, lookup, or_else, to_int, to_string,
  Outcome, returns, raises, ◌>>=◌, Conversions,
}
use phylax_subnet.Value.Int.{◌+ℤ◌, reaches}

-- One row of the meter. The last three counters stand in the row only once a call has failed.
pub record Usage : Type 0 where
  pub requests : ℕ
  pub input_tokens : ℤ
  pub output_tokens : ℤ
  pub upstream_errors : Option ℕ
  pub key_failures : Option ℕ
  pub last_upstream_status : Option ℕ

abbrev pub no_usage : Usage
no_usage = record {
  requests = 0;
  input_tokens = pos 0;
  output_tokens = pos 0;
  upstream_errors = none;
  key_failures = none;
  last_upstream_status = none;
}

abbrev pub Metrics : Type 0
Metrics = Dict Usage

pub record Session : Type 0 where
  pub api_key : String
  pub provider : String

pub record Proxy : Type 0 where
  pub metrics : Metrics
  pub sessions : Dict Session

-- The environment that the proxy was started with.
pub record Settings : Type 0 where
  pub max_requests : ℕ
  pub max_tokens : ℕ
  pub admin_token : String

pub record Request (F : Type 0) : Type 0 where
  pub path : String
  -- (parse_qs(parsed.query).get("nonce") or [""])[0]
  pub query_nonce : String
  -- "" where the header is absent
  pub content_length : String
  pub admin_header : String
  pub nonce_header : String
  pub authorization : String
  pub provider_header : String
  -- `none` is a body that is no JSON
  pub payload : Option (Value F)

-- An answer to a request: a status with a JSON body, an error page, or what the provider sent.
pub data Reply (F : Type 0) : Type 0 where
  health : Reply F
  json : ℕ → Value F → Reply F
  error : ℕ → String → Reply F
  relay : ℕ → Reply F

-- A call that is out at the provider.
pub record Call : Type 0 where
  pub nonce : String
  pub url : String
  pub api_key : String

-- What the provider does: it answers, with the `usage` of its JSON (an empty dict where there is
-- none), it answers with an HTTP error, or it cannot be reached.
pub data Upstream (F : Type 0) : Type 0 where
  answered : Value F → Upstream F
  refused : ℕ → Upstream F
  unreachable : String → Upstream F

abbrev pub max_body : ℕ
max_body = 1000000

abbrev pub chutes : String
chutes = "https://llm.chutes.ai/v1/chat/completions"

abbrev pub openrouter : String
openrouter = "https://openrouter.ai/api/v1/chat/completions"

abbrev pub is_none : {A : Type 0} → Option A → Bool
is_none none = true
is_none (some a) = false

-- `_usage`
unfoldable pub usage_of : Metrics → String → Usage
usage_of metrics nonce = elim (get metrics nonce) [ none ↦ no_usage | some row ↦ row ]

unfoldable pub provider_url : String → String → Option String
provider_url provider api_key =
    if provider == "chutes"
    then some chutes
    else if provider == "openrouter"
    then some openrouter
    else if starts_with (codes api_key) (codes "cpk_")
    then some chutes
    else if starts_with (codes api_key) (codes "sk-or-")
    then some openrouter
    else none

-- self.headers.get("Authorization", "").removeprefix("Bearer ").strip()
abbrev pub header_key : {F : Type 0} → Request F → String
header_key r = strip_string (remove_prefix "Bearer " r.authorization)

-- `_record`, of a usage whose counters are `int`s: an error in reading one leaves the row as it was
-- written so far.
module _ {F : Type 0} ⦃num : Float F⦄ (conv : Conversions F) where
  -- int(usage.get(k, 0) or 0)
  abbrev pub counter : Value F → String → Outcome ℤ
  counter row k = do v ← lookup row k; to_int conv (or_else v (int (pos 0)))

  -- The row after the call, and whether the reading raised.
  unfoldable pub count_answer : Value F → Usage → Usage × Bool
  count_answer usage row =
      let counted = record row { requests = row.requests + 1 } in
      elim (counter usage "prompt_tokens") [
        | raises ↦ (counted, true)
        | returns input ↦
            let taken = record counted { input_tokens = row.input_tokens +ℤ input } in
            elim (counter usage "completion_tokens") [
              | raises ↦ (taken, true)
              | returns output ↦
                  (record taken { output_tokens = row.output_tokens +ℤ output }, false)
            ]
      ]

  -- The metrics after `_record`, and whether it raised.
  unfoldable pub record_answer : Metrics → String → Value F → Metrics × Bool
  record_answer metrics nonce usage =
      if nonce == ""
      then (metrics, false)
      else let (row, raised) = count_answer usage (usage_of metrics nonce) in
        (put metrics nonce row, raised)

  -- `_over_budget`, where "" is none.
  unfoldable pub over_budget : Settings → Metrics → String → Option String
  over_budget settings metrics nonce =
      let row = usage_of metrics nonce in
      let shown = λ (n : ℕ). conv.render (int (pos n)) in
      if leb settings.max_requests row.requests
      then some
          (concat "request budget exhausted (" (concat (shown settings.max_requests) " calls)"))
      else if reaches settings.max_tokens (row.input_tokens +ℤ row.output_tokens)
      then some (concat "token budget exhausted (" (concat (shown settings.max_tokens) " tokens)"))
      else none

-- `_KEY_FAILURE_CODES`
abbrev pub is_key_failure : ℕ → Bool
is_key_failure code = code =ℕ 401 || code =ℕ 402 || code =ℕ 403 || code =ℕ 429

abbrev pub bump : Option ℕ → Option ℕ
bump none = some 1
bump (some n) = some (n + 1)

-- The row after a call that the provider refused.
unfoldable pub count_error : Usage → ℕ → Usage
count_error row code = record row {
  upstream_errors = bump row.upstream_errors;
  key_failures = if is_key_failure code then bump row.key_failures else row.key_failures;
  last_upstream_status = some code;
}

-- `_record_upstream_error`
unfoldable pub record_upstream_error : Metrics → String → ℕ → Metrics
record_upstream_error metrics nonce code =
    if nonce == "" then metrics else put metrics nonce (count_error (usage_of metrics nonce) code)

-- `_admin_ok` and `Handler._admin_allowed`: none, or the error page.
unfoldable pub admin_refusal : {F : Type 0} → Settings → Bool → Request F → Option (Reply F)
admin_refusal settings admin_surface r =
    if not admin_surface
    then some (error 404 "not found")
    else if settings.admin_token == ""
    then some (error 401 "admin token required")
    else if r.admin_header == settings.admin_token
    then none
    else some (error 401 "admin token required")

module _ {F : Type 0} ⦃num : Float F⦄ (conv : Conversions F) where
  -- int(self.headers.get("Content-Length", 0) or 0)
  abbrev pub body_length : Request F → Outcome ℤ
  body_length r =
      if r.content_length == ""
      then returns (pos 0)
      else elim (conv.int_of_str r.content_length) [ none ↦ raises | some n ↦ returns n ]

  -- length <= 0 or length > limit
  abbrev pub is_bad_length : ℤ → ℕ → Bool
  is_bad_length (pos n) limit = leb n 0 || ltb limit n
  is_bad_length (negsuc n) limit = true

  -- str(payload.get(k) or "").strip()
  abbrev pub stripped_field : Value F → String → Outcome String
  stripped_field payload k = do
    v ← lookup payload k
    returns (strip_string (to_string conv (or_else v (str ""))))

  -- POST /metrics/reset, once it is allowed.
  unfoldable pub reset_metrics : Proxy → String → Proxy × Reply F
  reset_metrics p nonce =
      if nonce == ""
      then (record { metrics = []; sessions = [] }, json 200 (obj (field "reset" (str "all") end)))
      else (
        record { metrics = pop p.metrics nonce; sessions = pop p.sessions nonce },
        json 200 (obj (field "reset" (str nonce) end)),
      )

  -- What POST /session asks for: the nonce with its session, or the answer.
  unfoldable pub read_session : Request F → Outcome ((String × Session) ⊎ Reply F)
  read_session r = do
    length ← body_length r
    if is_bad_length length 8192
        then returns (inr (error 400 "invalid session body"))
        else elim r.payload [
          | none ↦ returns (inr (error 400 "invalid session body"))
          | some payload ↦ do
            nonce ← stripped_field payload "nonce"
            api_key ← stripped_field payload "api_key"
            if nonce == "" || api_key == ""
                then returns (inr (error 400 "nonce and api_key required"))
                else (do
                  provider ← stripped_field payload "provider"
                  returns (inl (nonce, record { api_key = api_key; provider = provider })))
        ]

  abbrev pub registered : Proxy → Outcome ((String × Session) ⊎ Reply F) → Outcome (Proxy × Reply F)
  registered p raises = raises
  registered p (returns (inr reply)) = returns (p, reply)
  registered p (returns (inl (nonce, session))) = returns (
    record { metrics = pop p.metrics nonce; sessions = put p.sessions nonce session },
    json 200 (obj (field "registered" (str nonce) end)),
  )

  -- POST /session, once it is allowed.
  unfoldable pub open_session : Proxy → Request F → Outcome (Proxy × Reply F)
  open_session p r = registered p (read_session r)

  -- `a or b` of two texts
  abbrev pub or_text : String → String → String
  or_text a b = if a == "" then b else a

  -- session.get("api_key") and session.get("provider"), "" where there is no session
  abbrev pub key_of : Option Session → String
  key_of none = ""
  key_of (some s) = s.api_key

  abbrev pub provider_of : Option Session → String
  provider_of none = ""
  provider_of (some s) = s.provider

  -- The call to this provider with this key, unless either is missing or the budget is spent.
  unfoldable pub dispatch : Settings → Metrics → String → String → String → Outcome (Call ⊎ Reply F)
  dispatch settings metrics nonce provider api_key = elim (provider_url provider api_key) [
    | none ↦ returns (inr (error 400 "missing provider or api key"))
    | some url ↦
        if api_key == ""
        then returns (inr (error 400 "missing provider or api key"))
        else elim (over_budget conv settings metrics nonce) [
          | some exhausted ↦
              returns (
                inr
                  (json 429 (obj (field "error" (str exhausted) (field "nonce" (str nonce) end)))))
          | none ↦ returns (inl (record { nonce = nonce; url = url; api_key = api_key }))
        ]
  ]

  -- What `do_POST` decides before the call goes out, from the session that it looked up and, under
  -- the lock again, the meter: the call, or the answer.
  abbrev pub admit_with : Settings → Metrics → Option Session → Request F → Outcome (Call ⊎ Reply F)
  admit_with settings metrics session r = do
    length ← body_length r
    let nonce = strip_string r.nonce_header
    let metered = not (settings.admin_token == "")
    let provider = or_text (provider_of session) (strip_string r.provider_header)
    let api_key = or_text (key_of session) (if metered then "" else header_key r)
    if is_bad_length length max_body
        then returns (inr (error 413 "invalid body size"))
        else if metered && is_none session
        then returns (inr (error 403 "no registered session for this task"))
        else dispatch settings metrics nonce provider api_key

  -- Both reads with no other request served in between.
  unfoldable pub admit : Settings → Proxy → Request F → Outcome (Call ⊎ Reply F)
  admit settings p r =
      admit_with settings p.metrics (get p.sessions (strip_string r.nonce_header)) r

  -- What `do_POST` does with the provider's answer: the state is kept where the handler raises.
  unfoldable pub settle : Proxy → Call → Upstream F → Proxy × Outcome (Reply F)
  settle p call (answered usage) =
      let (metrics, raised) = record_answer conv p.metrics call.nonce usage in
      (record p { metrics = metrics }, (if raised then raises else returns (relay 200)))
  settle p call (refused code) =
      (record p { metrics = record_upstream_error p.metrics call.nonce code }, returns (relay code))
  settle p call (unreachable why) = (p, returns (error 502 (concat "upstream error: " why)))

  -- A chat completion, where no other request is served while it waits for the provider.
  unfoldable pub complete :
      Settings → (Call → Upstream F) → Proxy → Request F → Proxy × Outcome (Reply F)
  complete settings provider p r = elim (admit settings p r) [
    | raises ↦ (p, raises)
    | returns (inr reply) ↦ (p, returns reply)
    | returns (inl call) ↦ settle p call (provider call)
  ]

  abbrev answered_by : {A : Type 0} → Proxy → Outcome (Proxy × A) → Proxy × Outcome A
  answered_by p raises = (p, raises)
  answered_by p (returns (p', reply)) = (p', returns reply)

  -- `do_POST`
  unfoldable pub do_post :
      Settings → Bool → (Call → Upstream F) → Proxy → Request F → Proxy × Outcome (Reply F)
  do_post settings admin_surface provider p r =
      if r.path == "/metrics/reset"
      then elim (admin_refusal settings admin_surface r) [
        | some page ↦ (p, returns page)
        | none ↦ answered_by p (returns (reset_metrics p r.query_nonce))
      ]
      else if r.path == "/session"
      then elim (admin_refusal settings admin_surface r) [
        | some page ↦ (p, returns page)
        | none ↦ answered_by p (open_session p r)
      ]
      else if starts_with (codes r.path) (codes "/v1/chat/completions")
      then complete settings provider p r
      else (p, returns (error 404 "only /v1/chat/completions is proxied"))
