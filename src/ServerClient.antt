-- ===== src/ServerClient.antt =====
-- The client of the backend: phylax/server_client.py. The transport is a parameter, which may depend
-- on the requests before; the headers are whether the request is signed and the sandbox token.
pub mod Signing
pub mod Operations
pub mod KeyBlind
pub mod Pinned
pub mod Dropped
use phylax_subnet.Prelude.{
  ℕ, Bool, true, false, not, ◌&&◌, String, Option, none, some, List, [], ◌∷◌, ◌=ℕ◌, ◌==◌, leb,
  if◌then◌else◌,
}
use phylax_subnet.Prelude.Text.{concat}
use phylax_subnet.Number.{Float}
use phylax_subnet.Value.{
  Value, null, str, arr, int, pos, obj, Fields, end, field, is_dict, truthy, or_else,
}
use phylax_subnet.Runner.{get_or_null}

pub record Request (F : Type 0) : Type 0 where
  pub method : String
  pub path : String
  pub json_body : Option (Fields F)
  pub signed : Bool
  pub token : String

-- The content of a response.
pub data Content (F : Type 0) : Type 0 where
  empty : Content F
  no_json : Content F
  json : Value F → Content F

-- What the transport does with a request: an error of httpx, or a status and a content.
pub data Response (F : Type 0) : Type 0 where
  transport_error : Response F
  response : ℕ → Content F → Response F

-- A call returns, raises `ServerUnreachable`, `ServerRejected` or `ServerIdentityMismatch`, or another
-- exception.
pub data Called (A : Type 0) : Type 0 where
  ok : A → Called A
  unreachable : Called A
  rejected : ℕ → Called A
  mismatch : Called A
  crashed : Called A

-- The state: `_server_hotkey`, null being none, and the requests that were made.
pub record Client (F : Type 0) : Type 0 where
  pub server_hotkey : Value F
  pub requests : List (Request F)

abbrev pub Action : Type 0 → Type 0 → Type 0
Action F A = Client F → Client F × Called A

abbrev pub return : {F A : Type 0} → A → Action F A
return a s = (s, ok a)

unfoldable pub and_then :
    {F A B : Type 0} → (A → Action F B) → Client F × Called A → Client F × Called B
and_then f (s, ok a) = f a s
and_then f (s, unreachable) = (s, unreachable)
and_then f (s, rejected status) = (s, rejected status)
and_then f (s, mismatch) = (s, mismatch)
and_then f (s, crashed) = (s, crashed)

infixl 5 ◌>>=◌ ◌>>◌
abbrev pub ◌>>=◌ : {F A B : Type 0} → Action F A → (A → Action F B) → Action F B
◌>>=◌ m f s = and_then f (m s)

abbrev pub ◌>>◌ : {F A B : Type 0} → Action F A → Action F B → Action F B
m >> k = m >>= λ _. k

-- What the backend is called with: the transport, whether there is a wallet, the sandbox token, ""
-- being none, and Python's `==`.
pub record Link (F : Type 0) : Type 0 where
  pub send : List (Request F) → Request F → Response F
  pub has_wallet : Bool
  pub sandbox_token : String
  pub same : Value F → Value F → Bool

module _ {F : Type 0} ⦃num : Float F⦄ (link : Link F) where
  -- r.json() if r.content else {}
  abbrev pub of_content : Content F → Called (Value F)
  of_content empty = ok (obj end)
  of_content no_json = crashed
  of_content (json v) = ok v

  -- str((r.json() or {}).get("detail") or "") raises unless the content is falsy, a dict or no JSON.
  abbrev pub of_error : ℕ → Content F → Called (Value F)
  of_error status empty = rejected status
  of_error status no_json = rejected status
  of_error status (json v) = if truthy v && not (is_dict v) then crashed else rejected status

  unfoldable pub of_response : Response F → Called (Value F)
  of_response transport_error = unreachable
  of_response (response status content) =
      if leb 400 status then of_error status content else of_content content

  -- `_request`
  unfoldable pub request : Request F → Action F (Value F)
  request r s =
      if r.signed && not link.has_wallet
      then (s, crashed)
      else (record s { requests = r ∷ s.requests }, of_response (link.send s.requests r))

  abbrev pub get_request : String → Request F
  get_request path = record {
    method = "GET";
    path = path;
    json_body = none;
    signed = true;
    token = "";
  }

  abbrev pub post_request : String → Fields F → Request F
  post_request path body = record {
    method = "POST";
    path = path;
    json_body = some body;
    signed = true;
    token = "";
  }

  abbrev pub unsigned_request : String → String → Request F
  unsigned_request path token = record {
    method = "GET";
    path = path;
    json_body = none;
    signed = false;
    token = token;
  }

  -- data.get(k), which raises unless data is a dict
  abbrev pub got : Value F → String → Action F (Value F)
  got (obj fs) k s = (s, ok (get_or_null fs k))
  got _ k s = (s, crashed)

  abbrev pub keep_identity : Value F → Action F (Value F)
  keep_identity key s =
      if not (truthy key)
      then (s, mismatch)
      else if truthy s.server_hotkey && not (link.same s.server_hotkey key)
      then (s, mismatch)
      else (record s { server_hotkey = key }, ok key)

  -- `fetch_server_identity`
  unfoldable pub fetch_server_identity : Action F (Value F)
  fetch_server_identity = do
    answer ← request (unsigned_request "/v1/server-identity" "")
    key ← got answer "server_hotkey"
    keep_identity key

  abbrev pub is_none : Value F → Bool
  is_none null = true
  is_none _ = false

  -- if self._server_hotkey is None: self.fetch_server_identity()
  unfoldable pub identified : {A : Type 0} → Action F A → Action F A
  identified m s =
      if is_none s.server_hotkey
      then and_then (λ (key : Value F). m) (fetch_server_identity s)
      else m s

  abbrev pub if_due : Value F → Action F (Option (Value F))
  if_due v =
      if not (truthy v)
      then return none
      else (do id ← got v "round_id"; return (if truthy id then some v else none))

  -- `next_round`
  unfoldable pub next_round : String → Action F (Option (Value F))
  next_round track =
      identified
        (do answer ← request (get_request (concat "/v1/rounds/next/" track)); if_due answer)

  abbrev pub nonempty : Value F → Option (Value F)
  nonempty v = if truthy v then some v else none

  -- The `except Exception` of `get_runnable_agent`
  abbrev pub blurred : Client F × Called (Value F) → Client F × Called (Option (Value F))
  blurred (s, ok v) = (s, ok (nonempty v))
  blurred (s, unreachable) = (s, unreachable)
  blurred (s, rejected status) = (s, ok none)
  blurred (s, mismatch) = (s, ok none)
  blurred (s, crashed) = (s, ok none)

  abbrev pub runnable_path : String → String → String
  runnable_path base hotkey = concat base (concat hotkey "/runnable")

  -- `get_runnable_agent`
  unfoldable pub get_runnable_agent : String → Action F (Option (Value F))
  get_runnable_agent hotkey =
      identified
        (λ s. blurred (request (get_request (runnable_path "/v1/specialization/agent/" hotkey)) s))

  -- The `except ServerRejected` of `get_runnable_agent_as_sandbox`
  abbrev pub unless_404 : Client F × Called (Value F) → Client F × Called (Option (Value F))
  unless_404 (s, ok v) = (s, ok (nonempty v))
  unless_404 (s, unreachable) = (s, unreachable)
  unless_404 (s, rejected status) = if status =ℕ 404 then (s, ok none) else (s, rejected status)
  unless_404 (s, mismatch) = (s, mismatch)
  unless_404 (s, crashed) = (s, crashed)

  -- `get_runnable_agent_as_sandbox`
  unfoldable pub get_runnable_agent_as_sandbox : String → Action F (Option (Value F))
  get_runnable_agent_as_sandbox hotkey s =
      if link.sandbox_token == ""
      then (s, crashed)
      else unless_404 (
          request (unsigned_request (runnable_path "/v1/sandbox/agent/" hotkey) link.sandbox_token)
            s)

  -- `fetch_runnable_agent`
  unfoldable pub fetch_runnable_agent : String → Action F (Option (Value F))
  fetch_runnable_agent hotkey =
      if link.sandbox_token == ""
      then get_runnable_agent hotkey
      else get_runnable_agent_as_sandbox hotkey
