-- ===== src/Examples/Proxy.antt =====
-- A proxy with an admin token, and a session that the validator has opened.
use phylax_subnet.Prelude.{Option, arith, ◌≡◌, ◌⊎◌, inl, refl, false, [], ◌∷◌, some, get, put, pop}
use phylax_subnet.Prelude.Text.{strip_string, remove_prefix}
use phylax_subnet.Number.Fixed.{Fixed, fixed_float}
use phylax_subnet.Value.{
  pos, returns, str, obj, field, end, Conversions, lookup, or_else, truthy, to_string,
}
use phylax_subnet.Value.Int.{◌+ℤ◌}
use phylax_subnet.Proxy.{
  Proxy, Session, Settings, Request, json, Call, refused, usage_of, admit_with, admit, dispatch,
  over_budget, provider_url, read_session, open_session, do_post, chutes, openrouter,
}
use phylax_subnet.Proxy.Keys.{admit-key, do_post-sessions}
use phylax_subnet.Proxy.Interleaving.{Busy, Reach, look, send, open_up, here, next, idle}
use phylax_subnet.Proxy.Account.{IsLegal, run, account_events, account}
use phylax_subnet.Proxy.Traces.{Reach-IsLegal}
use phylax_subnet.Proxy.Budget.{Reach-IsWithin, IsWithin}
use phylax_subnet.Examples.{plain}

-- Content lengths here are "40".
abbrev reading : Conversions Fixed
reading = record plain { int_of_str = λ s. some (pos 40) }

abbrev settings : Settings
settings = record { max_requests = 2; max_tokens = 1000; admin_token = "t0ken" }

abbrev registration : Request Fixed
registration = record {
  path = "/session";
  query_nonce = "";
  content_length = "40";
  admin_header = "t0ken";
  nonce_header = "";
  authorization = "";
  provider_header = "";
  payload = some (obj (field "nonce" (str "4f2a") (field "api_key" (str "cpk_7") end)));
}

-- A request with a key of the agent's own.
abbrev request : Request Fixed
request = record {
  path = "/v1/chat/completions";
  query_nonce = "";
  content_length = "40";
  admin_header = "";
  nonce_header = " 4f2a ";
  authorization = "Bearer sk-or-9";
  provider_header = "openrouter";
  payload = some (obj end);
}

abbrev ready : Proxy
ready = record {
  metrics = [];
  sessions = ("4f2a", record { api_key = "cpk_7"; provider = "" }) ∷ [];
}

abbrev call : Call
call = record { nonce = "4f2a"; url = openrouter; api_key = "cpk_7" }

opened :
    open_session reading (idle {F = Fixed}).proxy registration
    ≡ returns (ready, json 200 (obj (field "registered" (str "4f2a") end)))
unfolding open_session read_session lookup get or_else truthy to_string put pop strip_string
opened = refl

sent : admit reading settings ready request ≡ returns (inl call)
unfolding admit dispatch over_budget usage_of provider_url get strip_string remove_prefix ◌+ℤ◌
sent = refl

admit-key_example :
    ((s : Session) × (get ready.sessions "4f2a" ≡ some s) × ("cpk_7" ≡ s.api_key))
    × ((openrouter ≡ chutes) ⊎ (openrouter ≡ openrouter))
admit-key_example = admit-key reading settings ready request call refl sent

do_post-sessions_example :
    (do_post reading settings false (λ c. refused 500) ready registration).0.sessions
    ≡ ready.sessions
do_post-sessions_example = do_post-sessions reading settings (λ c. refused 500) ready registration

-- What is found for the request, before and after a session is opened for it again.
abbrev session : Option Session
session = get ready.sessions (strip_string request.nonce_header)

sent_with : admit_with reading settings [] session request ≡ returns (inl call)
unfolding dispatch over_budget usage_of provider_url get strip_string remove_prefix ◌+ℤ◌
sent_with = refl

abbrev busy : Busy Fixed
busy = record { proxy = ready; waiting = []; out = call ∷ [] }

abbrev reached : Reach reading settings 2 idle busy
reached =
    next (next (next here (open_up registration ready _ opened)) (look request))
      (send [] [] request session call (omega arith) refl sent_with)

-- Two threads: a second call goes out while the first is out.
Reach-IsWithin_example :
    IsWithin reading settings 2 "4f2a"
      (record { proxy = ready; waiting = []; out = call ∷ call ∷ [] })
Reach-IsWithin_example = Reach-IsWithin reading settings 2 "4f2a" (
    next (next reached (look request))
      (send [] [] request session call (omega arith) refl sent_with))

Reach-IsLegal_example :
    IsLegal 2 (account_events reading settings 2 "4f2a" reached)
    × (run (account_events reading settings 2 "4f2a" reached) ≡ account "4f2a" busy)
Reach-IsLegal_example = Reach-IsLegal reading "4f2a" refl settings 2 refl reached
