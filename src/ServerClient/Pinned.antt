-- ===== src/ServerClient/Pinned.antt =====
-- A client with a pinned key of the backend: phylax/server_client.py.
use phylax_subnet.Prelude.{
  ◌≡◌, refl, inl, inr, Bool, true, false, String, none, List, ◌==◌, Bool-cases, if◌then◌else◌,
}
use phylax_subnet.Prelude.Text.{concat}
use phylax_subnet.Number.{Float}
use phylax_subnet.Value.{Value}
use phylax_subnet.ServerClient.{
  Link, Request, crashed, is_none, blurred, unless_404, next_round, get_runnable_agent,
  get_runnable_agent_as_sandbox, fetch_runnable_agent,
}
use phylax_subnet.ServerClient.Operations.{
  Operation, server_identity, health, register_track, register_validator, poll, runnable_agent,
  sandbox_agent, any_agent, round_tasks, round_artifact, my_results, round_results, round_progress,
  submit_results, submit_agent, perform,
}
use phylax_subnet.ServerClient.KeyBlind.{
  IsOneMore, client_with, IsBlind, bind-IsBlind, request-IsBlind, identified-IsBlind, ended-IsBlind,
  if_due-IsSilent, blurred_host, unless_404_host, answered-IsBlind, asked-IsBlind,
}

module _ {F : Type 0} ⦃num : Float F⦄ (link : Link F) where
  abbrev agent_path : String → String
  agent_path hotkey = concat "/v1/specialization/agent/" (concat hotkey "/runnable")

  abbrev sandbox_path : String → String
  sandbox_path hotkey = concat "/v1/sandbox/agent/" (concat hotkey "/runnable")

  agent-IsBlind :
      (hotkey : String) → IsBlind link (agent_path hotkey) (get_runnable_agent link hotkey)
  unfolding get_runnable_agent
  agent-IsBlind hotkey =
      identified-IsBlind link
        (ended-IsBlind link (blurred link) (blurred_host link) (request-IsBlind link _))

  sandbox-IsBlind :
      (hotkey : String)
      → IsBlind link (sandbox_path hotkey) (get_runnable_agent_as_sandbox link hotkey)
  unfolding get_runnable_agent_as_sandbox
  sandbox-IsBlind hotkey =
      let b = ended-IsBlind link (unless_404 link) (unless_404_host link) (
        request-IsBlind link (record {
          method = "GET";
          path = sandbox_path hotkey;
          json_body = none;
          signed = false;
          token = link.sandbox_token;
        })) in
      elim (Bool-cases (link.sandbox_token == "")) [
        | inl t ↦ record {
          answer = λ rs. (rs, crashed);
          once = λ rs. inl refl;
          blind = λ key rs n. rw (get_runnable_agent_as_sandbox, t) refl;
        }
        | inr t ↦ record {
          answer = b.answer;
          once = b.once;
          blind = λ key rs n. rw (get_runnable_agent_as_sandbox, t) (b.blind key rs n);
        }
      ]

  -- The path that an operation asks, fetch_server_identity left aside.
  abbrev pub path_of : Operation F → String
  path_of server_identity = "/v1/server-identity"
  path_of health = "/v1/health"
  path_of (register_track hotkey track label) = "/v1/specialization/register"
  path_of (register_validator label) = "/v1/validators/register"
  path_of (poll track) = concat "/v1/rounds/next/" track
  path_of (runnable_agent hotkey) = agent_path hotkey
  path_of (sandbox_agent hotkey) = sandbox_path hotkey
  path_of (any_agent hotkey) =
      if link.sandbox_token == "" then agent_path hotkey else sandbox_path hotkey
  path_of (round_tasks round_id) = concat "/v1/rounds/" (concat round_id "/tasks")
  path_of (round_artifact round_id source_id) =
      concat "/v1/rounds/" (concat round_id (concat "/artifact/" source_id))
  path_of my_results = "/v1/rounds/my-results"
  path_of (round_results round_id) = concat "/v1/rounds/" (concat round_id "/my-results")
  path_of (round_progress round_id track p) = "/v1/rounds/progress"
  path_of (submit_results round_id track hotkey start_block seed results attestations) =
      "/v1/rounds/results"
  path_of (submit_agent a) = "/v1/specialization/agent"

  fetched-IsBlind :
      (hotkey : String)
      → IsBlind link (path_of (any_agent hotkey)) (fetch_runnable_agent link hotkey)
  unfolding fetch_runnable_agent
  fetched-IsBlind hotkey = elim (Bool-cases (link.sandbox_token == "")) [
    | inl t ↦ rw (fetch_runnable_agent, t) (agent-IsBlind hotkey)
    | inr t ↦ rw (fetch_runnable_agent, t) (sandbox-IsBlind hotkey)
  ]

  -- The operation that compares the key of the server.
  abbrev pub compares_key : Operation F → Bool
  compares_key server_identity = true
  compares_key _ = false

  perform-IsBlind :
      (op : Operation F) → compares_key op ≡ false → IsBlind link (path_of op) (perform link op)
  unfolding perform next_round
  perform-IsBlind server_identity h = cc
  perform-IsBlind health h = answered-IsBlind link _
  perform-IsBlind (register_track hotkey track label) h = asked-IsBlind link _
  perform-IsBlind (register_validator label) h = asked-IsBlind link _
  perform-IsBlind (poll track) h =
      identified-IsBlind link
        (bind-IsBlind link _ (request-IsBlind link _) (λ v. if_due-IsSilent link v))
  perform-IsBlind (runnable_agent hotkey) h = agent-IsBlind hotkey
  perform-IsBlind (sandbox_agent hotkey) h = sandbox-IsBlind hotkey
  perform-IsBlind (any_agent hotkey) h = fetched-IsBlind hotkey
  perform-IsBlind (round_tasks round_id) h = asked-IsBlind link _
  perform-IsBlind (round_artifact round_id source_id) h = asked-IsBlind link _
  perform-IsBlind my_results h = asked-IsBlind link _
  perform-IsBlind (round_results round_id) h = asked-IsBlind link _
  perform-IsBlind (round_progress round_id track p) h = asked-IsBlind link _
  perform-IsBlind (submit_results round_id track hotkey start_block seed results attestations) h =
      asked-IsBlind link _
  perform-IsBlind (submit_agent a) h = answered-IsBlind link _

  -- A client that is given a key of the server keeps it through every operation but
  -- fetch_server_identity, which makes at most one request, for its own path and not for the key of the
  -- server. With another key in place of it, the operation makes the same requests and ends the same.
  pub perform_pinned :
      (op : Operation F) (key other : Value F) (requests : List (Request F))
      → compares_key op ≡ false
      → is_none link key ≡ false
      → is_none link other ≡ false
      → let r = perform link op (client_with key requests) in
        let r' = perform link op (client_with other requests) in
        (r.0.server_hotkey ≡ key)
        × IsOneMore (path_of op) requests r.0.requests
        × (r'.0.requests ≡ r.0.requests)
        × (r'.1 ≡ r.1)
  perform_pinned op key other requests h n n' =
      let b = perform-IsBlind op h in
      rw (b.blind key requests n, b.blind other requests n') (refl, b.once requests, refl, refl)
