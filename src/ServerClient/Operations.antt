-- ===== src/ServerClient/Operations.antt =====
-- The operations of the client: phylax/server_client.py. A number of the progress is a `Value`.
use phylax_subnet.Prelude.{not, ◌&&◌, String, Option, some, ◌==◌, if◌then◌else◌}
use phylax_subnet.Prelude.Text.{concat}
use phylax_subnet.Number.{Float}
use phylax_subnet.Value.{Value, str, arr, Items, Fields, obj, end, field}
use phylax_subnet.Executor.Agent.{set_field}
use phylax_subnet.ServerClient.{
  Link, Action, return, ◌>>=◌, request, get_request, post_request, unsigned_request,
  fetch_server_identity, identified, next_round, get_runnable_agent, get_runnable_agent_as_sandbox,
  fetch_runnable_agent,
}

-- What `submit_round_progress` is told besides the round and the track.
pub record Progress (F : Type 0) : Type 0 where
  pub phase : String
  pub agents_done : Value F
  pub agents_total : Value F
  pub current_agent : String
  pub tasks_total : Value F
  pub note : String

-- What `submit_agent` is given.
pub record Submission : Type 0 where
  pub hotkey : String
  pub name : String
  pub code : String
  pub entrypoint : String
  pub execution_api_key : String
  pub inference_model : String
  pub dependency_manifest : String
  pub sandbox_image : String
  pub sandbox_digest : String

pub data Operation (F : Type 0) : Type 0 where
  server_identity : Operation F
  health : Operation F
  register_track : String → String → String → Operation F
  register_validator : String → Operation F
  poll : String → Operation F
  runnable_agent : String → Operation F
  sandbox_agent : String → Operation F
  any_agent : String → Operation F
  round_tasks : String → Operation F
  round_artifact : String → String → Operation F
  my_results : Operation F
  round_results : String → Operation F
  round_progress : String → String → Progress F → Operation F
  submit_results : String → String → String → Value F → String → Items F → Items F → Operation F
  submit_agent : Submission → Operation F

module _ {F : Type 0} where
  abbrev pub agent_body : Submission → Fields F
  agent_body a =
      let body = field "hotkey" (str a.hotkey) (
        field "name" (str a.name) (
          field "code" (str a.code) (
            field "entrypoint" (str a.entrypoint) (
              field "execution_api_key" (str a.execution_api_key) (
                field "inference_model" (str a.inference_model)
                  (field "dependency_manifest" (str a.dependency_manifest) end)))))) in
      if not (a.sandbox_image == "") && not (a.sandbox_digest == "")
      then set_field "sandbox"
          (obj (
            field "image_uri" (str a.sandbox_image)
              (field "image_hash" (str a.sandbox_digest) end)))
          body
      else body

  abbrev pub progress_body : String → String → Progress F → Fields F
  progress_body round_id track p = field "round_id" (str round_id) (
      field "track" (str track) (
        field "phase" (str p.phase) (
          field "agents_done" p.agents_done (
            field "agents_total" p.agents_total (
              field "current_agent" (str p.current_agent)
                (field "tasks_total" p.tasks_total (field "note" (str p.note) end)))))))

  abbrev pub results_body :
      String → String → String → Value F → String → Items F → Items F → Fields F
  results_body round_id track validator_hotkey start_block seed results attestations =
      field "round_id" (str round_id) (
        field "track" (str track) (
          field "validator_hotkey" (str validator_hotkey) (
            field "start_block" start_block (
              field "seed" (str seed)
                (field "results" (arr results) (field "attestations" (arr attestations) end))))))

  abbrev pub track_body : String → String → String → Fields F
  track_body hotkey track label = field "hotkey" (str hotkey) (
      field "registration_version" (str "2.0")
        (field "track" (str track) (field "label" (str label) end)))

module _ {F : Type 0} ⦃num : Float F⦄ (link : Link F) where
  abbrev pub answered : Action F (Value F) → Action F (Option (Value F))
  answered m = do v ← m; return (some v)

  abbrev pub get_path : String → Action F (Option (Value F))
  get_path path = identified link (answered (request link (get_request link path)))

  abbrev pub post_path : String → Fields F → Action F (Option (Value F))
  post_path path body = identified link (answered (request link (post_request link path body)))

  -- The methods of `PhylaxServerClient` that call the backend.
  unfoldable pub perform : Operation F → Action F (Option (Value F))
  perform server_identity = answered (fetch_server_identity link)
  perform health = answered (request link (unsigned_request link "/v1/health" ""))
  perform (register_track hotkey track label) =
      post_path "/v1/specialization/register" (track_body hotkey track label)
  perform (register_validator label) =
      post_path "/v1/validators/register" (field "label" (str label) end)
  perform (poll track) = next_round link track
  perform (runnable_agent hotkey) = get_runnable_agent link hotkey
  perform (sandbox_agent hotkey) = get_runnable_agent_as_sandbox link hotkey
  perform (any_agent hotkey) = fetch_runnable_agent link hotkey
  perform (round_tasks round_id) = get_path (concat "/v1/rounds/" (concat round_id "/tasks"))
  perform (round_artifact round_id source_id) =
      get_path (concat "/v1/rounds/" (concat round_id (concat "/artifact/" source_id)))
  perform my_results = get_path "/v1/rounds/my-results"
  perform (round_results round_id) = get_path (concat "/v1/rounds/" (concat round_id "/my-results"))
  perform (round_progress round_id track p) =
      post_path "/v1/rounds/progress" (progress_body round_id track p)
  perform (submit_results round_id track validator_hotkey start_block seed results attestations) =
      post_path "/v1/rounds/results"
        (results_body round_id track validator_hotkey start_block seed results attestations)
  perform (submit_agent a) =
      answered (request link (post_request link "/v1/specialization/agent" (agent_body a)))
