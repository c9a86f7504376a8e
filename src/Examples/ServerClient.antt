-- ===== src/Examples/ServerClient.antt =====
-- A client with a key, and a backend that answers every request with status 500.
use phylax_subnet.Prelude.{◌≡◌, refl, Bool, true, false, String, [], ◌∷◌}
use phylax_subnet.Prelude.Text.{Text}
use phylax_subnet.Number.Fixed.{Fixed, fixed_float}
use phylax_subnet.Value.{str, Fields, field, end}
use phylax_subnet.Round.Agents.{fetch_agents}
use phylax_subnet.ServerClient.{Link, Client, response, no_json}
use phylax_subnet.ServerClient.Operations.{my_results, perform}
use phylax_subnet.ServerClient.KeyBlind.{IsOneMore, client_with}
use phylax_subnet.ServerClient.Pinned.{perform_pinned}
use phylax_subnet.ServerClient.Dropped.{agent_reply, fetch_agents-dropped}
use phylax_subnet.Examples.{plain, digest}

abbrev failing : Link Fixed
failing = record {
  send = λ requests r. response 500 no_json;
  has_wallet = true;
  sandbox_token = "";
  same = λ v w. false;
}

abbrev client : Client Fixed
client = record { server_hotkey = str "abab"; requests = [] }

perform_pinned_example :
    let r = perform failing my_results (client_with (str "abab") []) in
    let r' = perform failing my_results (client_with (str "cdcd") []) in
    (r.0.server_hotkey ≡ str "abab")
    × IsOneMore "/v1/rounds/my-results" [] r.0.requests
    × (r'.0.requests ≡ r.0.requests)
    × (r'.1 ≡ r.1)
perform_pinned_example =
    perform_pinned failing my_results (str "abab") (str "cdcd") [] refl refl refl

abbrev clean : Text → Text
clean code = []

abbrev registered : String → Bool
registered hotkey = true

abbrev part : Fields Fixed
part = field "hotkey" (str "miner") end

fetch_agents-dropped_example :
    fetch_agents plain clean digest registered
      (agent_reply failing plain clean digest registered client)
      "skills"
      (part ∷ [])
      []
    ≡ fetch_agents plain clean digest registered
        (agent_reply failing plain clean digest registered client)
        "skills"
        []
        []
fetch_agents-dropped_example =
    fetch_agents-dropped failing plain clean digest registered client "skills" part [] [] refl refl
      (500, no_json, refl, refl)
