-- ===== src/Round/Agents.antt =====
-- The agents of a round: `_fetch_agents` and `_screen_runnable` of neurons/validator.py. The chain,
-- the backend, the digest and the screen are parameters; `encode` into UTF-8 is by code points.
use phylax_subnet.Prelude.{
  ℕ, ◌+◌, Bool, not, ◌&&◌, String, Option, none, some, List, [], ◌∷◌, ◌++◌, ◌==◌, ltb,
  if◌then◌else◌, is_empty, Dict, get, put,
}
use phylax_subnet.Prelude.Text.{Text, codes, same, contains, starts_with}
use phylax_subnet.Number.{Float}
use phylax_subnet.Value.{
  Value, null, str, Fields, entries, end, truthy, or_else, to_string, Conversions,
}
use phylax_subnet.Round.{Attempt, done, fails, ◌>>=◌}

abbrev pub max_agent_bytes : ℕ
max_agent_bytes = 524288

-- The bytes of a code point in UTF-8.
abbrev pub utf8_width : ℕ → ℕ
utf8_width c = if ltb c 128 then 1 else if ltb c 2048 then 2 else if ltb c 65536 then 3 else 4

-- len(code.encode("utf-8"))
unfoldable pub utf8_length : Text → ℕ
utf8_length [] = 0
utf8_length (c ∷ s) = utf8_width c + utf8_length s

-- An entry of the agents that are evaluated.
pub record Agent (F : Type 0) : Type 0 where
  pub code : Text
  pub entrypoint : Value F
  pub execution_api_key : Value F
  pub inference_provider : Value F
  pub inference_model : Value F
  pub agent_hash : Text

module _ {F : Type 0} ⦃num : Float F⦄ (conv : Conversions F) where
  -- d.get(k, default)
  abbrev pub at_or : Fields F → String → Value F → Value F
  at_or fs k default = elim (get (entries fs) k) [ none ↦ default | some v ↦ v ]

  -- d.get(k) or default
  abbrev pub at_else : Fields F → String → Value F → Value F
  at_else fs k default = or_else (at_or fs k null) default

  -- `_provider`
  unfoldable pub provider_of_key : Value F → Attempt (Value F)
  provider_of_key (str key) =
      if starts_with (codes key) (codes "cpk_")
      then done (str "chutes")
      else if starts_with (codes key) (codes "sk-or-")
      then done (str "openrouter")
      else done (str "")
  provider_of_key _ = fails

  module _ (abuse_reason : Text → Text) where
    -- `_screen_runnable`; "" is a pass.
    unfoldable pub screen_runnable : String → Fields F → Text → Text
    screen_runnable track reply code =
        let entrypoint = to_string conv (at_else reply "entrypoint" (str "agent_main")) in
        let abuse = abuse_reason code in
        if not (to_string conv (at_or reply "track" (str track)) == track)
        then codes "wrong track"
        else if ltb max_agent_bytes (utf8_length code)
        then codes "agent exceeds size limit"
        else if not (contains code (codes "def " ++ codes entrypoint))
        then codes "missing entrypoint"
        else if not (is_empty abuse)
        then codes "abuse pattern: " ++ abuse
        else []

    module _ (sha256 : Text → Text) (is_registered : String → Bool)
        (runnable_agent : String → Attempt (Option (Fields F))) where
      -- reply.get("inference_provider") or _provider(reply.get("execution_api_key") or "")
      abbrev pub provider_for : Fields F → Attempt (Value F)
      provider_for reply =
          let own = at_or reply "inference_provider" null in
          if truthy own
          then done own
          else provider_of_key (at_else reply "execution_api_key" (str ""))

      abbrev pub digest_of : Text → Text
      digest_of code = codes "sha256:" ++ sha256 code

      -- The agent that a reply of the backend holds, unless it is passed over.
      unfoldable pub agent_of : String → Text → Fields F → Attempt (Option (Agent F))
      agent_of track expected reply =
          let code = codes (to_string conv (at_else reply "code" (str ""))) in
          let actual = digest_of code in
          if is_empty code
          then done none
          else if not (is_empty expected) && not (same actual expected)
          then done none
          else if not (is_empty (screen_runnable track reply code))
          then done none
          else (do
            provider ← provider_for reply
            done (
                some (record {
                  code = code;
                  entrypoint = at_else reply "entrypoint" (str "agent_main");
                  execution_api_key = at_else reply "execution_api_key" (str "");
                  inference_provider = provider;
                  inference_model = at_else reply "inference_model" (str "");
                  agent_hash = if is_empty expected then actual else expected;
                })))

      abbrev pub or_empty_dict : Option (Fields F) → Fields F
      or_empty_dict none = end
      or_empty_dict (some fs) = fs

      abbrev pub add_agent : Dict (Agent F) → String → Option (Agent F) → Dict (Agent F)
      add_agent agents hotkey none = agents
      add_agent agents hotkey (some agent) = put agents hotkey agent

      -- The loop of `_fetch_agents` over the frozen participants, with a server.
      unfoldable pub fetch_agents :
          String → List (Fields F) → Dict (Agent F) → Attempt (Dict (Agent F))
      fetch_agents track [] agents = done agents
      fetch_agents track (part ∷ parts) agents =
          let hotkey = to_string conv (or_else (at_or part "hotkey" (str "")) (str "")) in
          let expected =
            codes (to_string conv (or_else (at_or part "agent_hash" (str "")) (str ""))) in
          let skipped = fetch_agents track parts agents in
          if hotkey == "" then skipped else if not (is_registered hotkey) then skipped else (do
            reply ← runnable_agent hotkey
            agent ← agent_of track expected (or_empty_dict reply)
            fetch_agents track parts (add_agent agents hotkey agent))
