-- ===== src/ServerClient/Dropped.antt =====
-- What an error of the backend does to a round: `get_runnable_agent` of phylax/server_client.py in
-- `_fetch_agents` of neurons/validator.py.
use phylax_subnet.Prelude.{
  ℕ, ◌≡◌, refl, Bool, true, false, not, ◌&&◌, String, Option, none, some, List, ◌∷◌, ◌==◌, get, leb,
  arith, Bool-cases, inl, inr, Dict,
}
use phylax_subnet.Prelude.Text.{Text, codes}
use phylax_subnet.Number.{Float}
use phylax_subnet.Value.{Value, obj, str, Fields, truthy, is_dict, or_else, to_string, Conversions}
use phylax_subnet.Round.{Attempt, done, abstains, fails}
use phylax_subnet.Round.Agents.{Agent, at_or, agent_of, fetch_agents}
use phylax_subnet.ServerClient.{
  Link, Client, Content, empty, no_json, json, Called, ok, unreachable, rejected, mismatch, crashed,
  response, of_response, request, get_request, identified, is_none, runnable_path,
  get_runnable_agent, blurred,
}

module _ {F : Type 0} where
  -- The `try` of `_fetch_agents`, and (data or {}).get
  abbrev pub fetched : Called (Option (Value F)) → Attempt (Option (Fields F))
  fetched (ok none) = done none
  fetched (ok (some (obj fs))) = done (some fs)
  fetched (ok (some v)) = fails
  fetched unreachable = abstains
  fetched (rejected status) = abstains
  fetched mismatch = fails
  fetched crashed = fails

module _ {F : Type 0} ⦃num : Float F⦄ (link : Link F) where
  error_blurred :
      (status : ℕ) (content : Content F) (s : Client F)
      → leb 400 status ≡ true
      → (blurred link (s, of_response link (response status content))).1 ≡ ok none
  unfolding of_response
  error_blurred status empty s h = rw h refl
  error_blurred status no_json s h = rw h refl
  error_blurred status (json v) s h = elim (Bool-cases (truthy v && not (is_dict v))) [
    | inl t ↦ rw (h, t) refl
    | inr t ↦ rw (h, t) refl
  ]

  -- The backend answers the request for the agent with an error of HTTP, whatever error.
  abbrev pub IsRefused : Client F → String → Type 0
  IsRefused s hotkey =
      (status : ℕ) × (content : Content F) × (leb 400 status ≡ true)
      × (link.send s.requests
            (get_request link (runnable_path link "/v1/specialization/agent/" hotkey))
          ≡ response status content)

  refused_agent :
      (s : Client F) (hotkey : String)
      → link.has_wallet ≡ true
      → is_none link s.server_hotkey ≡ false
      → IsRefused s hotkey
      → (get_runnable_agent link hotkey s).1 ≡ ok none
  unfolding get_runnable_agent identified request
  refused_agent s hotkey wallet pinned (status, content, error, answer) =
      let ready : not link.has_wallet ≡ false = ground arith in
      rw (pinned, ready, answer) (error_blurred status content _ error)

  module _ (conv : Conversions F) (abuse_reason sha256 : Text → Text)
      (is_registered : String → Bool) (s : Client F) where
    abbrev pub agent_reply : String → Attempt (Option (Fields F))
    agent_reply hotkey = fetched (get_runnable_agent link hotkey s).1

    -- A participant that the backend answers with any error of HTTP, be it of the signature, of a rate
    -- limit or of the backend itself, is left out of the round as if it were not frozen for it.
    pub fetch_agents-dropped :
        (track : String) (part : Fields F) (parts : List (Fields F)) (agents : Dict (Agent F))
        → link.has_wallet ≡ true
        → is_none link s.server_hotkey ≡ false
        → IsRefused s (to_string conv (or_else (at_or conv part "hotkey" (str "")) (str "")))
        → fetch_agents conv abuse_reason sha256 is_registered agent_reply track
            (part ∷ parts)
            agents
          ≡ fetch_agents conv abuse_reason sha256 is_registered agent_reply track parts agents
    unfolding fetch_agents agent_of or_else truthy to_string codes get
    fetch_agents-dropped track part parts agents wallet pinned refused =
        let hotkey = to_string conv (or_else (at_or conv part "hotkey" (str "")) (str "")) in
        elim (Bool-cases (hotkey == "")) [
          | inl e ↦ rw e refl
          | inr e ↦ elim (Bool-cases (is_registered hotkey)) [
            | inl r ↦ rw (e, r, refused_agent s hotkey wallet pinned refused) refl
            | inr r ↦ rw (e, r) refl
          ]
        ]
