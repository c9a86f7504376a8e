-- ===== src/Round/Frozen.antt =====
-- Which agents are evaluated: `_fetch_agents` of neurons/validator.py.
use phylax_subnet.Prelude.{
  ◌≤◌, ◌≡◌, refl, subst, sym, Bool, true, false, not, ◌&&◌, inl, inr, String, Option, none, some,
  List, [], ◌∷◌, ◌==◌, ltb, if◌then◌else◌, is_empty, Dict, All, All-put, arith, eq_iff, Bool-cases,
}
use phylax_subnet.Prelude.Text.{Text, codes, same, same→≡}
use phylax_subnet.Number.{Float}
use phylax_subnet.Value.{str, Fields, or_else, to_string, Conversions}
use phylax_subnet.Round.{Attempt, done, >>=-eq-done, by_test}
use phylax_subnet.Round.Agents.{
  Agent, utf8_length, max_agent_bytes, screen_runnable, agent_of, fetch_agents, digest_of,
  add_agent, provider_for, or_empty_dict, at_or, at_else,
}

passes_test :
    (b : Bool) (why rest : Text)
    → is_empty why ≡ false
    → is_empty (if b then why else rest) ≡ true
    → (b ≡ false) × (is_empty rest ≡ true)
passes_test true why rest e h = cc
passes_test false why rest e h = (refl, h)

not_agent : {A P : Type 0} {a : A} → ◌≡◌ {A = Attempt (Option A)} (done none) (done (some a)) → P
not_agent h = cc

-- A digest that agrees with the frozen hash, where there is one, is the hash of the agent.
frozen_hash :
    (digest expected : Text)
    → (not (is_empty expected) && not (same digest expected)) ≡ false
    → (if is_empty expected then digest else expected) ≡ digest
frozen_hash digest [] h = refl
frozen_hash digest (c ∷ s) h = elim (Bool-cases (same digest (c ∷ s))) [
  | inl e ↦ sym (same→≡ digest (c ∷ s) e)
  | inr e ↦ cc
]

made : {A : Type 0} {a b : A} → ◌≡◌ {A = Attempt (Option A)} (done (some a)) (done (some b)) → a ≡ b
made h = cc

module _ {F : Type 0} ⦃num : Float F⦄ (conv : Conversions F) (abuse_reason : Text → Text)
    (sha256 : Text → Text) (is_registered : String → Bool)
    (runnable_agent : String → Attempt (Option (Fields F))) where
  -- The agent's code is what its hash says, of bounded size, and passed by the screen.
  abbrev pub IsSound : Agent F → Type 0
  IsSound agent =
      (agent.agent_hash
        ≡ digest_of conv abuse_reason sha256 is_registered runnable_agent agent.code)
      × (utf8_length agent.code ≤ max_agent_bytes)
      × (is_empty (abuse_reason agent.code) ≡ true)

  -- And its miner is registered.
  abbrev pub IsAdmitted : String × Agent F → Type 0
  IsAdmitted entry = (is_registered entry.0 ≡ true) × IsSound entry.1

  screened :
      (track : String) (reply : Fields F) (code : Text)
      → is_empty (screen_runnable conv abuse_reason track reply code) ≡ true
      → (utf8_length code ≤ max_agent_bytes) × (is_empty (abuse_reason code) ≡ true)
  unfolding screen_runnable codes
  screened track reply code h =
      let (_, h1) =
        passes_test (not (to_string conv (at_or conv reply "track" (str track)) == track))
          (codes "wrong track") _ refl h in
      let (small, h2) =
        passes_test (ltb max_agent_bytes (utf8_length code)) (codes "agent exceeds size limit") _
          refl h1 in
      let (_, h3) = passes_test _ (codes "missing entrypoint") _ refl h2 in
      let (clean, _) = passes_test (not (is_empty (abuse_reason code))) _ [] refl h3 in
      (ground arith, ground arith)

  agent_of-IsSound :
      (track : String) (expected : Text) (reply : Fields F) (agent : Agent F)
      → agent_of conv abuse_reason sha256 is_registered runnable_agent track expected reply
        ≡ done (some agent)
      → IsSound agent
  unfolding agent_of
  agent_of-IsSound track expected reply agent h =
      let code = codes (to_string conv (at_else conv reply "code" (str ""))) in
      let digest = digest_of conv abuse_reason sha256 is_registered runnable_agent code in
      by_test (is_empty code) (λ _ k. not_agent k)
        (λ _ k.
          by_test (not (is_empty expected) && not (same digest expected)) (λ _ l. not_agent l)
            (λ agrees l.
              by_test (not (is_empty (screen_runnable conv abuse_reason track reply code)))
                (λ _ m. not_agent m)
                (λ passed m.
                  let (provider, e, built) =
                    >>=-eq-done
                      (provider_for conv abuse_reason sha256 is_registered runnable_agent reply) _
                      m in
                  let (small, clean) = screened track reply code (ground arith) in
                  let hash_is : (if is_empty expected then digest else expected) ≡ digest =
                    frozen_hash digest expected agrees in
                  let same_agent = made built in subst IsSound same_agent (hash_is, small, clean))
                l)
            k)
        h

  added :
      (track hotkey : String) (expected : Text) (reply : Fields F) (agents : Dict (Agent F))
      (found : Option (Agent F))
      → is_registered hotkey ≡ true
      → All IsAdmitted agents
      → agent_of conv abuse_reason sha256 is_registered runnable_agent track expected reply
        ≡ done found
      → All IsAdmitted
          (add_agent conv abuse_reason sha256 is_registered runnable_agent agents hotkey found)
  added track hotkey expected reply agents none r ok e = ok
  added track hotkey expected reply agents (some agent) r ok e =
      let sound = agent_of-IsSound track expected reply agent e in
      All-put IsAdmitted agents hotkey agent ok
        (λ j h. (subst (λ k. is_registered k ≡ true) (sym ((eq_iff j hotkey).0 h)) r, sound))
        (r, sound)

  -- Every agent of those before is admitted if it was, and every one that is fetched.
  pub fetch_agents-IsAdmitted :
      (track : String) (parts : List (Fields F)) (agents fetched : Dict (Agent F))
      → All IsAdmitted agents
      → fetch_agents conv abuse_reason sha256 is_registered runnable_agent track parts agents
        ≡ done fetched
      → All IsAdmitted fetched
  unfolding fetch_agents
  fetch_agents-IsAdmitted track [] agents fetched ok h =
      let same_agents : agents ≡ fetched = cc in subst (All IsAdmitted) same_agents ok
  fetch_agents-IsAdmitted track (part ∷ parts) agents fetched ok h =
      let hotkey = to_string conv (or_else (at_or conv part "hotkey" (str "")) (str "")) in
      let expected =
        codes (to_string conv (or_else (at_or conv part "agent_hash" (str "")) (str ""))) in
      by_test (hotkey == "") (λ _ k. fetch_agents-IsAdmitted track parts agents fetched ok k)
        (λ _ k.
          by_test (not (is_registered hotkey))
            (λ _ l. fetch_agents-IsAdmitted track parts agents fetched ok l)
            (λ registered l.
              let (reply, e1, h1) = >>=-eq-done (runnable_agent hotkey) _ l in
              let (found, e2, h2) =
                >>=-eq-done
                  (agent_of conv abuse_reason sha256 is_registered runnable_agent track expected
                    (or_empty_dict conv abuse_reason sha256 is_registered runnable_agent reply))
                  _ h1 in
              fetch_agents-IsAdmitted track parts _ fetched
                (added track hotkey expected _ agents found (ground arith) ok e2) h2)
            k)
        h
