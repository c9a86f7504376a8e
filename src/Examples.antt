-- ===== src/Examples.antt =====
-- Inputs on which the code is run: one agent's evidence and two rows of scores. The hash gives a
-- constant digest.
pub mod Emission
pub mod Scoring
pub mod Voting
pub mod Runs
pub mod Agents
pub mod Metering
pub mod Proxy
pub mod Contributors
pub mod Rounds
pub mod Audit
pub mod SafeHttp
pub mod Runner
pub mod Executor
pub mod ServerClient
pub mod Sandbox
pub mod Corpus
use phylax_subnet.Prelude.{ℕ, String, Option, none, some, List, [], ◌∷◌}
use phylax_subnet.Prelude.Text.{Text, codes}
use phylax_subnet.Number.Fixed.{Fixed}
use phylax_subnet.Value.{
  Value, str, arr, nil, cons, obj, end, field, Outcome, returns, raises, Conversions,
}

abbrev pub digest : Text → Text
digest t = codes "0123456789abcdef0123456789abcdef0123456789abcdef0123456789abcdef"

abbrev pub hash_of : Value Fixed → Text
hash_of v = codes "h"

abbrev pub plain : Conversions Fixed
plain = record { render = λ v. ""; int_of_str = λ s. none; int_of_float = λ x. none }

-- The result of a call that returned.
abbrev pub result_or : {A : Type 0} → A → Outcome A → A
result_or a (returns b) = b
result_or a raises = a

abbrev one_field : String → Value Fixed → Value Fixed
one_field k v = obj (field k v end)

abbrev one_event : String → String → Value Fixed
one_event k s = arr (cons (one_field k (str s)) nil)

abbrev plane : Value Fixed → Value Fixed
plane events = obj (field "hash" (str "h") (field "events" events end))

abbrev pub file : String
file = "/task/workspace/.probe_0123456789abcdef"

abbrev pub host : String
host = "01234567.probe.phylax.ai"

abbrev pub token : String
token = "89abcdef01234567"

abbrev proof : Value Fixed
proof = obj (
    field "probe_evidence"
      (obj (
        field "file_write" (str file) (
          field "dns_lookup" (str host) (
            field "process_echo" (str token)
              (field "canary" (str "89abcdef0123456789abcdef01234567") end)))))
      (field "traces"
        (obj (
          field "filesystem" (plane (one_event "path" file)) (
            field "network" (plane (one_event "domain" host))
              (field "process" (plane (one_event "cmd" "echo 89abcdef01234567")) end))))
        end))

abbrev pub evidence : Value Fixed
evidence = obj (
    field "proof_of_execution" proof (
      field "action_plane" (one_field "capabilities" (arr (cons (str "no.such.capability") nil)))
        (field "context_plane" (one_field "injected_instructions" (arr (cons (str "x") nil))) end)))

abbrev kind : String → String → String → Value Fixed
kind name k s = obj (field "kind" (str name) (field k (str s) end))

abbrev pub trace : List (Value Fixed)
trace =
    kind "proc" "cmd" "echo 89abcdef01234567" ∷ kind "fs" "path" file ∷ kind "net" "host" host ∷ []

-- The result of a run that flags the artifact.
abbrev pub flagged : Value Fixed
flagged = obj (
    field "verdict" (one_field "decision" (str "block")) (
      field "evidence" evidence (
        field "validator_trace"
          (arr (
            cons (kind "proc" "cmd" "echo 89abcdef01234567")
              (cons (kind "fs" "path" file) (cons (kind "net" "host" host) nil))))
          end)))
