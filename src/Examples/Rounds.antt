-- ===== src/Examples/Rounds.antt =====
-- A round with two miners, one of whom was scored in an earlier pass, and code that hides behind "#".
use phylax_subnet.Prelude.{
  ℕ, ◌≡◌, refl, inl, Bool, true, false, String, Option, some, List, [], ◌∷◌, ◌++◌, ◌==◌,
  if◌then◌else◌, get, put, Dict, is_empty, All, eq_refl, member,
}
use phylax_subnet.Prelude.Text.{Text, codes, same, contains, starts_with, strip}
use phylax_subnet.Number.Fixed.{Fixed, fixed_float}
use phylax_subnet.Value.{str, Fields, field, end, truthy, or_else, to_string}
use phylax_subnet.Screening.{
  Node, Rule, splitlines, abuse_reason, is_docstring_line, normalise_code, kept_lines,
  before_comment, join_lines, first_reason,
}
use phylax_subnet.Screening.Blind.{abuse_reason-hash}
use phylax_subnet.Round.{Attempt, done, abstains, Pass, run_tracks, run_round, track_eval_order}
use phylax_subnet.Round.Agents.{
  Agent, utf8_length, provider_of_key, screen_runnable, agent_of, fetch_agents,
}
use phylax_subnet.Round.Frozen.{IsAdmitted, fetch_agents-IsAdmitted}
use phylax_subnet.Round.Scores.{IsSorted, run_round-IsSorted}
use phylax_subnet.Round.Track.{
  Completion, Environment, resume_rows, prior_round_results, take_completed, score_track, run_track,
  pending_of, Detail, resumed_agents,
}
use phylax_subnet.Round.Rows.{IsOnce, IsSchedule, run_track-IsOnce}
use phylax_subnet.Round.Poll.{
  Offer, Answer, open_round, no_round, Polls, Duties, accepted, polled, poll_tracks, finished,
  execute_round, register_with_server, registered_first, run_offers, begin_round,
}
use phylax_subnet.Round.Fresh.{IsAdvanced, begin_round-IsAdvanced}
use phylax_subnet.Round.Infra.{IsUnabstaining, run_track-IsUnabstaining}
use phylax_subnet.Round.Live.{begin_round-done}
use phylax_subnet.Examples.{digest, plain}

abbrev parse : Text → Option (List Node)
parse code = some []

abbrev keep_literals : Text → Text
keep_literals code = code

abbrev rules : List Rule
rules =
    record {
      reason = codes "executes unauthorised system commands";
      search = λ base. contains base (codes "os.system");
      strip_first = true;
    }
    ∷ []

hidden :
    splitlines (codes "s='#';os.system(c)") ≡ (codes "s='" ++ (b'#' ∷ codes "';os.system(c)")) ∷ []
unfolding splitlines codes
hidden = refl

shown : splitlines (codes "s='#'") ≡ (codes "s='" ++ (b'#' ∷ codes "'")) ∷ []
unfolding splitlines codes
shown = refl

caught :
    abuse_reason parse keep_literals rules (codes "os.system(c)")
    ≡ codes "executes unauthorised system commands"
unfolding abuse_reason normalise_code kept_lines splitlines before_comment join_lines first_reason
    is_docstring_line strip contains starts_with codes
caught = refl

-- The command is run, and is not seen.
abuse_reason-hash_example :
    abuse_reason parse keep_literals rules (codes "s='#';os.system(c)")
    ≡ abuse_reason parse keep_literals rules (codes "s='#'")
abuse_reason-hash_example =
    abuse_reason-hash parse keep_literals rules (codes "s='#';os.system(c)") (codes "s='#'") [] []
      (codes "s='") (codes "';os.system(c)") (codes "'") hidden shown refl

abbrev part : Fields Fixed
part = field "hotkey" (str "miner") end

abbrev reply : Fields Fixed
reply = field "code" (str "def agent_main(): pass") (field "execution_api_key" (str "cpk_7") end)

abbrev agent : Agent Fixed
agent = record {
  code = codes "def agent_main(): pass";
  entrypoint = str "agent_main";
  execution_api_key = str "cpk_7";
  inference_provider = str "chutes";
  inference_model = str "";
  agent_hash = codes "sha256:" ++ digest (codes "def agent_main(): pass");
}

abbrev clean : Text → Text
clean code = []

abbrev registered : String → Bool
registered hotkey = hotkey == "miner"

abbrev served : String → Attempt (Option (Fields Fixed))
served hotkey = done (some reply)

fetched :
    fetch_agents plain clean digest registered served "skills" (part ∷ []) []
    ≡ done (("miner", agent) ∷ [])
unfolding fetch_agents agent_of screen_runnable provider_of_key utf8_length get put codes same
    contains starts_with truthy or_else to_string
fetched = refl

fetch_agents-IsAdmitted_example :
    All (IsAdmitted plain clean digest registered served) (("miner", agent) ∷ [])
fetch_agents-IsAdmitted_example =
    fetch_agents-IsAdmitted plain clean digest registered served "skills" (part ∷ []) []
      (("miner", agent) ∷ []) tt fetched

-- Only the skills track is served.
abbrev ran : String → ℕ → ℕ × Attempt (Option ℕ)
ran track s = (s, (if track == "skills" then done (some 1) else abstains))

abbrev pass : Pass ℕ
pass = record {
  scores = ("skills", 1) ∷ [];
  failed = "mcp_servers" ∷ "packages" ∷ "repositories" ∷ [];
}

passed : run_round ran 0 ≡ (0, done pass)
unfolding run_round run_tracks
passed = refl

run_round-IsSorted_example : IsSorted ran track_eval_order pass × (is_empty pass.scores ≡ false)
run_round-IsSorted_example = run_round-IsSorted ran 0 0 pass passed

abbrev complete_first : Dict (Agent Fixed) → List (Completion Fixed)
complete_first [] = []
complete_first ((k, a) ∷ agents) =
    record {
      hotkey = k;
      agent_hash = a.agent_hash;
      out_of_window = false;
      outcome = done (900, (2, 2));
    }
    ∷ []

abbrev agents : Dict (Agent Fixed)
agents = ("early", agent) ∷ ("late", agent) ∷ []

abbrev env : Environment Fixed ℕ
env = record {
  has_server = true;
  inference_required = true;
  ready_before = true;
  ready_after = true;
  corpus = done (0 ∷ []);
  agents = done agents;
  prior_results = some (field "miner_hotkey" (str "early") end ∷ []);
  completed = complete_first;
  float_of = λ v. done 500;
  round6 = λ x. x;
}

scheduled : (pending : Dict (Agent Fixed)) → IsSchedule plain env pending
scheduled [] = (tt, tt)
scheduled ((k, a) ∷ pending) = ((refl, tt), (rw (eq_refl k) refl, tt))

abbrev scored_rows : List (String × Fixed)
scored_rows = ("early", 500) ∷ ("late", 900) ∷ []

rows_returned : (run_track plain env).1 ≡ done (some scored_rows)
unfolding run_track score_track take_completed prior_round_results resume_rows get put truthy
    or_else to_string
rows_returned = refl

run_track-IsOnce_example : IsOnce agents scored_rows
run_track-IsOnce_example =
    run_track-IsOnce plain env agents scored_rows refl
      (λ resumed. scheduled (pending_of plain env agents resumed)) rows_returned

run_track-IsUnabstaining_example :
    (found : Dict (Agent Fixed)) × (resumed : Dict (Detail Fixed)) × (resumed_agents plain env
      ≡ done (found, resumed))
    × IsUnabstaining (env.completed (pending_of plain env found resumed))
run_track-IsUnabstaining_example = run_track-IsUnabstaining plain env scored_rows rows_returned

-- A poll where one of the four tracks has an open round.
abbrev answer : String → Answer Fixed
answer track = if track == "skills" then open_round "r1" "seed" [] else no_round

abbrev polls : Polls Fixed ℕ
polls = record {
  done_rounds = "r0" ∷ [];
  retry_at = 0;
  registered_with_server = false;
  round_running = false;
  rounds = 0;
}

-- A registration that the backend takes, votes that leave the state, and a submission.
abbrev duties : Duties Fixed ℕ ℕ
duties = record {
  refresh = λ n. n;
  register = λ n. (n, accepted);
  run_track = λ offers. ran;
  cast_weights = λ running scores n. (n, done tt);
  submit_results = λ offers n. (n, done tt);
}

passed_rounds :
    (offers : List (Offer Fixed)) (n : ℕ) → (run_round (duties.run_track offers) n).1 ≡ done pass
unfolding run_round run_tracks
passed_rounds offers n = refl

polled_once : (begin_round duties true answer 1000 2000 polls).0.done_rounds ≡ "r0" ∷ "r1" ∷ []
unfolding begin_round poll_tracks polled run_offers registered_first register_with_server
    execute_round run_round run_tracks finished
polled_once = refl

begin_round-IsAdvanced_example :
    IsAdvanced duties true 2000 polls (begin_round duties true answer 1000 2000 polls)
begin_round-IsAdvanced_example = begin_round-IsAdvanced duties true answer 1000 2000 polls

begin_round-done_example :
    member "r1" (begin_round duties true answer 1000 2000 polls).0.done_rounds ≡ true
begin_round-done_example =
    begin_round-done duties (λ n. inl refl) (λ running scores n. refl) (λ offers n. refl) answer
      1000 2000 polls "skills" "r1" "seed" [] refl (refl, (refl, (refl, (refl, tt)))) refl refl
      (λ offers w n. (pass, passed_rounds offers n, refl))
