-- ===== src/Lib.antt =====
-- A model of the Phylax subnet validator: how it judges one run of a miner's agent, how the
-- verdicts of a round become the agent's score, and how the scores of all tracks become the
-- emission weights that are set on chain.
--
-- The parts and the files that model them:
-- Prelude (Tests, Lists, Dicts, Names, Text): tests on numbers, lists, dictionaries in insertion
-- order, lists of names, and text as code points.
-- Number: the floating-point operations that the code uses, as an interface. Number.Laws states
-- what IEEE 754 doubles in round-to-nearest promise of them (exact integers up to 2^53, monotone
-- rounding, comparisons that are false on NaN); no law says that two roundings cancel.
-- Number.Fixed is an instance that meets the laws, on which the model runs.
-- Value: JSON values and the built-in operations of Python on them. An exception that the
-- modelled code does not catch is the outcome `raises`.
-- Rounds: phylax/rounds.py, the budgets of a track and the blocks and seeds of a round.
-- Proof, Proof.Evidence: phylax/analysis/proof.py, the probe that is derived from a nonce, the
-- check of the trace that the validator recorded, and the proof of execution that the agent
-- submits.
-- Capability: phylax/analysis/capability.py, the permissions and their groups.
-- Tracks, Tracks.Common: phylax/analysis/common.py, skills.py, mcp.py, packages.py and
-- tracks.py, the evaluation of one run on the three tracks whose artifacts are run.
-- Matching: the greedy matching of findings that phylax/analysis/quality.py and repositories.py
-- share. Quality: phylax/analysis/quality.py.
-- Repositories, Repositories.Finding: phylax/analysis/repositories.py, the evaluation of an
-- audit against what the corpus knows of a repository, and `tracks.evaluate` on all four tracks.
-- Scoring: phylax/analysis/scoring.py up to `fbeta`. Emission: the rest of it, the emission
-- weights and the reserved share.
-- Validator: `_run_rep` and `_note_rejection` of neurons/validator.py. Validator.Verdict:
-- `_task_verdict`, which repeats `_run_rep`. Validator.Score: `_score_agent`, which calls it for
-- each task.
-- SafeHttp: phylax/utils/safe_http.py, the check of a URL and the fetch that repeats it on every
-- redirect.
-- Screening: phylax/screening.py, the text of an agent's code that the rules see.
-- Round: `run_round` of neurons/validator.py; Round.Agents: `_fetch_agents` and
-- `_screen_runnable`; Round.Track: `_run_track` and `_prior_round_results`; Round.Poll:
-- `_begin_round`, `_register_with_server` and `_execute_round`, with the votes and the
-- submission in the order in which they are called; Round.Offered: what the polls of the tracks
-- offer.
-- Contributors: `_parse_contributors` of neurons/validator.py, and the list that
-- scripts/publish_contributors.py commits.
-- Voting: `set_weights` of neurons/validator.py, with what `_scores_from_server` and
-- `_all_track_scores` carry from one vote to the next.
-- Validator.Audit: `_score_repo_task` and the branch of `_score_agent` for repositories.
-- Proxy: the handlers of phylax/harness/inference_proxy.py, with its sessions, budgets and
-- counters. A call is split where it waits for the provider; Proxy.Interleaving is the relation
-- of the steps that its threads take in any order, in which the session of a request is looked
-- up in one step and the meter read in another, and Proxy.Keys and Proxy.Budget say what they
-- keep.
-- Metering: the `/metrics` reply of phylax/harness/inference_proxy.py, with `_inference_calls`
-- and `_inference_failure_reason` of neurons/validator.py.
-- Round.Live, Round.Infra: what a poll and a track come to, by the answers of the backend and
-- the ends of the agents' scorings.
-- Runner: `run_task` of phylax/harness/runner.py, with the reports of
-- docker/agent/_agent_runner.py and entrypoint.py.
-- Executor: phylax/harness/executor.py; Executor.Words has the strings that it takes apart,
-- Executor.Action the calls of docker and of the clock, Executor.Await the steps of a container,
-- Executor.Agent the runs of agents and artifacts.
-- ServerClient: phylax/server_client.py; ServerClient.Operations has its methods,
-- ServerClient.Signing what a request is signed over, ServerClient.KeyBlind the calls that the
-- key of the server plays no part in.
-- Sandbox: neurons/sandbox.py, the service that runs champions for customers; Sandbox.Clean: the
-- paths that it and the corpus pack.
-- Corpus: phylax/harness/corpus.py, what is packed of a served source tree, and the ground truth
-- of a document.
-- Proxy.Account: one nonce of the proxy as an account, with the events that move it;
-- Proxy.Traced, Proxy.TracedCalls and Proxy.Traces: the steps of the threads as such events.
-- Examples: inputs on which the code is run.
--
-- How they interact: `begin_round` polls the backend and runs `run_round`, which runs each
-- track: the frozen agents are fetched and screened, and each gets a row with its score.
-- `score_agent` calls `task_verdict` for each labelled task with the wall seconds that are left;
-- that repeats `run_rep`, which takes the result of one run, checks its trace (Proof), evaluates
-- its evidence (Tracks) and gives the ordinal of the verdict; the median of the ordinals is
-- counted in a confusion matrix, whose clamped Matthews correlation (Scoring) is weighed with
-- the quality of the findings (Quality). The result of a run is what `run_task` reads of the
-- report of `run_agent_in_docker`; an `InfraFailure` of it ends the track. `_fetch_agents` asks
-- the client of the backend for each agent, and the customer service packs files, asks the same
-- client and runs `run_task`. `compute_emission_weights` takes the rows of all agents by track;
-- `set_weights` blends its weights with the carried ones, or holds these while a round runs.
--
-- Parameters that stand for code outside the model: `sha256` and `trace_hash` (digests), `run`
-- (one run of the agent in its container, with the seconds that the clock measured), `inference`
-- (what the proxy reports for a nonce), the provider of a proxy's calls, the backend's replies,
-- the transport of its client, docker's answers, the clock and the files that are copied out of
-- a container (each may depend on all that was asked before), archives, their decoding and the
-- places that a member of one resolves to and is written at, the registration, the votes and the
-- submission around a round (each may raise), the draw of a task set, the chain's registrations,
-- the order in which futures complete, the patterns of the screen, the resolver, parsers and
-- client of a fetch, and Conversions (`str` of what is no text, `int` of a text or a float).
--
-- Bounds: the sum of Python is a left fold from 0.0. The tasks of a round are at most 50 by the
-- budgets; 8192 is the number up to which every product under the root of the correlation is an
-- exact double. 2^20 rows over the tracks keep every sum of weights far below 2^53. Every loop
-- of the model is structural recursion and needs no fuel but three: the loop that normalises a
-- path has the length of the path, which each round shortens, a fetch has one round more than
-- its redirects, as in the code, and the wait for a container has more rounds than there are
-- pauses until the clock is past the deadline.
--
-- Not modelled: the uids of a vote, the record of a round and the submission of its results, the
-- fetch of a task set and the corpus of development, canonical JSON, the processes within a
-- container and its audit hook, the development executor, the work of a detonation, logging, the
-- other scripts and reference agents: they are input and output, other processes or tools. The
-- local files of a run are written without error, a token is ASCII, and a client's timestamps,
-- timeouts and signatures are left out. `str.lower`, `str.strip`, `str.split` and the digits of
-- a pattern are those of ASCII, and evidence holds no infinite number. What an exception leaves
-- in the log's counters is not followed.
pub mod Prelude
pub mod Number
pub mod Value
pub mod Matching
pub mod Capability
pub mod Proof
pub mod Tracks
pub mod Scoring
pub mod Emission
pub mod Quality
pub mod Validator
pub mod Rounds
pub mod Examples
pub mod Metering
pub mod Voting
pub mod Proxy
pub mod SafeHttp
pub mod Screening
pub mod Round
pub mod Contributors
pub mod Runner
pub mod Executor
pub mod ServerClient
pub mod Sandbox
pub mod Corpus
pub mod Repositories
