-- ===== src/Validator/Verdict.antt =====
-- The verdict of an agent on one task: `_task_verdict` of neurons/validator.py. `run` is one call of
-- `run_task`, which runs the agent in its container, with the seconds that the clock measured;
-- `inference` is what the inference proxy reports for a nonce.
use phylax_subnet.Prelude.{
  ℕ, zero, suc, ◌+◌, ◌-◌, ◌/◌, Bool, true, false, ◌&&◌, String, Option, none, some, List, [], ◌∷◌,
  ◌++◌, if◌then◌else◌, Dict, put, length, ltb, ◌==◌,
}
use phylax_subnet.Prelude.Text.{Text, codes}
use phylax_subnet.Number.{Float, nought}
use phylax_subnet.Value.{
  ℤ, pos, Value, arr, nil, or_else, Outcome, returns, ◌>>=◌, Conversions, lookup,
}
use phylax_subnet.Proof.{ProbeSpec, derive_probe}
use phylax_subnet.Emission.Sort.{sort}
use phylax_subnet.Rounds.{task_nonce}
use phylax_subnet.Validator.{Rejections, note_rejection, verdict_of, run_rep}

-- The middle of the sorted ordinals, the lower one of two.
abbrev pub at_index : List ℕ → ℕ → ℕ
at_index [] n = 0
at_index (x ∷ xs) zero = x
at_index (x ∷ xs) (suc n) = at_index xs n

unfoldable pub median : List ℕ → ℕ
median ordinals = at_index (sort ltb ordinals) ((length ordinals - 1) / 2)

-- One task as the round serves it. `observed` is the list of capabilities in the validator's own
-- trace of the artifact.
pub record Item (F : Type 0) : Type 0 where
  pub ref : Text
  pub label : Option String
  pub expected_findings : Value F
  pub observed : Value F

-- What is published of one task: the arguments of `_attest`.
pub record Attestation (F : Type 0) : Type 0 where
  pub hotkey : String
  pub ref : Text
  pub nonce : Text
  pub result : Value F
  pub rejected : Option String

-- What the proxy reports of a nonce; -1 calls are a meter that cannot be read.
pub record Inference : Type 0 where
  pub calls : ℤ
  pub failure_reason : String

pub record Ledger (F : Type 0) : Type 0 where
  pub rejections : Rejections
  pub failure_reasons : Dict String
  pub attestations : List (Attestation F)

-- The state of the loop over the repetitions.
pub record Reps (F : Type 0) : Type 0 where
  pub wall_used : F
  pub ordinals : List ℕ
  pub last_result : Option (Value F)
  pub rejections : Rejections

pub record TaskVerdict (F : Type 0) : Type 0 where
  pub decision : Option String
  pub wall_used : F
  pub findings : Value F
  pub ledger : Ledger F

module _ {F : Type 0} ⦃num : Float F⦄ where
  open num use {add, sub, le}

  module _ (conv : Conversions F) (trace_hash : Value F → Text) where
    -- The state after a repetition that took `elapsed` seconds.
    abbrev pub record_rep : Reps F → Option (Value F) → F → Option ℕ × Rejections → Reps F
    record_rep reps ran elapsed (none, rejections) = record reps {
      wall_used = add reps.wall_used elapsed;
      rejections = rejections;
    }
    record_rep reps ran elapsed (some ordinal, rejections) = record {
      wall_used = add reps.wall_used elapsed;
      ordinals = reps.ordinals ++ (ordinal ∷ []);
      last_result = ran;
      rejections = rejections;
    }

    -- The loop over the repetitions left, from the repetition `i`.
    unfoldable pub run_reps :
        String
        → Option String
        → ProbeSpec
        → (ℕ → F → Outcome (Option (Value F) × F))
        → F
        → ℕ
        → ℕ
        → Reps F
        → Outcome (Reps F)
    run_reps track label probe run wall_cap i zero reps = returns reps
    run_reps track label probe run wall_cap i (suc n) reps =
        let remaining = sub wall_cap reps.wall_used in
        if le remaining nought then returns reps else (do
          (ran, elapsed) ← run i remaining
          outcome ← run_rep conv trace_hash track label probe ran reps.rejections
          run_reps track label probe run wall_cap (i + 1) n (record_rep reps ran elapsed outcome))

    -- The attestation of the last result, if there is one.
    abbrev pub attest :
        List (Attestation F)
        → String
        → Text
        → Text
        → Option (Value F)
        → Option String
        → List (Attestation F)
    attest published hotkey ref nonce none rejected = published
    attest published hotkey ref nonce (some result) rejected =
        published
        ++ (record {
          hotkey = hotkey;
          ref = ref;
          nonce = nonce;
          result = result;
          rejected = rejected;
        }
            ∷ [])

    -- last_result.get("findings") or []
    unfoldable pub findings_of : Option (Value F) → Outcome (Value F)
    findings_of none = returns (arr nil)
    findings_of (some result) = do
      found ← lookup result "findings"
      returns (or_else found (arr nil))

    abbrev pub is_zero : ℤ → Bool
    is_zero (pos zero) = true
    is_zero _ = false

    abbrev pub rejection_of : String → Text
    rejection_of reason =
        if reason == "inference_key_failed"
        then codes "inference key rejected upstream"
        else codes "no inference call"

    -- The end of `_task_verdict`, from what the repetitions left.
    unfoldable pub decide :
        Bool → Inference → String → Item F → Text → Ledger F → Reps F → Outcome (TaskVerdict F)
    decide require_inference inference hotkey item nonce ledger reps =
        if ltb 0 (length reps.ordinals)
        then (if require_inference && is_zero inference.calls
            then returns record {
              decision = none;
              wall_used = reps.wall_used;
              findings = arr nil;
              ledger = record {
                rejections = note_rejection (rejection_of inference.failure_reason) reps.rejections;
                failure_reasons = put ledger.failure_reasons hotkey inference.failure_reason;
                attestations =
                    attest ledger.attestations hotkey item.ref nonce reps.last_result
                      (some inference.failure_reason);
              };
            }
            else (do
              findings ← findings_of reps.last_result
              returns record {
                decision = some (verdict_of (median reps.ordinals));
                wall_used = reps.wall_used;
                findings = findings;
                ledger = record {
                  rejections = reps.rejections;
                  failure_reasons = ledger.failure_reasons;
                  attestations =
                      attest ledger.attestations hotkey item.ref nonce reps.last_result none;
                };
              }))
        else returns record {
          decision = none;
          wall_used = reps.wall_used;
          findings = arr nil;
          ledger = record ledger { rejections = reps.rejections };
        }

    unfoldable pub task_verdict :
        (Text → Text)
        → Bool
        → (Text → Inference)
        → (Text → ProbeSpec → ℕ → F → Outcome (Option (Value F) × F))
        → String
        → String
        → Item F
        → Text
        → ℕ
        → F
        → F
        → Ledger F
        → Outcome (TaskVerdict F)
    task_verdict sha256 require_inference inference run track hotkey item seed repetitions wall_used
          wall_cap ledger =
        let nonce = task_nonce sha256 seed item.ref (codes hotkey) in
        let probe = derive_probe sha256 nonce in
        let start : Reps F = record {
          wall_used = wall_used;
          ordinals = [];
          last_result = none;
          rejections = ledger.rejections;
        } in
        (do
          reps ← run_reps track item.label probe (run nonce probe) wall_cap 0 repetitions start
          decide require_inference (inference nonce) hotkey item nonce ledger reps)
