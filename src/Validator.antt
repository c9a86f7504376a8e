-- ===== src/Validator.antt =====
-- The verdict of an agent on one repetition: `_run_rep` and `_note_rejection` of
-- neurons/validator.py. An exception leaves the loop, and the counters of the log with it.

pub mod Median
pub mod Score
pub mod Audit
pub mod Verdict
pub mod Verified
use phylax_subnet.Prelude.{
  ℕ, zero, suc, ◌+◌, ◌-◌, ◌/◌, Bool, true, false, not, ◌&&◌, String, Option, none, some, List, [],
  ◌∷◌, ◌++◌, if◌then◌else◌, Dict, get, put, take, length, ltb, ◌==◌,
}
use phylax_subnet.Prelude.Text.{Text, codes, same, upper}
use phylax_subnet.Number.{Float, nought}
use phylax_subnet.Value.{
  ℤ, pos, Value, bool, obj, Fields, end, arr, nil, entries, is_dict, truthy, or_else, iterate,
  Outcome, returns, raises, ◌>>=◌, Conversions, lookup, or_raise, text_field,
}
use phylax_subnet.Proof.{ProbeSpec, derive_probe, verify_validator_trace}
use phylax_subnet.Tracks.{evaluate}
use phylax_subnet.Emission.Sort.{sort}

-- _VERDICT_ORDINAL
unfoldable pub ordinal_of : Text → Option ℕ
ordinal_of decision =
    if same decision (codes "ALLOW")
    then some 0
    else if same decision (codes "WARN")
    then some 1
    else if same decision (codes "BLOCK")
    then some 2
    else none

-- _ORDINAL_VERDICT
unfoldable pub verdict_of : ℕ → String
verdict_of zero = "ALLOW"
verdict_of (suc zero) = "WARN"
verdict_of (suc (suc n)) = "BLOCK"

abbrev pub Rejections : Type 0
Rejections = List (Text × ℕ)

unfoldable pub note_rejection : Text → Rejections → Rejections
note_rejection why [] = (why, 1) ∷ []
note_rejection why ((text, n) ∷ rest) =
    let noted = note_rejection why rest in
    if same text why then (text, n + 1) ∷ rest else (text, n) ∷ noted

module _ {F : Type 0} ⦃num : Float F⦄ where
  open num use {add, sub, le}

  -- v is False
  abbrev pub is_false : Value F → Bool
  is_false (bool b) = not b
  is_false v = false

  -- v[k] of a dict
  abbrev pub fields_of : Value F → Outcome (Fields F)
  fields_of (obj fs) = returns fs
  fields_of v = raises

  unfoldable pub index : Value F → String → Outcome (Value F)
  index v k = do fs ← fields_of v; or_raise (get (entries fs) k)

  -- The fields of a dict, none of any other value.
  abbrev pub dict_or_empty : Value F → Fields F
  dict_or_empty (obj fs) = fs
  dict_or_empty v = end

  -- A trace that is absent or empty is none.
  abbrev pub trace_of : Value F → Outcome (Option (List (Value F)))
  trace_of v = if truthy v then (do es ← iterate v; returns (some es)) else returns none

  module _ (conv : Conversions F) (trace_hash : Value F → Text) where
    -- The rest of `_run_rep` once the trace is verified.
    unfoldable pub judge : String → Option String → ProbeSpec → Value F → Outcome (Option ℕ)
    judge track label probe result = do
      verdict ← index result "verdict"
      elim (ordinal_of (upper (text_field conv (dict_or_empty verdict) "decision"))) [
        | none ↦ returns none
        | some ordinal ↦ do
          evidence ← index result "evidence"
          ev ← evaluate conv trace_hash probe track evidence (verdict_of ordinal) label
          returns (if ev.result.gate_passed then some ordinal else none)
      ]

    unfoldable pub run_rep :
        String
        → Option String
        → ProbeSpec
        → Option (Value F)
        → Rejections
        → Outcome (Option ℕ × Rejections)
    run_rep track label probe none rejections =
        returns (none, note_rejection (codes "run produced no result") rejections)
    run_rep track label probe (some result) rejections = do
      file ← lookup result "observed_probe_file"
      if is_false file
          then (do
            fs ← fields_of result
            returns (
              none,
              note_rejection
                  (codes "probe file not observed (error="
                    ++ take 120 (text_field conv fs "error")
                    ++ codes ")")
                  rejections,
            ))
          else (do
            trace ← lookup result "validator_trace"
            events ← trace_of trace
            let poe = verify_validator_trace conv probe events
            if not poe.passed
                then returns (
                  none,
                  note_rejection (codes "trace verification failed: " ++ poe.reason) rejections,
                )
                else (do ordinal ← judge track label probe result; returns (ordinal, rejections)))
