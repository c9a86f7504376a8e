-- ===== src/Proof.antt =====
-- The proof of execution: phylax/analysis/proof.py.
pub mod Evidence
pub mod Trace
use mathlib.Core.List.{reverse}
use phylax_subnet.Prelude.{
  ℕ, ◌-◌, ◌≡◌, Bool, true, false, not, ◌&&◌, ◌||◌, String, Option, none, some, List, [], ◌∷◌, ◌++◌,
  ◌==◌, if◌then◌else◌, Dict, get, take, drop, ◌=ℕ◌,
}
use phylax_subnet.Prelude.Text.{Text, codes, same, contains, starts_with, lower}
use phylax_subnet.Number.{Float}
use phylax_subnet.Value.{
  ℤ, pos, Value, null, str, arr, obj, Items, Fields, Outcome, returns, raises, ◌>>=◌, ◌>>◌,
  Conversions, text_field,
}

pub record ProbeSpec : Type 0 where
  pub nonce : Text
  pub canary : Text
  pub file_path : Text
  pub file_content : Text
  pub dns_host : Text
  pub process_echo : Text

pub record ProofResult : Type 0 where
  pub passed : Bool
  pub reason : Text

abbrev pub proved : ProofResult
proved = record { passed = true; reason = [] }

abbrev pub refused : Text → ProofResult
refused why = record { passed = false; reason = why }

-- seed[a:b]
abbrev pub slice : ℕ → ℕ → Text → Text
slice a b s = take (b - a) (drop a s)

-- `sha256` is `hashlib.sha256(s.encode()).hexdigest()`.
unfoldable pub derive_probe : (Text → Text) → Text → ProbeSpec
derive_probe sha256 nonce =
    let seed = sha256 nonce in
    record {
      nonce = nonce;
      canary = slice 24 56 seed;
      file_path = codes "/task/workspace/.probe_" ++ take 16 seed;
      file_content = slice 16 48 seed;
      dns_host = take 8 seed ++ codes ".probe.phylax.ai";
      process_echo = slice 8 24 seed;
    }

abbrev pub expected_probe_evidence : ProbeSpec → Dict Text
expected_probe_evidence p =
    ("file_write", p.file_path)
    ∷ ("dns_lookup", p.dns_host)
    ∷ ("process_echo", p.process_echo)
    ∷ ("canary", p.canary)
    ∷ []

-- What the trace has shown so far.
pub record Seen : Type 0 where
  pub fs : Bool
  pub net : Bool
  pub proc : Bool

module _ {F : Type 0} ⦃num : Float F⦄ (conv : Conversions F) (probe : ProbeSpec) where
  -- The texts that an f-string joins by spaces.
  abbrev pub spaced : Text → Text → Text
  spaced s t = s ++ codes " " ++ t

  -- The text in which a network event names its host, and a process event its command.
  abbrev pub net_blob : Fields F → Text
  net_blob e =
      spaced (text_field conv e "host")
        (spaced (text_field conv e "url") (text_field conv e "peer"))

  abbrev pub proc_blob : Fields F → Text
  proc_blob e = spaced (text_field conv e "cmd") (text_field conv e "args")

  -- The body of the loop of `verify_validator_trace`.
  unfoldable pub observe : Seen → Value F → Seen
  observe seen (obj e) =
      let kind = text_field conv e "kind" in
      if same kind (codes "fs") && contains (text_field conv e "path") probe.file_path
      then record seen { fs = true }
      else if same kind (codes "net")
      then (if contains (net_blob e) probe.dns_host then record seen { net = true } else seen)
      else if same kind (codes "proc")
      then (if contains (proc_blob e) probe.process_echo then record seen { proc = true } else seen)
      else seen
  observe seen _ = seen

  unfoldable pub observe_all : Seen → List (Value F) → Seen
  observe_all seen [] = seen
  observe_all seen (e ∷ es) = observe_all (observe seen e) es

  unfoldable pub verify_validator_trace : Option (List (Value F)) → ProofResult
  verify_validator_trace none = refused (codes "validator trace empty")
  verify_validator_trace (some []) = refused (codes "validator trace empty")
  verify_validator_trace (some (e ∷ es)) =
      let seen = observe_all (record { fs = false; net = false; proc = false }) (e ∷ es) in
      if not seen.fs
      then refused (codes "probe file write absent from validator trace")
      else if not seen.net
      then refused (codes "probe dns lookup absent from validator trace")
      else if not seen.proc
      then refused (codes "probe process echo absent from validator trace")
      else proved
