-- ===== src/Proof/Trace.antt =====
-- What `verify_validator_trace` of phylax/analysis/proof.py accepts.
use phylax_subnet.Prelude.{
  ◌≡◌, refl, Bool, true, false, ◌&&◌, ◌||◌, none, some, List, [], ◌∷◌, arith, any,
}
use phylax_subnet.Prelude.Text.{Text, codes, same, contains, same→≡}
use phylax_subnet.Number.{Float}
use phylax_subnet.Value.{Value, null, obj, Conversions, text_field}
use phylax_subnet.Proof.{
  ProbeSpec, Seen, net_blob, proc_blob, observe, observe_all, verify_validator_trace,
}

-- A kind is one of the three.
kinds_apart :
    (k : Text)
    → (same k (codes "fs") ≡ true
        → (same k (codes "net") ≡ false) × (same k (codes "proc") ≡ false))
      × (same k (codes "net") ≡ true → same k (codes "proc") ≡ false)
unfolding same codes
kinds_apart k = (
  λ h. let e = same→≡ k (codes "fs") h in rw e (refl, refl),
  λ h. let e = same→≡ k (codes "net") h in rw e refl,
)

module _ {F : Type 0} ⦃num : Float F⦄ (conv : Conversions F) (probe : ProbeSpec) where
  -- The event is an opened file under the probe's path,
  abbrev pub shows_fs : Value F → Bool
  shows_fs (obj e) =
      same (text_field conv e "kind") (codes "fs")
      && contains (text_field conv e "path") probe.file_path
  shows_fs _ = false

  -- a network access that names the probe's host,
  abbrev pub shows_net : Value F → Bool
  shows_net (obj e) =
      same (text_field conv e "kind") (codes "net")
      && contains (net_blob conv probe e) probe.dns_host
  shows_net _ = false

  -- or a process whose command or arguments carry the probe's token.
  abbrev pub shows_proc : Value F → Bool
  shows_proc (obj e) =
      same (text_field conv e "kind") (codes "proc")
      && contains (proc_blob conv probe e) probe.process_echo
  shows_proc _ = false

  record Shows (seen after : Seen) (fs net proc : Bool) : Type 0 where
    fs_or : after.fs ≡ (seen.fs || fs)
    net_or : after.net ≡ (seen.net || net)
    proc_or : after.proc ≡ (seen.proc || proc)

  observe-Shows :
      (seen : Seen) (v : Value F)
      → Shows seen (observe conv probe seen v) (shows_fs v) (shows_net v) (shows_proc v)
  unfolding observe
  observe-Shows seen (obj e) =
      let apart = kinds_apart (text_field conv e "kind") in ground (arith, apart)
  observe-Shows seen null = ground arith
  observe-Shows seen _ = ground arith

  observe_all-Shows :
      (es : List (Value F)) (seen : Seen)
      → Shows seen
          (observe_all conv probe seen es)
          (any shows_fs es)
          (any shows_net es)
          (any shows_proc es)
  unfolding observe_all
  observe_all-Shows [] seen = ground arith
  observe_all-Shows (e ∷ es) seen =
      let first = observe-Shows seen e in
      let rest = observe_all-Shows es (observe conv probe seen e) in ground arith

  -- The proof passes exactly when the recorded trace has an event of each of the three kinds with
  -- the probe's effect, in any order and with any other events between; an absent or empty trace
  -- fails.
  pub verify_validator_trace_exact :
      (es : List (Value F))
      → ((verify_validator_trace conv probe (some es)).passed
          ≡ (any shows_fs es && any shows_net es && any shows_proc es))
        × ((verify_validator_trace conv probe none).passed ≡ false)
  unfolding verify_validator_trace
  verify_validator_trace_exact [] = (refl, refl)
  verify_validator_trace_exact (e ∷ es) =
      let shown = observe_all-Shows (e ∷ es) (record { fs = false; net = false; proc = false }) in
      (ground arith, refl)
