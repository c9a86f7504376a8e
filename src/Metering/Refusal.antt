-- ===== src/Metering/Refusal.antt =====
-- What the reading of the meter does to a verdict: `_inference_calls` and `_task_verdict` of
-- neurons/validator.py on the `/metrics` reply of phylax/harness/inference_proxy.py.
use mathlib.Core.Path.{subst, sym, ◌∙◌}
use phylax_subnet.Prelude.{◌≡◌, ap, true, false, String, none, ltb, length, ◌==◌}
use phylax_subnet.Prelude.Text.{Text, codes}
use phylax_subnet.Number.{Float}
use phylax_subnet.Value.{ℤ, pos, Value, returns, returned, by_branch, Conversions}
use phylax_subnet.Proxy.{Metrics}
use phylax_subnet.Metering.{metrics_reply, inference_calls}
use phylax_subnet.Metering.Blind.{inference_calls_blind}
use phylax_subnet.Validator.Verdict.{Item, Ledger, Reps, TaskVerdict, decide}

module _ {F : Type 0} ⦃num : Float F⦄ (conv : Conversions F) (trace_hash : Value F → Text) where
  decide-none :
      (why hotkey : String) (item : Item F) (nonce : Text) (ledger : Ledger F) (reps : Reps F)
      (v : TaskVerdict F)
      → decide conv trace_hash true
          (record { calls = pos 0; failure_reason = why })
          hotkey
          item
          nonce
          ledger
          reps
        ≡ returns v
      → v.decision ≡ none
  unfolding decide
  decide-none why hotkey item nonce ledger reps v h =
      by_branch (ltb 0 (length reps.ordinals))
        (λ k. ap (λ (w : TaskVerdict F). w.decision) (sym (returned _ _ k)))
        (λ k. ap (λ (w : TaskVerdict F). w.decision) (sym (returned _ _ k))) h

  -- Where inference is required and the meter is read from the proxy's reply, no task gets a
  -- verdict, whatever calls the proxy has counted and whatever the repetitions gave. The nonce is
  -- neither empty nor the text "usage".
  pub metered_decide-none :
      (metrics : Metrics) (nonce : String) (calls : ℤ) (why hotkey : String) (item : Item F)
      (ledger : Ledger F) (reps : Reps F) (v : TaskVerdict F)
      → (nonce == "") ≡ false
      → ("usage" == nonce) ≡ false
      → inference_calls conv true (metrics_reply {F = F} metrics nonce) nonce ≡ returns calls
      → decide conv trace_hash true
          (record { calls = calls; failure_reason = why })
          hotkey
          item
          (codes nonce)
          ledger
          reps
        ≡ returns v
      → v.decision ≡ none
  metered_decide-none metrics nonce calls why hotkey item ledger reps v some_nonce other read h =
      let zero_calls : calls ≡ pos 0 =
        returned _ _ (sym read ∙ inference_calls_blind conv metrics nonce some_nonce other) in
      decide-none why hotkey item (codes nonce) ledger reps v (
        subst
          (λ n.
            decide conv trace_hash true (record { calls = n; failure_reason = why }) hotkey item
              (codes nonce) ledger reps
            ≡ returns v)
          zero_calls h)
