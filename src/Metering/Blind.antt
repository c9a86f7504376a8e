-- ===== src/Metering/Blind.antt =====
-- What the validator reads in the proxy's reply: `_inference_calls` of neurons/validator.py on the
-- `/metrics` reply of phylax/harness/inference_proxy.py.
use phylax_subnet.Prelude.{◌≡◌, refl, true, false, String, ◌==◌, Bool-cases, inl, inr, ◌⊎◌, get}
use phylax_subnet.Number.{Float}
use phylax_subnet.Value.{
  Value, obj, str, null, field, end, pos, lookup, truthy, or_else, to_int, returns, Conversions,
}
use phylax_subnet.Proxy.{Metrics}
use phylax_subnet.Metering.{fields_at, metrics_reply, inference_calls}

module _ {F : Type 0} where
  -- The reply on one nonce, with its row under "usage".
  abbrev reply : String → Value F → Value F
  reply nonce row = obj (field "nonce" (str nonce) (field "usage" row end))

  metrics_reply-reply :
      (metrics : Metrics) (nonce : String)
      → (nonce == "") ≡ false
      → metrics_reply metrics nonce ≡ reply nonce (obj (fields_at metrics nonce))
  unfolding metrics_reply
  metrics_reply-reply metrics nonce e = rw e refl

  lookup-reply :
      (nonce : String) (row : Value F)
      → ("usage" == nonce) ≡ false
      → (lookup (reply nonce row) nonce ≡ returns (str nonce))
        ⊎ (lookup (reply nonce row) nonce ≡ returns null)
  unfolding lookup get
  lookup-reply nonce row other = elim (Bool-cases ("nonce" == nonce)) [
    | inl e ↦ inl (rw (lookup, e) refl)
    | inr e ↦ inr (rw (lookup, e, other) refl)
  ]

  lookup-requests :
      (nonce : String) (row : Value F) → lookup (reply nonce row) "requests" ≡ returns null
  unfolding lookup get
  lookup-requests nonce row = refl

module _ {F : Type 0} ⦃num : Float F⦄ (conv : Conversions F) where
  reply-blind :
      (nonce : String) (row : Value F)
      → ("usage" == nonce) ≡ false
      → inference_calls conv true (reply nonce row) nonce ≡ returns (pos 0)
  unfolding inference_calls truthy or_else to_int
  reply-blind nonce row other = elim (lookup-reply nonce row other) [
    | inl e ↦ rw (e, lookup-requests nonce row) refl
    | inr e ↦ rw (e, lookup-requests nonce row) refl
  ]

  -- Whatever the proxy has counted for a nonce, the validator reads 0 calls in its reply, as the
  -- counters stand one level below where it looks. The nonce is neither empty nor the text "usage".
  pub inference_calls_blind :
      (metrics : Metrics) (nonce : String)
      → (nonce == "") ≡ false
      → ("usage" == nonce) ≡ false
      → inference_calls conv true (metrics_reply {F = F} metrics nonce) nonce ≡ returns (pos 0)
  inference_calls_blind metrics nonce some_nonce other =
      rw (metrics_reply-reply {F = F} metrics nonce some_nonce)
        (reply-blind nonce (obj (fields_at metrics nonce)) other)
