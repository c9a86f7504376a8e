-- ===== src/Metering.antt =====
-- The meter of inference calls: `do_GET` in
-- phylax/harness/inference_proxy.py, and `_inference_calls` and `_inference_failure_reason`, which
-- read it, in neurons/validator.py. The reply crosses HTTP as JSON.
pub mod Refusal
pub mod Blind
use phylax_subnet.Prelude.{
  ℕ, Bool, true, false, not, String, Option, none, some, List, [], ◌∷◌, ◌==◌, if◌then◌else◌, Dict,
  get, ltb,
}
use phylax_subnet.Number.{Float}
use phylax_subnet.Proxy.{
  Usage, Metrics, Proxy, Settings, Request, Reply, health, json, error, counter, admin_refusal,
}
use phylax_subnet.Value.{
  ℤ, pos, negsuc, Value, int, str, obj, Fields, end, field, is_dict, lookup, truthy, or_else,
  to_int, Outcome, returns, raises, ◌>>=◌, Conversions,
}

abbrev pub is_positive : ℤ → Bool
is_positive (pos n) = ltb 0 n
is_positive (negsuc n) = false

module _ {F : Type 0} where
  -- One more counter, if the row has it.
  abbrev pub counted : String → Option ℕ → Fields F → Fields F
  counted k none rest = rest
  counted k (some n) rest = field k (int (pos n)) rest

  abbrev pub row_fields : Usage → Fields F
  row_fields row = field "requests" (int (pos row.requests)) (
      field "input_tokens" (int row.input_tokens) (
        field "output_tokens" (int row.output_tokens) (
          counted "upstream_errors" row.upstream_errors (
            counted "key_failures" row.key_failures
              (counted "last_upstream_status" row.last_upstream_status end)))))

  abbrev pub all_fields : Metrics → Fields F
  all_fields [] = end
  all_fields ((k, row) ∷ rows) = field k (obj (row_fields row)) (all_fields rows)

  -- _METRICS.get(nonce, {})
  abbrev pub fields_at : Metrics → String → Fields F
  fields_at metrics nonce = elim (get metrics nonce) [ none ↦ end | some row ↦ row_fields row ]

  unfoldable pub metrics_reply : Metrics → String → Value F
  metrics_reply metrics nonce =
      if nonce == ""
      then obj (field "usage" (obj (all_fields metrics)) end)
      else obj (field "nonce" (str nonce) (field "usage" (obj (fields_at metrics nonce)) end))

module _ {F : Type 0} ⦃num : Float F⦄ (conv : Conversions F) where
  -- int(v), with -1 for a TypeError or a ValueError
  abbrev pub int_or_unread : Value F → ℤ
  int_or_unread v = elim (to_int conv v) [ returns n ↦ n | raises ↦ negsuc 0 ]

  unfoldable pub inference_calls : Bool → Value F → String → Outcome ℤ
  inference_calls has_token metrics nonce =
      if not has_token
      then returns (negsuc 0)
      else if not (truthy metrics)
      then returns (negsuc 0)
      else (do
        found ← lookup metrics nonce
        let row = if is_dict found then found else metrics
        requests ← lookup (or_else row (obj end)) "requests"
        returns (int_or_unread (or_else requests (int (pos 0)))))

  unfoldable pub inference_failure_reason : Value F → Outcome String
  inference_failure_reason metrics = do
    usage ← lookup (or_else metrics (obj end)) "usage"
    let row = or_else usage (obj end)
    key_failures ← counter conv row "key_failures"
    if is_positive key_failures then returns "inference_key_failed" else (do
      upstream_errors ← counter conv row "upstream_errors"
      returns (if is_positive upstream_errors then "inference_upstream_error" else "no_inference"))

  -- `do_GET`
  unfoldable pub do_get : Settings → Bool → Proxy → Request F → Reply F
  do_get settings admin_surface p r =
      if r.path == "/healthz"
      then health
      else if r.path == "/metrics"
      then elim (admin_refusal settings admin_surface r) [
        | some page ↦ page
        | none ↦ json 200 (metrics_reply p.metrics r.query_nonce)
      ]
      else error 404 ""
