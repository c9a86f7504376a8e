-- ===== src/Runner/Reports.antt =====
-- The reports of failed runs: the end of `run_task` of phylax/harness/runner.py.
use phylax_subnet.Prelude.{◌≡◌, refl, true, String, Bool-cases, inl, inr, ◌==◌, eq_iff, arith, get}
use phylax_subnet.Prelude.Text.{codes}
use phylax_subnet.Number.{Float}
use phylax_subnet.Value.{str, truthy, or_else, to_string, Conversions}
use phylax_subnet.Round.{abstains}
use phylax_subnet.Runner.{is_infra_error, failed, read_report}

module _ {F : Type 0} ⦃num : Float F⦄ (conv : Conversions F) where
  -- A report with a failure's text, whatever follows it.
  pub or_else-str : (s : String) → to_string conv (or_else (str s) (str "")) ≡ s
  unfolding or_else truthy to_string
  or_else-str s = elim (Bool-cases (s == "")) [
    | inl e ↦ rw e (ground (arith, eq_iff s ""))
    | inr e ↦ rw e refl
  ]

  pub read_report-failed :
      (error : String)
      → is_infra_error (codes error) ≡ true
      → read_report conv (failed error) ≡ abstains
  unfolding read_report truthy get
  read_report-failed error h = rw (or_else-str error, h) refl
