-- ===== src/Runner/Forged.antt =====
-- What the agent can do to its run by the text of an exception: `run_task` of
-- phylax/harness/runner.py.
use phylax_subnet.Prelude.{
  get, ℕ, zero, suc, ◌≤◌, ◌≡◌, refl, true, String, List, [], ◌∷◌, arith, length, any, All,
}
use phylax_subnet.Prelude.Text.{Text, codes, starts_with}
use phylax_subnet.Number.{Float}
use phylax_subnet.Value.{Value, truthy, Conversions}
use phylax_subnet.Round.{abstains}
use phylax_subnet.Runner.Reports.{or_else-str}
use phylax_subnet.Runner.{
  is_infra_error, infra_errors, take_string, raised, agent_report, with_trace, container_result,
  report_dict, read_report,
}

-- A prefix that is not longer than the cut is one of the cut text.
starts_with-take_string :
    (n : ℕ) (s : String) (p : Text)
    → length p ≤ n
    → starts_with (codes s) p ≡ true
    → starts_with (codes (take_string n s)) p ≡ true
unfolding starts_with codes take_string
starts_with-take_string n s [] h k = refl
starts_with-take_string zero s (c ∷ p) h k = ground arith
starts_with-take_string (suc n) String.[] (c ∷ p) h k = cc
starts_with-take_string (suc n) (String.◌∷◌ d s) (c ∷ p) h k =
    ground (arith, starts_with-take_string n s p)

any-take_string :
    (n : ℕ) (s : String) (ps : List String)
    → All (λ (p : String). length (codes p) ≤ n) ps
    → any (λ (p : String). starts_with (codes s) (codes p)) ps ≡ true
    → any (λ (p : String). starts_with (codes (take_string n s)) (codes p)) ps ≡ true
any-take_string n s [] b h = h
any-take_string n s (p ∷ ps) (l, b) h =
    ground (arith, starts_with-take_string n s (codes p) l, any-take_string n s ps b)

infra_errors-IsShort : All (λ (p : String). length (codes p) ≤ 400) infra_errors
unfolding codes
infra_errors-IsShort = (omega arith, (omega arith, (omega arith, (omega arith, (omega arith, tt)))))

is_infra_error-take_string :
    (s : String)
    → is_infra_error (codes s) ≡ true
    → is_infra_error (codes (take_string 400 s)) ≡ true
unfolding is_infra_error
is_infra_error-take_string s h = any-take_string 400 s infra_errors infra_errors-IsShort h

module _ {F : Type 0} ⦃num : Float F⦄ (conv : Conversions F) where
  -- An agent that raises an exception whose text begins like one of the errors of the
  -- infrastructure has its run taken for a failure of the infrastructure, whatever the events.
  pub raised-abstains :
      (s trace : String) (events : Value F)
      → is_infra_error (codes s) ≡ true
      → read_report conv (container_result (report_dict (agent_report (raised s trace))) events)
        ≡ abstains
  unfolding read_report container_result with_trace agent_report truthy get
  raised-abstains s trace events h =
      rw (or_else-str conv (take_string 400 s), is_infra_error-take_string s h) refl
