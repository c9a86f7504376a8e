-- ===== src/Examples/Sandbox.antt =====
-- A customer's request with one file.
use phylax_subnet.Prelude.{◌≡◌, refl, false, String, Option, some, List, [], ◌∷◌, ◌==◌, get}
use phylax_subnet.Prelude.Text.{Text, codes, same}
use phylax_subnet.Number.Fixed.{Fixed, fixed_float}
use phylax_subnet.Value.{Value, str, Fields, field, end, truthy}
use phylax_subnet.Round.{Attempt, done}
use phylax_subnet.Sandbox.{
  pack, pack_files, clean_path, strip_slashes, is_unsafe, split_slashes, encoded_length, is_allowed,
  report, RunRequest, serve, serve_code,
}
use phylax_subnet.Sandbox.Served.{IsRun, serve-report}
use phylax_subnet.Examples.{digest}

abbrev files : List (Text × Text)
files = (codes "/src\\a.py", codes "pass") ∷ []

abbrev cleaned : List (Text × Text)
cleaned = (codes "src/a.py", codes "pass") ∷ []

abbrev agent : Fields Fixed
agent = field "code" (str "def agent_main(): pass") end

abbrev fetch : String → Attempt (Option (Fields Fixed))
fetch hotkey = done (some agent)

abbrev run_task : List (Text × Text) → Fields Fixed → Attempt (Option (Value Fixed))
run_task es fs = done (some (str "report"))

abbrev asked : RunRequest
asked = record { token = "t0ken"; hotkey = "champion"; agent_hash = []; files = files }

served : serve digest fetch run_task "t0ken" asked ≡ report (str "report")
unfolding serve serve_code is_allowed pack pack_files clean_path strip_slashes is_unsafe
    split_slashes encoded_length codes same truthy get
served = refl

serve-report_example :
    (◌≡◌ {A = String} "t0ken" "t0ken")
    × (("t0ken" == "") ≡ false)
    × IsRun digest fetch run_task asked (str "report")
serve-report_example = serve-report digest fetch run_task "t0ken" asked (str "report") served
