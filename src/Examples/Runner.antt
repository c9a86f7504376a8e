-- ===== src/Examples/Runner.antt =====
-- An agent that raises, and an artifact with a member that leads out of its directory.
use phylax_subnet.Prelude.{
  ◌≡◌, refl, true, String, Option, some, List, [], ◌∷◌, ◌++◌, ◌==◌, if◌then◌else◌, ℕ,
}
use phylax_subnet.Prelude.Text.{codes, starts_with}
use phylax_subnet.Number.Fixed.{Fixed, fixed_float}
use phylax_subnet.Value.{arr, nil}
use phylax_subnet.Round.{done, abstains}
use phylax_subnet.Runner.{
  is_infra_error, raised, agent_report, container_result, report_dict, read_report, Member, Zip,
  wrote, bad_member, Dispatch, materialise, extract_into, extract_members, is_under,
}
use phylax_subnet.Runner.Forged.{raised-abstains}
use phylax_subnet.Examples.{plain}

abbrev message : String
message = "image pull failed: no"

looks_like_infra : is_infra_error (codes message) ≡ true
unfolding is_infra_error starts_with codes
looks_like_infra = refl

raised-abstains_example :
    read_report plain (
      container_result {F = Fixed}
        (report_dict (agent_report (raised message "Traceback")))
        (arr nil))
    ≡ abstains
raised-abstains_example = raised-abstains plain message "Traceback" (arr nil) looks_like_infra

abbrev inside : Member
inside = record { filename = "a.py"; file_size = 10 }

abbrev outside : Member
outside = record { filename = "../b.py"; file_size = 10 }

abbrev damaged : Member
damaged = record { filename = "c.py"; file_size = 10 }

abbrev root : List String
root = "run" ∷ "artifact" ∷ []

-- An archive of the three, of which the second leads out and the third is damaged.
abbrev zip : Zip
zip = record {
  infolist = λ bytes. some (inside ∷ outside ∷ damaged ∷ []);
  target = λ here name. if name == "../b.py" then "run" ∷ "b.py" ∷ [] else here ++ (name ∷ []);
  extract = λ here m.
      if m.filename == "c.py" then bad_member [] else wrote ((here ++ (m.filename ∷ [])) ∷ []);
}

abbrev fetched : String → Option (List ℕ)
fetched s = some (80 ∷ 75 ∷ [])

abbrev task_artifact : Dispatch
task_artifact = record { artifact_b64 = "UEs="; artifact_url = "" }

extracted :
    materialise fetched fetched zip root task_artifact
    ≡ done (record {
      places = ("run" ∷ "artifact" ∷ "a.py" ∷ []) ∷ [];
      artifact_bin = some (80 ∷ 75 ∷ []);
    })
unfolding materialise extract_into extract_members is_under
extracted = refl
