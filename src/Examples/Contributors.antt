-- ===== src/Examples/Contributors.antt =====
-- Two contributors, published and read back.
use phylax_subnet.Prelude.{◌≡◌, refl, Option, none, some, List, [], ◌∷◌}
use phylax_subnet.Prelude.Text.{Text, codes, strip, starts_with, same}
use phylax_subnet.Emission.Sort.{sort, text_lt, insert}
use phylax_subnet.Screening.{splitlines}
use phylax_subnet.Contributors.{parse_contributors, payload, load_hotkeys, ordered}
use phylax_subnet.Contributors.Roundtrip.{parse_contributors-payload}

abbrev no_json : Text → Option (List Text)
no_json s = none

abbrev keys : List Text
keys = (98 ∷ 50 ∷ []) ∷ (97 ∷ 49 ∷ []) ∷ []

loaded : load_hotkeys (some (codes " b2\n# none\n\nb2\n")) (codes "a1" ∷ []) ≡ keys
unfolding load_hotkeys ordered splitlines strip starts_with same codes
loaded = refl

sorted : sort text_lt keys ≡ (97 ∷ 49 ∷ []) ∷ (98 ∷ 50 ∷ []) ∷ []
unfolding sort insert text_lt
sorted = refl

parse_contributors-payload_example : parse_contributors no_json (payload keys) ≡ sort text_lt keys
parse_contributors-payload_example =
    parse_contributors-payload no_json keys
      ((refl, (refl, (refl, tt))), ((refl, (refl, (refl, tt))), tt))
