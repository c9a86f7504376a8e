-- ===== src/Executor/Words.antt =====
-- Strings that phylax/harness/executor.py takes apart: `str.split`, `str.splitlines` and the tails
-- of what docker prints. White space and the ends of lines are those of ASCII.
use Prim.Native.Char.{code, Char}
use phylax_subnet.Prelude.{
  ℕ, zero, suc, ◌+◌, ◌-◌, Bool, true, false, ◌&&◌, String, Option, none, some, List, [], ◌∷◌, ◌=ℕ◌,
  ◌==◌, if◌then◌else◌,
}
use phylax_subnet.Prelude.Text.{is_space, concat, codes, starts_with}
use phylax_subnet.Number.{Float}
use phylax_subnet.Value.{ℤ, pos, negsuc, Conversions}
use phylax_subnet.Screening.{is_line_end}

unfoldable pub string_length : String → ℕ
string_length String.[] = 0
string_length (String.◌∷◌ c s) = string_length s + 1

-- s[n:]
unfoldable pub drop_string : ℕ → String → String
drop_string zero s = s
drop_string (suc n) String.[] = ""
drop_string (suc n) (String.◌∷◌ c s) = drop_string n s

-- s[-n:] of an n above 0
unfoldable pub last_string : ℕ → String → String
last_string n s = drop_string (string_length s - n) s

abbrev pub add_first : Char → List String → List String
add_first c [] = String.◌∷◌ c "" ∷ []
add_first c (s ∷ ss) = String.◌∷◌ c s ∷ ss

-- s.splitlines(), where "\r\n" is one end
unfoldable pub lines_of : String → List String
lines_of String.[] = []
lines_of (String.◌∷◌ c String.[]) = if is_line_end (code c) then "" ∷ [] else String.◌∷◌ c "" ∷ []
lines_of (String.◌∷◌ c (String.◌∷◌ d s)) =
    let rest = lines_of (String.◌∷◌ d s) in
    let after = lines_of s in
    if code c =ℕ 13 && code d =ℕ 10
    then "" ∷ after
    else if is_line_end (code c)
    then "" ∷ rest
    else add_first c rest

abbrev pub add_nonempty : String → List String → List String
add_nonempty w ws = if w == "" then ws else w ∷ ws

-- The word that a string begins with, and those after it.
unfoldable pub split_spaces : String → String × List String
split_spaces String.[] = ("", [])
split_spaces (String.◌∷◌ c s) =
    let (w, ws) = split_spaces s in
    if is_space (code c) then ("", add_nonempty w ws) else (String.◌∷◌ c w, ws)

-- s.split()
unfoldable pub words_of : String → List String
words_of s = let (w, ws) = split_spaces s in add_nonempty w ws

-- s.split(c, 1)[0]
unfoldable pub before_first : ℕ → String → String
before_first n String.[] = ""
before_first n (String.◌∷◌ c s) =
    let rest = before_first n s in if code c =ℕ n then "" else String.◌∷◌ c rest

-- c in s
unfoldable pub has_char : ℕ → String → Bool
has_char n String.[] = false
has_char n (String.◌∷◌ c s) = let rest = has_char n s in if code c =ℕ n then true else rest

-- s.rsplit(c, 1)[-1]
unfoldable pub after_last : ℕ → String → String
after_last n String.[] = ""
after_last n (String.◌∷◌ c s) =
    let rest = after_last n s in
    if has_char n s then rest else if code c =ℕ n then s else String.◌∷◌ c s

-- s.rsplit(c, 1)[0]
unfoldable pub before_last : ℕ → String → String
before_last n String.[] = ""
before_last n (String.◌∷◌ c s) =
    let rest = before_last n s in
    if has_char n s then String.◌∷◌ c rest else if code c =ℕ n then "" else String.◌∷◌ c s

-- `_pin`
unfoldable pub pin : String → String → String
pin image digest =
    let base = before_first b'@' image in
    let untagged = if has_char b':' (after_last b'/' base) then before_last b':' base else base in
    if digest == "" then image else concat untagged (concat "@" digest)

module _ {F : Type 0} ⦃num : Float F⦄ (conv : Conversions F) where
  open num use {lit, sub}

  -- n / 1_000_000
  abbrev pub millionths : ℤ → F
  millionths (pos n) = num.lit n 1000000
  millionths (negsuc n) = num.sub (num.lit 0 1) (num.lit (n + 1) 1000000)

  abbrev pub second_int : List String → Option F
  second_int (w ∷ v ∷ ws) = elim (conv.int_of_str v) [ none ↦ none | some n ↦ some (millionths n) ]
  second_int _ = none

  -- The loop of `_cpu_seconds` over the lines.
  unfoldable pub usage_of : List String → Option F
  usage_of [] = none
  usage_of (line ∷ lines) =
      let rest = usage_of lines in
      if starts_with (codes line) (codes "usage_usec") then second_int (words_of line) else rest
