-- ===== src/Prelude/Text.antt =====
-- Text that the program walks character by character: the code points of a `str`. Lower-casing and
-- white space are those of ASCII.
use Prim.Native.Char.{code}
use Prim.Native.Nat.{ℕ, ◌+◌, ◌-◌}
use Prim.Native.String.{String, ◌++◌ as str_append}
use mathlib.Core.Option.{Option, none, some}
use Prim.Native.Char.{Char}
use mathlib.Core.Path.{◌≡◌, refl}
use native.Mathlib.Omega.{arith}
use mathlib.Core.Bool.{Bool, true, false, ◌&&◌, ◌||◌}
use mathlib.Core.List.{List, [], ◌∷◌, ◌++◌, reverse, reverse-cons, reverse-reverse}
use text.Mathlib.TextLemmas.{nil-append, cons-append}
use phylax_subnet.Prelude.Lists.{All, All-append}
use phylax_subnet.Prelude.Tests.{leb, ◌=ℕ◌, if◌then◌else◌}

abbrev pub Text : Type 0
Text = List ℕ

unfoldable pub codes : String → Text
codes String.[] = []
codes (String.◌∷◌ c s) = code c ∷ codes s

-- s == t
unfoldable pub same : Text → Text → Bool
same [] [] = true
same (a ∷ s) (b ∷ t) = a =ℕ b && same s t
same _ _ = false

pub same→≡ : (s t : Text) → same s t ≡ true → s ≡ t
unfolding same
same→≡ [] [] h = refl
same→≡ [] (b ∷ t) h = cc
same→≡ (a ∷ s) [] h = cc
same→≡ (a ∷ s) (b ∷ t) h = ground (arith, same→≡ s t)

pub same_refl : (s : Text) → same s s ≡ true
unfolding same
same_refl [] = refl
same_refl (a ∷ s) = ground (arith, same_refl s)

-- s.startswith(t)
unfoldable pub starts_with : Text → Text → Bool
starts_with s [] = true
starts_with [] (b ∷ t) = false
starts_with (a ∷ s) (b ∷ t) = a =ℕ b && starts_with s t

-- t in s
unfoldable pub contains : Text → Text → Bool
unfolding starts_with
contains [] t = starts_with [] t
contains (a ∷ s) t = starts_with (a ∷ s) t || contains s t

-- s.endswith(t)
unfoldable pub ends_with : Text → Text → Bool
unfolding same
ends_with [] t = same [] t
ends_with (a ∷ s) t = same (a ∷ s) t || ends_with s t

abbrev pub lower_code : ℕ → ℕ
lower_code c = if leb b'A' c && leb c b'Z' then c + 32 else c

abbrev pub upper_code : ℕ → ℕ
upper_code c = if leb b'a' c && leb c b'z' then c - 32 else c

-- s.lower()
unfoldable pub lower : Text → Text
lower [] = []
lower (c ∷ s) = lower_code c ∷ lower s

-- s.upper()
unfoldable pub upper : Text → Text
upper [] = []
upper (c ∷ s) = upper_code c ∷ upper s

abbrev pub is_space : ℕ → Bool
is_space c = c =ℕ 32 || leb 9 c && leb c 13 || leb 28 c && leb c 31

drop_spaces : Text → Text
drop_spaces [] = []
drop_spaces (c ∷ s) = if is_space c then drop_spaces s else c ∷ s

-- s.strip()
unfoldable pub strip : Text → Text
unfolding drop_spaces
strip s = reverse (drop_spaces (reverse (drop_spaces s)))

-- The same on a `String`.
strip_front : String → String
strip_front String.[] = String.[]
strip_front (String.◌∷◌ c s) = if is_space (code c) then strip_front s else String.◌∷◌ c s

abbrev strip_last : Bool → Char → String → String
strip_last true c String.[] = String.[]
strip_last _ c s = String.◌∷◌ c s

strip_back : String → String
strip_back String.[] = String.[]
strip_back (String.◌∷◌ c s) = strip_last (is_space (code c)) c (strip_back s)

unfoldable pub strip_string : String → String
unfolding strip_front strip_back
strip_string s = strip_back (strip_front s)

-- What follows the prefix, if the string begins with it.
unfoldable pub after_prefix : Text → String → Option String
after_prefix [] s = some s
after_prefix (c ∷ p) String.[] = none
after_prefix (c ∷ p) (String.◌∷◌ d s) = if code d =ℕ c then after_prefix p s else none

-- s.removeprefix(p)
unfoldable pub remove_prefix : String → String → String
unfolding after_prefix codes
remove_prefix p s = elim (after_prefix (codes p) s) [ none ↦ s | some rest ↦ rest ]

abbrev pub concat : String → String → String
concat s t = str_append s t

-- A text without white space.
abbrev pub IsUnspaced : Text → Type 0
IsUnspaced s = All (λ c. is_space c ≡ false) s

drop_spaces-IsUnspaced : (s : Text) → IsUnspaced s → drop_spaces s ≡ s
unfolding drop_spaces
drop_spaces-IsUnspaced [] h = refl
drop_spaces-IsUnspaced (c ∷ s) (e, h) = rw e refl

reverse-IsUnspaced : (s : Text) → IsUnspaced s → IsUnspaced (reverse s)
reverse-IsUnspaced [] h = tt
reverse-IsUnspaced (c ∷ s) (e, h) =
    rw (reverse-cons c s) (All-append _ (reverse s) (c ∷ []) (reverse-IsUnspaced s h) (e, tt))

pub strip-IsUnspaced : (s : Text) → IsUnspaced s → strip s ≡ s
unfolding strip
strip-IsUnspaced s h =
    rw (drop_spaces-IsUnspaced s h, drop_spaces-IsUnspaced (reverse s) (reverse-IsUnspaced s h))
      (reverse-reverse s)

pub codes-concat : (s t : String) → codes (concat s t) ≡ codes s ++ codes t
unfolding codes
codes-concat String.[] t = rw (nil-append t) refl
codes-concat (String.◌∷◌ c s) t = rw (cons-append c s t, codes-concat s t) refl
