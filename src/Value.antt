-- ===== src/Value.antt =====
-- The JSON values that agents return, and what Python's built-in operations do with them.
pub mod Int
use phylax_subnet.Prelude.{
  ℕ, ◌≡◌, refl, ◌⊎◌, inl, inr, ◌=ℕ◌, Bool, true, false, not, String, Option, none, some, List, [],
  ◌∷◌, ◌==◌, if◌then◌else◌, Dict, get, keys, map, length, is_empty,
}
use phylax_subnet.Prelude.Text.{Text, codes}
use phylax_subnet.Number.{Float, nought, equal}

-- `negsuc n` is -(n + 1).
pub data ℤ : Type 0 where
  pos : ℕ → ℤ
  negsuc : ℕ → ℤ

mutual
  pub data Value (F : Type 0) : Type 0 where
    null : Value F
    bool : Bool → Value F
    int : ℤ → Value F
    float : F → Value F
    str : String → Value F
    arr : Items F → Value F
    obj : Fields F → Value F

  pub data Items (F : Type 0) : Type 0 where
    nil : Items F
    cons : Value F → Items F → Items F

  pub data Fields (F : Type 0) : Type 0 where
    end : Fields F
    field : String → Value F → Fields F → Fields F

-- A call returns, or raises an exception that none of the modelled functions catches.
pub data Outcome (A : Type 0) : Type 0 where
  returns : A → Outcome A
  raises : Outcome A

abbrev pub or_raise : {A : Type 0} → Option A → Outcome A
or_raise none = raises
or_raise (some a) = returns a

infixl 5 ◌>>=◌ ◌>>◌
abbrev pub ◌>>=◌ : {A B : Type 0} → Outcome A → (A → Outcome B) → Outcome B
returns a >>= f = f a
raises >>= f = raises

abbrev pub ◌>>◌ : {B : Type 0} → Outcome (Unit {0}) → Outcome B → Outcome B
m >> k = m >>= λ _. k

-- Inversion of a bind that returned.
pub >>=-eq-returns :
    {A B : Type 0} (m : Outcome A) (f : A → Outcome B) {b : B}
    → (m >>= f) ≡ returns b
    → (a : A) × (m ≡ returns a) × (f a ≡ returns b)
>>=-eq-returns (returns a) f h = (a, refl, h)
>>=-eq-returns raises f h = cc

pub Outcome-cases : {A : Type 0} (m : Outcome A) → (m ≡ raises) ⊎ ((a : A) × (m ≡ returns a))
Outcome-cases raises = inl refl
Outcome-cases (returns a) = inr (a, refl)

-- `returns` is injective.
pub returned : {A : Type 0} (a b : A) → returns a ≡ returns b → a ≡ b
returned a b h = cc

-- What holds of the result of either branch holds of the result of the test.
pub by_branch :
    {A P : Type 0} (b : Bool) {x y : Outcome A} {r : Outcome A}
    → (x ≡ r → P)
    → (y ≡ r → P)
    → (if b then x else y) ≡ r
    → P
by_branch true f g h = f h
by_branch false f g h = g h

-- The conversions of the language that are not modelled: `str` of what is no text, and `int` of a
-- text and of a float (`none` is the `ValueError`).
pub record Conversions (F : Type 0) : Type 0 where
  pub render : Value F → String
  pub int_of_str : String → Option ℤ
  pub int_of_float : F → Option ℤ

module _ {F : Type 0} where
  abbrev pub items : Items F → List (Value F)
  items nil = []
  items (cons v vs) = v ∷ items vs

  abbrev pub entries : Fields F → Dict (Value F)
  entries end = []
  entries (field k v fs) = (k, v) ∷ entries fs

  -- isinstance(v, dict)
  abbrev pub is_dict : Value F → Bool
  is_dict (obj fs) = true
  is_dict _ = false

  -- v.get(k), which raises unless v is a dict
  unfoldable pub lookup : Value F → String → Outcome (Value F)
  lookup (obj fs) k = elim (get (entries fs) k) [ none ↦ returns null | some v ↦ returns v ]
  lookup _ k = raises

module _ {F : Type 0} where
  abbrev characters : String → List (Value F)
  characters String.[] = []
  characters (String.◌∷◌ c s) = str (String.◌∷◌ c String.[]) ∷ characters s

  -- list(v): the items of a list, the characters of a text, the keys of a dict
  unfoldable pub iterate : Value F → Outcome (List (Value F))
  iterate (arr xs) = returns (items xs)
  iterate (str s) = returns (characters s)
  iterate (obj fs) = returns (map str (keys (entries fs)))
  iterate _ = raises

  -- len(v)
  unfoldable pub len : Value F → Outcome ℕ
  unfolding iterate
  len v = do xs ← iterate v; returns (length xs)

  -- for x in xs, with the results collected
  unfoldable pub each : {B : Type 0} → (Value F → Outcome B) → List (Value F) → Outcome (List B)
  each f [] = returns []
  each f (v ∷ vs) = do b ← f v; bs ← each f vs; returns (b ∷ bs)

module _ {F : Type 0} ⦃num : Float F⦄ where
  -- bool(v)
  unfoldable pub truthy : Value F → Bool
  truthy null = false
  truthy (bool b) = b
  truthy (int (pos n)) = not (n =ℕ 0)
  truthy (int (negsuc n)) = true
  truthy (float x) = not (equal x nought)
  truthy (str s) = not (s == "")
  truthy (arr xs) = not (is_empty (items xs))
  truthy (obj fs) = not (is_empty (entries fs))

  -- v or w
  unfoldable pub or_else : Value F → Value F → Value F
  unfolding truthy
  or_else v w = if truthy v then v else w

  module _ (conv : Conversions F) where
    -- str(v)
    unfoldable pub to_string : Value F → String
    to_string (str s) = s
    to_string v = conv.render v

    -- its characters
    unfoldable pub to_str : Value F → Text
    unfolding to_string
    to_str v = codes (to_string v)

    -- int(v)
    unfoldable pub to_int : Value F → Outcome ℤ
    to_int (int n) = returns n
    to_int (bool b) = returns (pos (if b then 1 else 0))
    to_int (str s) = or_raise (conv.int_of_str s)
    to_int (float x) = or_raise (conv.int_of_float x)
    to_int _ = raises

    -- str(e.get(k, "")) of a dict with these fields
    unfoldable pub text_field : Fields F → String → Text
    unfolding to_str
    text_field fs k = elim (get (entries fs) k) [ none ↦ [] | some v ↦ to_str v ]
