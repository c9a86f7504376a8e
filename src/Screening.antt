-- ===== src/Screening.antt =====
-- The screen of an agent's code: phylax/screening.py. The parser and the patterns of the rules are
-- parameters; white space and the ends of lines are those of ASCII.
pub mod Blind
use phylax_subnet.Prelude.{
  ℕ, ◌+◌, Bool, true, false, not, ◌&&◌, ◌||◌, String, Option, none, some, List, [], ◌∷◌, ◌++◌, leb,
  ◌=ℕ◌, if◌then◌else◌, any, is_empty,
}
use phylax_subnet.Prelude.Text.{Text, codes, strip}

-- What a node of the syntax tree begins with: an expression statement that is a text, and its lines.
pub record Docstring : Type 0 where
  pub lineno : ℕ
  pub end_lineno : Option ℕ

-- A node of the tree: whether it is a module, a class or a function, and its docstring.
pub record Node : Type 0 where
  pub is_holder : Bool
  pub docstring : Option Docstring

-- A rule: its reason, whether its pattern is found in a text, and whether literals are blanked.
pub record Rule : Type 0 where
  pub reason : Text
  pub search : Text → Bool
  pub strip_first : Bool

-- The lines of one docstring, from the first to the last.
unfoldable pub spans : Docstring → ℕ → Bool
spans d number =
    let last : ℕ = elim d.end_lineno [
      | none ↦ d.lineno
      | some n ↦ if n =ℕ 0 then d.lineno else n
    ] in
    leb d.lineno number && leb number last

abbrev pub has_line : ℕ → Option Docstring → Bool
has_line number none = false
has_line number (some d) = spans d number

-- number in _docstring_lines(code), where `none` is code that does not parse.
unfoldable pub is_docstring_line : Option (List Node) → ℕ → Bool
is_docstring_line none number = false
is_docstring_line (some nodes) number =
    any (λ (n : Node). n.is_holder && has_line number n.docstring) nodes

abbrev pub is_line_end : ℕ → Bool
is_line_end c = leb 10 c && leb c 13 || leb 28 c && leb c 30

abbrev pub first_line_with : ℕ → List Text → List Text
first_line_with c [] = (c ∷ []) ∷ []
first_line_with c (line ∷ lines) = (c ∷ line) ∷ lines

-- code.splitlines(), where "\r\n" is one end
unfoldable pub splitlines : Text → List Text
splitlines [] = []
splitlines (c ∷ []) = if is_line_end c then [] ∷ [] else (c ∷ []) ∷ []
splitlines (c ∷ d ∷ s) =
    let rest = splitlines (d ∷ s) in
    let after = splitlines s in
    if c =ℕ 13 && d =ℕ 10
    then [] ∷ after
    else if is_line_end c
    then [] ∷ rest
    else first_line_with c rest

-- raw.split("#", 1)[0]
unfoldable pub before_comment : Text → Text
before_comment [] = []
before_comment (c ∷ s) = let rest = before_comment s in if c =ℕ b'#' then [] else c ∷ rest

-- "\n".join(lines)
unfoldable pub join_lines : List Text → Text
join_lines [] = []
join_lines (line ∷ []) = line
join_lines (line ∷ more ∷ lines) = line ++ (10 ∷ join_lines (more ∷ lines))

-- The loop of `normalise_code`, from the line of this number.
unfoldable pub kept_lines : (ℕ → Bool) → ℕ → List Text → List Text
kept_lines skip number [] = []
kept_lines skip number (raw ∷ raws) =
    let rest = kept_lines skip (number + 1) raws in
    let line = strip (before_comment raw) in
    if skip number then rest else if is_empty line then rest else line ∷ rest

-- The first reason whose pattern is found.
unfoldable pub first_reason : List Rule → Text → Text → Text
first_reason [] base without_literals = []
first_reason (rule ∷ rules) base without_literals =
    if rule.search (if rule.strip_first then without_literals else base)
    then rule.reason
    else first_reason rules base without_literals

module _ (parse : Text → Option (List Node)) (strip_literals : Text → Text)
    (rules : List Rule) where
  -- `normalise_code`
  unfoldable pub normalise_code : Text → Text
  normalise_code code = join_lines (kept_lines (is_docstring_line (parse code)) 1 (splitlines code))

  -- `abuse_reason`
  unfoldable pub abuse_reason : Text → Text
  abuse_reason code =
      let base = normalise_code code in first_reason rules base (strip_literals base)
