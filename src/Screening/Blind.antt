-- ===== src/Screening/Blind.antt =====
-- What the screen of phylax/screening.py does not look at.
use phylax_subnet.Prelude.{ℕ, ◌+◌, ◌≡◌, refl, ap, Bool, Option, List, [], ◌∷◌, ◌++◌, arith}
use phylax_subnet.Prelude.Text.{Text}
use phylax_subnet.Screening.{
  Node, Rule, before_comment, kept_lines, is_docstring_line, first_reason, normalise_code,
  abuse_reason, splitlines,
}

before_comment-hash :
    (line hidden other : Text)
    → before_comment (line ++ (b'#' ∷ hidden)) ≡ before_comment (line ++ (b'#' ∷ other))
unfolding before_comment
before_comment-hash [] hidden other = refl
before_comment-hash (c ∷ line) hidden other = ground (arith, before_comment-hash line hidden other)

-- Lines that differ after a "#" only are kept alike.
kept_lines-hash :
    (skip : ℕ → Bool) (number : ℕ) (before : List Text) (line hidden other : Text)
    (after : List Text)
    → kept_lines skip number (before ++ ((line ++ (b'#' ∷ hidden)) ∷ after))
      ≡ kept_lines skip number (before ++ ((line ++ (b'#' ∷ other)) ∷ after))
unfolding kept_lines
kept_lines-hash skip number [] line hidden other after =
    rw (before_comment-hash line hidden other) refl
kept_lines-hash skip number (raw ∷ before) line hidden other after =
    rw (kept_lines-hash skip (number + 1) before line hidden other after) refl

-- Whatever stands on a line after a "#", be it in a comment or after a "#" within a text, plays no
-- part in the screen, where the docstrings stand on the same lines.
pub abuse_reason-hash :
    (parse : Text → Option (List Node)) (strip_literals : Text → Text) (rules : List Rule)
    (code code' : Text) (before after : List Text) (line hidden other : Text)
    → splitlines code ≡ before ++ ((line ++ (b'#' ∷ hidden)) ∷ after)
    → splitlines code' ≡ before ++ ((line ++ (b'#' ∷ other)) ∷ after)
    → is_docstring_line (parse code) ≡ is_docstring_line (parse code')
    → abuse_reason parse strip_literals rules code ≡ abuse_reason parse strip_literals rules code'
unfolding abuse_reason normalise_code
abuse_reason-hash parse strip_literals rules code code' before after line hidden other e e' p =
    let same_lines =
      kept_lines-hash (is_docstring_line (parse code')) 1 before line hidden other after in
    ap (λ base. first_reason rules base (strip_literals base)) (rw (p, e, e', same_lines) refl)
