-- ===== src/Repositories/Paths.antt =====
-- The loop of `_norm_file` in phylax/analysis/repositories.py.
use phylax_subnet.Prelude.{
  ℕ, zero, suc, ◌≤◌, ◌<◌, ◌≡◌, refl, true, false, [], ◌∷◌, arith, length, Bool-cases, inl, inr,
}
use phylax_subnet.Prelude.Text.{Text, codes, starts_with}
use phylax_subnet.Number.{Float}
use phylax_subnet.Value.{Fields, Conversions}
use phylax_subnet.Repositories.Finding.{strip_slashes, drop_dot, is_rooted, unroot, norm_file}

length-strip_slashes : (s : Text) → length (strip_slashes s) ≤ length s
unfolding strip_slashes
length-strip_slashes [] = omega arith
length-strip_slashes (c ∷ s) = ground (arith, length-strip_slashes s)

length-drop_dot : (s : Text) → length (drop_dot s) ≤ length s
unfolding drop_dot
length-drop_dot [] = omega arith
length-drop_dot (a ∷ []) = omega arith
length-drop_dot (a ∷ b ∷ s) = ground arith

-- A round of the loop shortens a path that starts with "/" or "./".
round-lt : (s : Text) → is_rooted s ≡ true → length (drop_dot (strip_slashes s)) < length s
unfolding is_rooted strip_slashes drop_dot starts_with codes
round-lt [] h = cc
round-lt (a ∷ []) h = ground arith
round-lt (a ∷ b ∷ s) h =
    ground (arith, length-strip_slashes (b ∷ s), length-drop_dot (strip_slashes (b ∷ s)))

unroot-is_rooted : (rounds : ℕ) (s : Text) → length s ≤ rounds → is_rooted (unroot rounds s) ≡ false
unfolding unroot is_rooted
unroot-is_rooted zero [] h = refl
unroot-is_rooted zero (c ∷ s) h = ground arith
unroot-is_rooted (suc rounds) s h = elim (Bool-cases (is_rooted s)) [
  | inl e ↦ rw (unroot, e) (unroot-is_rooted rounds _ (omega (arith, round-lt s e)))
  | inr e ↦ rw (unroot, e) e
]

module _ {F : Type 0} ⦃num : Float F⦄ (conv : Conversions F) where
  -- The loop ends: the path that it leaves starts with neither "/" nor "./".
  pub norm_file-is_rooted : (vuln : Fields F) → is_rooted (norm_file conv vuln) ≡ false
  unfolding norm_file
  norm_file-is_rooted vuln = unroot-is_rooted _ _ (omega arith)
