-- ===== src/ServerClient/Signing.antt =====
-- What a request of the client is signed over: `_signing_bytes` of phylax/server_client.py.
use phylax_subnet.Prelude.{ℕ, ◌≡◌, ◌≢◌, refl, [], ◌∷◌, ◌++◌, All, arith}
use phylax_subnet.Prelude.Text.{Text, upper}

-- The bytes that are hashed, of the method, the path, the timestamp and the body.
unfoldable pub signing_text : Text → Text → Text → Text → Text
signing_text method path timestamp body =
    upper method ++ (10 ∷ (path ++ (10 ∷ (timestamp ++ (10 ∷ body)))))

abbrev pub IsOneLine : Text → Type 0
IsOneLine s = All (λ (c : ℕ). c ≢ 10) s

-- A text up to its first line end.
first_line :
    (a b : Text) {x y : Text}
    → IsOneLine a
    → IsOneLine b
    → a ++ (10 ∷ x) ≡ b ++ (10 ∷ y)
    → (a ≡ b) × (x ≡ y)
first_line [] [] p q h = (refl, cc)
first_line [] (c ∷ b) p (n, q) h = ground arith
first_line (c ∷ a) [] (n, p) q h = ground arith
first_line (c ∷ a) (d ∷ b) (n, p) (m, q) h =
    let heads : c ≡ d = cc in let (e, f) = first_line a b p q cc in (rw (heads, e) refl, f)

-- Two requests whose methods, paths and timestamps are without line ends are signed over the same
-- bytes only if they are the same but for the case of the method.
pub signing_text_binds :
    (method method' path path' timestamp timestamp' body body' : Text)
    → IsOneLine (upper method)
    → IsOneLine (upper method')
    → IsOneLine path
    → IsOneLine path'
    → IsOneLine timestamp
    → IsOneLine timestamp'
    → signing_text method path timestamp body ≡ signing_text method' path' timestamp' body'
    → (upper method ≡ upper method') × (path ≡ path') × (timestamp ≡ timestamp') × (body ≡ body')
unfolding signing_text
signing_text_binds m m' p p' t t' b b' hm hm' hp hp' ht ht' h =
    let (em, rest) = first_line (upper m) (upper m') hm hm' h in
    let (ep, after) = first_line p p' hp hp' rest in
    let (et, eb) = first_line t t' ht ht' after in (em, ep, et, eb)
