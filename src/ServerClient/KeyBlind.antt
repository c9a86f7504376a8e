-- ===== src/ServerClient/KeyBlind.antt =====
-- Calls that the key of the backend plays no part in: phylax/server_client.py.
use phylax_subnet.Prelude.{
  ◌≡◌, refl, ◌⊎◌, inl, inr, false, not, ◌&&◌, String, List, [], ◌∷◌, ◌=ℕ◌, Bool-cases,
  if◌then◌else◌,
}
use phylax_subnet.Number.{Float}
use phylax_subnet.Value.{Value, null, bool, int, float, str, arr, obj, truthy}
use phylax_subnet.ServerClient.{
  Link, Request, Client, Action, Called, ok, unreachable, rejected, mismatch, crashed, and_then,
  ◌>>=◌, return, request, got, if_due, identified, is_none, blurred, unless_404, of_response,
}
use phylax_subnet.ServerClient.Operations.{answered}

module _ {F : Type 0} where
  -- The same requests, or one more, which is for the path.
  abbrev pub IsOneMore : String → List (Request F) → List (Request F) → Type 0
  IsOneMore path old new = (new ≡ old) ⊎ ((r : Request F) × (r.path ≡ path) × (new ≡ r ∷ old))

  abbrev pub client_with : Value F → List (Request F) → Client F
  client_with key requests = record { server_hotkey = key; requests = requests }

  abbrev pub nobody : Client F
  nobody = client_with null []

  -- What asks nothing, and does not look at the client.
  pub record IsSilent {A : Type 0} (m : Action F A) : Type 0 where
    pub silent : (s : Client F) → m s ≡ (s, (m nobody).1)

  pub return-IsSilent : {A : Type 0} (a : A) → IsSilent (return {F = F} a)
  return-IsSilent a = record { silent = λ s. refl }

  and_then_silent :
      {A B : Type 0} (f : A → Action F B)
      → ((a : A) → IsSilent (f a))
      → (s : Client F) (c : Called A) → and_then f (s, c) ≡ (s, (and_then f (nobody, c)).1)
  unfolding and_then
  and_then_silent f k s (ok a) = (k a).silent s
  and_then_silent f k s unreachable = refl
  and_then_silent f k s (rejected status) = refl
  and_then_silent f k s mismatch = refl
  and_then_silent f k s crashed = refl

module _ {F : Type 0} ⦃num : Float F⦄ (link : Link F) where
  -- Where there is a key, the action keeps it, makes at most one request, which is for the path, and
  -- has requests and a result that the key plays no part in.
  pub record IsBlind {A : Type 0} (path : String) (m : Action F A) : Type 0 where
    pub answer : List (Request F) → List (Request F) × Called A
    pub once : (rs : List (Request F)) → IsOneMore path rs (answer rs).0
    pub blind :
        (key : Value F) (rs : List (Request F))
        → is_none link key ≡ false
        → m (client_with key rs) ≡ (client_with key (answer rs).0, (answer rs).1)

  pub bind-IsBlind :
      {A B : Type 0} {path : String} {m : Action F A} (f : A → Action F B)
      → IsBlind path m
      → ((a : A) → IsSilent (f a))
      → IsBlind path (m >>= f)
  bind-IsBlind f b k = record {
    answer = λ rs. ((b.answer rs).0, (and_then f (nobody, (b.answer rs).1)).1);
    once = b.once;
    blind = λ key rs n.
        rw (b.blind key rs n)
          (and_then_silent f k (client_with key (b.answer rs).0) (b.answer rs).1);
  }

  asked : Request F → List (Request F) → List (Request F) × Called (Value F)
  asked r rs =
      if r.signed && not link.has_wallet
      then (rs, crashed)
      else (r ∷ rs, of_response link (link.send rs r))

  pub request-IsBlind : (r : Request F) → IsBlind r.path (request link r)
  unfolding request asked
  request-IsBlind r = record {
    answer = asked r;
    once = λ rs. elim (Bool-cases (r.signed && not link.has_wallet)) [
      | inl t ↦ rw (asked, t) (inl refl)
      | inr t ↦ rw (asked, t) (inr (r, refl, refl))
    ];
    blind = λ key rs n. elim (Bool-cases (r.signed && not link.has_wallet)) [
      | inl t ↦ rw (request, asked, t) refl
      | inr t ↦ rw (request, asked, t) refl
    ];
  }

  pub identified-IsBlind :
      {A : Type 0} {path : String} {m : Action F A}
      → IsBlind path m
      → IsBlind path (identified link m)
  unfolding identified
  identified-IsBlind b = record {
    answer = b.answer;
    once = b.once;
    blind = λ key rs n. rw n (b.blind key rs n);
  }

  -- What looks at how a request ended.
  pub ended-IsBlind :
      {A B : Type 0} {path : String} {m : Action F A}
      (f : Client F × Called A → Client F × Called B)
      → ((s : Client F) (c : Called A) → f (s, c) ≡ (s, (f (nobody, c)).1))
      → IsBlind path m
      → IsBlind path (λ s. f (m s))
  ended-IsBlind f k b = record {
    answer = λ rs. ((b.answer rs).0, (f (nobody, (b.answer rs).1)).1);
    once = b.once;
    blind = λ key rs n. rw (b.blind key rs n) (k (client_with key (b.answer rs).0) (b.answer rs).1);
  }

  got_silent :
      {A : Type 0} (f : Value F → A) (v : Value F) (s : Client F)
      → and_then (λ a. return (f a)) (got link v "round_id" s)
        ≡ (s, (and_then (λ a. return {F = F} (f a)) (got link v "round_id" nobody)).1)
  unfolding and_then
  got_silent f null s = refl
  got_silent f (bool b) s = refl
  got_silent f (int n) s = refl
  got_silent f (float x) s = refl
  got_silent f (str t) s = refl
  got_silent f (arr vs) s = refl
  got_silent f (obj fs) s = refl

  pub if_due-IsSilent : (v : Value F) → IsSilent (if_due link v)
  if_due-IsSilent v = record {
    silent = λ s. elim (Bool-cases (not (truthy v))) [
      | inl t ↦ rw t refl
      | inr t ↦ rw t (got_silent _ v s)
    ];
  }

  pub blurred_host :
      (s : Client F) (c : Called (Value F))
      → blurred link (s, c) ≡ (s, (blurred link (nobody, c)).1)
  blurred_host s (ok a) = refl
  blurred_host s unreachable = refl
  blurred_host s (rejected status) = refl
  blurred_host s mismatch = refl
  blurred_host s crashed = refl

  pub unless_404_host :
      (s : Client F) (c : Called (Value F))
      → unless_404 link (s, c) ≡ (s, (unless_404 link (nobody, c)).1)
  unless_404_host s (ok a) = refl
  unless_404_host s unreachable = refl
  unless_404_host s (rejected status) = elim (Bool-cases (status =ℕ 404)) [
    | inl t ↦ rw t refl
    | inr t ↦ rw t refl
  ]
  unless_404_host s mismatch = refl
  unless_404_host s crashed = refl

  pub answered-IsBlind : (r : Request F) → IsBlind r.path (answered link (request link r))
  answered-IsBlind r = bind-IsBlind _ (request-IsBlind r) (λ v. return-IsSilent _)

  pub asked-IsBlind :
      (r : Request F) → IsBlind r.path (identified link (answered link (request link r)))
  asked-IsBlind r = identified-IsBlind (answered-IsBlind r)
