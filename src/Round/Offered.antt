-- ===== src/Round/Offered.antt =====
-- What the polls of the tracks offer: `_begin_round` of neurons/validator.py.
use phylax_subnet.Prelude.{
  ◌≡◌, refl, subst, none, Bool, true, false, ◌&&◌, ◌||◌, inl, inr, String, Option, some, List, [],
  ◌∷◌, ◌==◌, member, any, All, Bool-cases, arith, eq_iff, eq_refl,
}
use phylax_subnet.Value.{Fields}
use phylax_subnet.Round.{Attempt, done, abstains, fails}
use phylax_subnet.Round.Poll.{
  Offer, Answer, unreachable, rejected, poll_fails, no_round, submission, open_round, with_offer,
  polled, poll_tracks, finished,
}

module _ {F : Type 0} where
  -- The backend has a round to run for a track, or none.
  abbrev pub is_serving : Answer F → Bool
  is_serving unreachable = false
  is_serving (rejected status) = false
  is_serving poll_fails = false
  is_serving no_round = true
  is_serving submission = false
  is_serving (open_round round_id seed participants) = true

  abbrev pub is_offered : String → String → List (Offer F) → Bool
  is_offered track round_id offers =
      any (λ (o : Offer F). o.track == track && o.round_id == round_id) offers

  -- What a poll of serving answers gives for a track, after the others.
  abbrev pub IsPolled : List String → String → String → Attempt (Option (List (Offer F))) → Type 0
  IsPolled done_rounds track round_id polled =
      (offers : List (Offer F)) × (polled ≡ done (some offers))
      × ((member round_id done_rounds || is_offered track round_id offers) ≡ true)

  polled_total :
      (done_rounds : List String) (track : String) (answer : Answer F) (rest : List (Offer F))
      → is_serving answer ≡ true
      → (offers : List (Offer F)) × (polled track done_rounds answer (done (some rest))
          ≡ done (some offers))
  unfolding polled
  polled_total done_rounds track unreachable rest h = cc
  polled_total done_rounds track (rejected status) rest h = cc
  polled_total done_rounds track poll_fails rest h = cc
  polled_total done_rounds track no_round rest h = (rest, refl)
  polled_total done_rounds track submission rest h = cc
  polled_total done_rounds track (open_round round_id seed participants) rest h =
      elim (Bool-cases (member round_id done_rounds)) [
        | inl e ↦ rw e (rest, refl)
        | inr e ↦ rw e (_, refl)
      ]

  poll_total :
      (answer : String → Answer F) (done_rounds tracks : List String)
      → All (λ t. is_serving (answer t) ≡ true) tracks
      → (offers : List (Offer F)) × (poll_tracks answer done_rounds tracks ≡ done (some offers))
  unfolding poll_tracks
  poll_total answer done_rounds [] h = ([], refl)
  poll_total answer done_rounds (t ∷ ts) (s, h) =
      let (rest, e) = poll_total answer done_rounds ts h in
      rw e (polled_total done_rounds t (answer t) rest s)

  -- An offer of a later track stays.
  polled-offered :
      (done_rounds : List String) (track other round_id : String) (answer : Answer F)
      (rest : List (Offer F))
      → is_serving answer ≡ true
      → (member round_id done_rounds || is_offered track round_id rest) ≡ true
      → IsPolled done_rounds track round_id (polled other done_rounds answer (done (some rest)))
  unfolding polled
  polled-offered done_rounds track other round_id unreachable rest h k = cc
  polled-offered done_rounds track other round_id (rejected status) rest h k = cc
  polled-offered done_rounds track other round_id poll_fails rest h k = cc
  polled-offered done_rounds track other round_id no_round rest h k = (rest, refl, k)
  polled-offered done_rounds track other round_id submission rest h k = cc
  polled-offered done_rounds track other round_id (open_round id seed participants) rest h k =
      elim (Bool-cases (member id done_rounds)) [
        | inl e ↦ rw e (rest, refl, k)
        | inr e ↦ rw e (_, refl, ground arith)
      ]

  open-offered :
      (done_rounds : List String) (track round_id seed : String) (participants : List (Fields F))
      (rest : List (Offer F))
      → IsPolled done_rounds track round_id
          (polled track done_rounds (open_round round_id seed participants) (done (some rest)))
  unfolding polled
  open-offered done_rounds track round_id seed participants rest =
      elim (Bool-cases (member round_id done_rounds)) [
        | inl e ↦ rw e (rest, refl, refl)
        | inr e ↦ rw e (_, refl, ground (arith, eq_refl track, eq_refl round_id))
      ]

  pub poll_tracks-offered :
      (answer : String → Answer F) (done_rounds ts : List String) (track round_id seed : String)
      (participants : List (Fields F))
      → All (λ t. is_serving (answer t) ≡ true) ts
      → member track ts ≡ true
      → answer track ≡ open_round round_id seed participants
      → IsPolled done_rounds track round_id (poll_tracks answer done_rounds ts)
  unfolding poll_tracks
  poll_tracks-offered answer done_rounds [] track round_id seed participants h m o = cc
  poll_tracks-offered answer done_rounds (t ∷ ts) track round_id seed participants (s, h) m o =
      let (rest, e) = poll_total answer done_rounds ts h in
      elim (Bool-cases (t == track)) [
        | inl k ↦
            let same : t ≡ track = ground (arith, eq_iff t track) in
            rw (e, same, o) (open-offered done_rounds track round_id seed participants rest)
        | inr k ↦
            let (offers, e', w) =
              poll_tracks-offered answer done_rounds ts track round_id seed participants h
                (ground arith) o in
            let same : rest ≡ offers = (let l = rw e at e' in cc) in
            rw e (polled-offered done_rounds track t round_id (answer t) rest s (rw same w))
      ]

  pub finished-offered :
      (failed : List String) (track round_id : String) (offers : List (Offer F))
      → member track failed ≡ false
      → is_offered track round_id offers ≡ true
      → member round_id (finished failed offers) ≡ true
  unfolding finished
  finished-offered failed track round_id [] f h = cc
  finished-offered failed track round_id (o ∷ os) f h =
      elim (Bool-cases (o.track == track && o.round_id == round_id)) [
        | inl k ↦
            let same : o.track ≡ track = ground (arith, eq_iff o.track track) in
            let kept : member o.track failed ≡ false = rw same f in rw kept (ground arith)
        | inr k ↦
            let later = finished-offered failed track round_id os f (ground arith) in
            elim (Bool-cases (member o.track failed)) [
              | inl e ↦ rw e later
              | inr e ↦ rw e (ground arith)
            ]
      ]

  -- No round that is offered is done.
  abbrev pub AreFresh : List String → List (Offer F) → Type 0
  AreFresh done_rounds offers = All (λ (o : Offer F). member o.round_id done_rounds ≡ false) offers

  with_offer-AreFresh :
      (done_rounds : List String) (offer : Offer F) (rest : Attempt (Option (List (Offer F))))
      (offers : List (Offer F))
      → member offer.round_id done_rounds ≡ false
      → ((os : List (Offer F)) → rest ≡ done (some os) → AreFresh done_rounds os)
      → with_offer offer rest ≡ done (some offers)
      → AreFresh done_rounds offers
  with_offer-AreFresh done_rounds offer (done none) offers e later h = cc
  with_offer-AreFresh done_rounds offer (done (some os)) offers e later h =
      let same : offer ∷ os ≡ offers = cc in subst (AreFresh done_rounds) same (e, later os refl)
  with_offer-AreFresh done_rounds offer abstains offers e later h = cc
  with_offer-AreFresh done_rounds offer fails offers e later h = cc

  -- One track of a poll, after which the others were polled.
  polled-AreFresh :
      (done_rounds : List String) (track : String) (answer : Answer F)
      (rest : Attempt (Option (List (Offer F)))) (offers : List (Offer F))
      → ((os : List (Offer F)) → rest ≡ done (some os) → AreFresh done_rounds os)
      → polled track done_rounds answer rest ≡ done (some offers)
      → AreFresh done_rounds offers
  unfolding polled
  polled-AreFresh done_rounds track unreachable rest offers later h = cc
  polled-AreFresh done_rounds track (rejected status) rest offers later h = cc
  polled-AreFresh done_rounds track poll_fails rest offers later h = cc
  polled-AreFresh done_rounds track no_round rest offers later h = later offers h
  polled-AreFresh done_rounds track submission rest offers later h = cc
  polled-AreFresh done_rounds track (open_round round_id seed participants) rest offers later h =
      elim (Bool-cases (member round_id done_rounds)) [
        | inl e ↦ later offers (rw e at h)
        | inr e ↦ with_offer-AreFresh done_rounds _ rest offers e later (rw e at h)
      ]

  pub poll_tracks-AreFresh :
      (answer : String → Answer F) (done_rounds tracks : List String) (offers : List (Offer F))
      → poll_tracks answer done_rounds tracks ≡ done (some offers)
      → AreFresh done_rounds offers
  unfolding poll_tracks
  poll_tracks-AreFresh answer done_rounds [] offers h =
      let none_left : [] ≡ offers = cc in subst (AreFresh done_rounds) none_left tt
  poll_tracks-AreFresh answer done_rounds (track ∷ tracks) offers h =
      let later = poll_tracks-AreFresh answer done_rounds tracks in
      polled-AreFresh done_rounds track (answer track) (poll_tracks answer done_rounds tracks)
        offers later h
