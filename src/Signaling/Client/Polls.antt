-- ===== src/Signaling/Client/Polls.antt =====
-- What the polling of internal/signaling/client.go returns, and the base URL.
use nl_punch.Prelude.{
  [], ◌∷◌, ◌++◌, List, Bytes, nat_eq, string_eq, bytes_eq, bytes_eq_iff, bytes_eq_ne, not, Bool,
  true, false, All, ◌≡◌, ◌≢◌, refl, sym, ap, ◌∙◌, arith, Bool-cases, inl, inr,
}
use nl_punch.Stream.{Result, ok, err}
use nl_punch.Signaling.{Offer}
use nl_punch.Signaling.Client.{
  ClientError, err_not_found, context_done, is_not_found, Exchange, is_wanted, do_get, on_answer,
  await_answer_matching, await_offer,
}

-- A poll that goes on: the answer is not there, or it is one of another generation.
abbrev pub goes_on : Bytes → Result ClientError Offer → Bool
goes_on want_gen (ok a) = not (is_wanted want_gen a)
goes_on want_gen (err e) = is_not_found e

abbrev pub IsPassed : Bytes → Exchange → Type 0
IsPassed want_gen x = goes_on want_gen (do_get x) ≡ true

on_answer-on :
    (want_gen : Bytes) (r later : Result ClientError Offer)
    → goes_on want_gen r ≡ true
    → on_answer want_gen r later ≡ later
on_answer-on want_gen (ok a) later h = ground arith
on_answer-on want_gen (err e) later h = rw h

on_answer-stop :
    (want_gen : Bytes) (r later : Result ClientError Offer)
    → goes_on want_gen r ≡ false
    → on_answer want_gen r later ≡ r
on_answer-stop want_gen (ok a) later h = ground arith
on_answer-stop want_gen (err e) later h = rw h

-- The polling takes the first exchange that does not go on.
pub await_answer_matching_lem :
    (want_gen : Bytes) (before after : List Exchange) (x : Exchange)
    → All (IsPassed want_gen) before
    → goes_on want_gen (do_get x) ≡ false
    → (await_answer_matching want_gen (before ++ x ∷ after) ≡ do_get x)
      × (await_answer_matching want_gen before ≡ err context_done)
unfolding await_answer_matching
await_answer_matching_lem want_gen [] after x h stop =
    (on_answer-stop want_gen (do_get x) _ stop, refl)
await_answer_matching_lem want_gen (y ∷ before) after x h stop =
    let (found, ended) = await_answer_matching_lem want_gen before after x h.1 stop in
    (on_answer-on want_gen (do_get y) _ h.0 ∙ found, on_answer-on want_gen (do_get y) _ h.0 ∙ ended)

on_answer-ok :
    (want_gen : Bytes) (r later : Result ClientError Offer) {a : Offer}
    → want_gen ≢ []
    → (later ≡ ok a → a.gen ≡ want_gen)
    → on_answer want_gen r later ≡ ok a
    → a.gen ≡ want_gen
on_answer-ok want_gen (ok b) later {a} given rest h = elim (Bool-cases (bytes_eq b.gen want_gen)) [
  | inl same ↦
      let e : b ≡ a = cc (rw (bytes_eq_ne want_gen [] given, same) at h) in
      ap (λ o. o.gen) (sym e) ∙ (bytes_eq_iff b.gen want_gen).0 same
  | inr apart ↦ rest (rw (bytes_eq_ne want_gen [] given, apart) at h)
]
on_answer-ok want_gen (err e) later {a} given rest h = elim (Bool-cases (is_not_found e)) [
  | inl missing ↦ rest (rw missing at h)
  | inr other ↦ cc (rw other at h)
]

-- An answer of another generation than the wanted one is never returned.
pub await_answer_matching-gen :
    (want_gen : Bytes) (xs : List Exchange) (a : Offer)
    → want_gen ≢ []
    → await_answer_matching want_gen xs ≡ ok a
    → a.gen ≡ want_gen
unfolding await_answer_matching
await_answer_matching-gen want_gen [] a given h = cc h
await_answer_matching-gen want_gen (x ∷ xs) a given h =
    on_answer-ok want_gen (do_get x) (await_answer_matching want_gen xs) given
      (await_answer_matching-gen want_gen xs a given) h

-- The polling for an offer passes the polls that find none.
abbrev pub IsMissing : Exchange → Type 0
IsMissing x = do_get x ≡ err err_not_found

pub await_offer_lem :
    (before after : List Exchange) (x : Exchange) (o : Offer)
    → All IsMissing before
    → do_get x ≡ ok o
    → await_offer (before ++ x ∷ after) ≡ ok o
unfolding await_offer
await_offer_lem [] after x o h found = rw found
await_offer_lem (y ∷ before) after x o h found = rw h.0 (await_offer_lem before after x o h.1 found)
