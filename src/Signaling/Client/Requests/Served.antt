-- ===== src/Signaling/Client/Requests/Served.antt =====
-- What the server makes of each request of a client.
use nl_punch.Prelude.{
  [], ◌∷◌, ◌++◌, Bytes, codes, append_assoc, drop, drop_append, length, nat_eq, string_eq, bytes_eq,
  bytes_eq_refl, bytes_eq_ne, some, ◌≡◌, ◌≢◌, refl, sym, ap, ◌∙◌, if◌then◌else◌,
}
use nl_punch.Prelude.Dict.{lookup, insert, delete}
use nl_punch.Signaling.{Offer}
use nl_punch.Signaling.Server.{
  Server, OfferBody, AnswerBody, offer_route, answer_route, key, is_empty, found_or_404, reply,
  no_content,
}
use nl_punch.Signaling.Server.Requests.{
  IsGiven, IsAllowed, post_offer_lem, get_offer_lem, post_answer_lem, get_answer_lem,
}
use nl_punch.Signaling.Client.{punch}
use nl_punch.Signaling.Client.Requests.{
  Client, JsonFormat, post_offer, post_answer, get_offer, get_answer, route_of, served,
}

-- What the decoders do with what the encoder has written.
pub record IsFaithful {ℓ} {Json : Type ℓ} (format : JsonFormat Json) : Type ℓ where
  pub offers : (b : OfferBody) → format.unmarshal_offer (format.marshal_offer b) ≡ some b
  pub answers : (b : AnswerBody) → format.unmarshal_answer (format.marshal_answer b) ≡ some b

append-injective : (host s t : Bytes) → host ++ s ≡ host ++ t → s ≡ t
append-injective host s t e =
    sym (drop_append (length host) host s refl)
    ∙ ap (drop (length host)) e
    ∙ drop_append (length host) host t refl

route_of-offer :
    (host base : Bytes)
    → base ≡ host ++ punch
    → route_of host (base ++ codes "/offer") ≡ offer_route
unfolding route_of
route_of-offer host base e =
    rw (e, append_assoc host punch (codes "/offer"), bytes_eq_refl (host ++ codes "/punch/offer"))

route_of-answer :
    (host base : Bytes)
    → base ≡ host ++ punch
    → route_of host (base ++ codes "/answer") ≡ answer_route
unfolding route_of
route_of-answer host base e =
    let apart : host ++ codes "/punch/answer" ≢ host ++ codes "/punch/offer" =
      λ same. cc (append-injective host (codes "/punch/answer") (codes "/punch/offer") same) in
    rw (
      e,
      append_assoc host punch (codes "/answer"),
      bytes_eq_ne (host ++ codes "/punch/answer") (host ++ codes "/punch/offer") apart,
      bytes_eq_refl (host ++ codes "/punch/answer"),
    )

pub header_lem : (secret : Bytes) → (if is_empty secret then [] else secret) ≡ secret
header_lem [] = refl
header_lem (b ∷ s) = refl

-- A client with the address and the secret of its server.
pub record IsClientOf (host : Bytes) (s : Server) (c : Client) : Type 0 where
  pub based : c.base ≡ host ++ punch
  pub allowed : IsAllowed s c.secret

module _ {ℓ} {Json : Type ℓ} (format : JsonFormat Json) (faithful : IsFaithful format)
    (host : Bytes) (s : Server) (c : Client) (is_client : IsClientOf host s c) (session : Bytes)
    (given : IsGiven session) where
  pub served-post_offer :
      (role : Bytes) (o : Offer)
      → IsGiven role
      → served format host s (post_offer format c session role o) ≡ (
        record s {
          offers = insert (key session role) o s.offers;
          answers = delete session s.answers;
        },
        reply no_content,
      )
  unfolding served bytes_eq
  served-post_offer role o role_given =
      let body : OfferBody = record { session_id = session; role = role; offer = o } in
      rw (route_of-offer host c.base is_client.based, header_lem c.secret, faithful.offers body)
        (post_offer_lem s c.secret body is_client.allowed given role_given)

  pub served-get_offer :
      (role : Bytes)
      → IsGiven role
      → served format host s (get_offer c session role)
        ≡ (s, found_or_404 (lookup (key session role) s.offers))
  unfolding served bytes_eq
  served-get_offer role role_given =
      rw (route_of-offer host c.base is_client.based, header_lem c.secret)
        (get_offer_lem s c.secret session role is_client.allowed given role_given)

  pub served-post_answer :
      (a : Offer)
      → served format host s (post_answer format c session a)
        ≡ (record s { answers = insert session a s.answers }, reply no_content)
  unfolding served bytes_eq
  served-post_answer a =
      let body : AnswerBody = record { session_id = session; answer = a } in
      rw (route_of-answer host c.base is_client.based, header_lem c.secret, faithful.answers body)
        (post_answer_lem s c.secret body is_client.allowed given)

  pub served-get_answer :
      served format host s (get_answer c session) ≡ (s, found_or_404 (lookup session s.answers))
  unfolding served bytes_eq
  served-get_answer =
      rw (route_of-answer host c.base is_client.based, header_lem c.secret)
        (get_answer_lem s c.secret session is_client.allowed given)
