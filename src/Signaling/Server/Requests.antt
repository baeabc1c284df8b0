-- ===== src/Signaling/Server/Requests.antt =====
-- The requests that internal/signaling/server.go accepts, and what each of them does.
use nl_punch.Prelude.{
  [], ◌∷◌, Bytes, nat_eq, string_eq, bytes_eq, bytes_eq_iff, bytes_eq_ne, ◌&&◌, not, false, set,
  none, some, ◌≡◌, ◌≢◌, ◌⊎◌, refl, ap, ◌∙◌, arith, inl, inr,
}
use nl_punch.Prelude.Dict.{Dict, lookup, insert, delete}
use nl_punch.Signaling.{Offer}
use nl_punch.Signaling.Server.{
  Server, OfferBody, AnswerBody, Request, Response, post, get, offer_route, answer_route, reply,
  unauthorized, no_content, key, is_empty, found_or_404, mux, serve,
}

-- A request that passes the middleware.
abbrev pub IsAllowed : Server → Bytes → Type 0
IsAllowed s header = (s.secret ≡ []) ⊎ (header ≡ s.secret)

abbrev pub IsGiven : Bytes → Type 0
IsGiven s = s ≢ []

abbrev pub offer_post : Bytes → OfferBody → Request
offer_post header body = record {
  method = post;
  route = offer_route;
  secret_header = header;
  offer_body = some body;
  answer_body = none;
  session_param = [];
  role_param = [];
}

abbrev pub offer_get : Bytes → Bytes → Bytes → Request
offer_get header session role = record {
  method = get;
  route = offer_route;
  secret_header = header;
  offer_body = none;
  answer_body = none;
  session_param = session;
  role_param = role;
}

abbrev pub answer_post : Bytes → AnswerBody → Request
answer_post header body = record {
  method = post;
  route = answer_route;
  secret_header = header;
  offer_body = none;
  answer_body = some body;
  session_param = [];
  role_param = [];
}

abbrev pub answer_get : Bytes → Bytes → Request
answer_get header session = record {
  method = get;
  route = answer_route;
  secret_header = header;
  offer_body = none;
  answer_body = none;
  session_param = session;
  role_param = [];
}

given : (s : Bytes) → IsGiven s → is_empty s ≡ false
given [] h = absurd (h refl)
given (b ∷ s) h = refl

allowed :
    (s : Server) (header : Bytes)
    → IsAllowed s header
    → (not (is_empty s.secret) && not (bytes_eq header s.secret)) ≡ false
allowed s header (inl free) = rw free
allowed s header (inr same) = ground (arith, bytes_eq_iff header s.secret)

-- With a secret set, a request without it is answered 401 and changes nothing.
pub serve-unauthorized :
    (s : Server) (r : Request)
    → IsGiven s.secret
    → r.secret_header ≢ s.secret
    → serve s r ≡ (s, reply unauthorized)
unfolding serve
serve-unauthorized s r set wrong =
    rw (given s.secret set, bytes_eq_ne r.secret_header s.secret wrong)

serve-allowed :
    (s : Server) (r : Request) → IsAllowed s r.secret_header → serve s r ≡ mux s r r.route
unfolding serve
serve-allowed s r h = rw (allowed s r.secret_header h)

-- The state after an accepted offer.
pub post_offer_lem :
    (s : Server) (header : Bytes) (body : OfferBody)
    → IsAllowed s header
    → IsGiven body.session_id
    → IsGiven body.role
    → serve s (offer_post header body) ≡ (
      record s {
        offers = insert (key body.session_id body.role) body.offer s.offers;
        answers = delete body.session_id s.answers;
      },
      reply no_content,
    )
unfolding mux
post_offer_lem s header body ok session role =
    serve-allowed s (offer_post header body) ok
    ∙ rw (given body.session_id session, given body.role role)

pub get_offer_lem :
    (s : Server) (header session role : Bytes)
    → IsAllowed s header
    → IsGiven session
    → IsGiven role
    → serve s (offer_get header session role)
      ≡ (s, found_or_404 (lookup (key session role) s.offers))
unfolding mux
get_offer_lem s header session role ok hs hr =
    serve-allowed s (offer_get header session role) ok ∙ rw (given session hs, given role hr)

pub post_answer_lem :
    (s : Server) (header : Bytes) (body : AnswerBody)
    → IsAllowed s header
    → IsGiven body.session_id
    → serve s (answer_post header body)
      ≡ (record s { answers = insert body.session_id body.answer s.answers }, reply no_content)
unfolding mux
post_answer_lem s header body ok session =
    serve-allowed s (answer_post header body) ok ∙ rw (given body.session_id session)

pub get_answer_lem :
    (s : Server) (header session : Bytes)
    → IsAllowed s header
    → IsGiven session
    → serve s (answer_get header session) ≡ (s, found_or_404 (lookup session s.answers))
unfolding mux
get_answer_lem s header session ok hs =
    serve-allowed s (answer_get header session) ok ∙ rw (given session hs)

-- A read after a step that kept the secret.
pub offer_response :
    (s : Server) (header session role : Bytes)
    → IsAllowed s header
    → IsGiven session
    → IsGiven role
    → {o : Server × Response} {offers answers : Dict Bytes Offer} {r : Response}
    → o ≡ (record { secret = s.secret; offers = offers; answers = answers }, r)
    → (serve o.0 (offer_get header session role)).1
      ≡ found_or_404 (lookup (key session role) offers)
offer_response s header session role ok hs hr {offers} {answers} e =
    ap (λ o. (serve o.0 (offer_get header session role)).1) e
    ∙ ap (λ o. o.1)
        (get_offer_lem (record { secret = s.secret; offers = offers; answers = answers }) header
          session role ok hs hr)

pub answer_response :
    (s : Server) (header session : Bytes)
    → IsAllowed s header
    → IsGiven session
    → {o : Server × Response} {offers answers : Dict Bytes Offer} {r : Response}
    → o ≡ (record { secret = s.secret; offers = offers; answers = answers }, r)
    → (serve o.0 (answer_get header session)).1 ≡ found_or_404 (lookup session answers)
answer_response s header session ok hs {offers} {answers} e =
    ap (λ o. (serve o.0 (answer_get header session)).1) e
    ∙ ap (λ o. o.1)
        (get_answer_lem (record { secret = s.secret; offers = offers; answers = answers }) header
          session ok hs)
