-- ===== src/Tests/Signaling.antt =====
-- A server with the secret "k" and the sessions "s" and "t".
use nl_punch.Prelude.{List, All, [], ◌∷◌, Bytes, nat_eq, string_eq, ◌≡◌, arith}
use nl_punch.Signaling.{Offer}
use nl_punch.Signaling.Server.{Server, new_server, OfferBody, AnswerBody}
use nl_punch.Signaling.Server.Keys.{IsPlain}
use nl_punch.Signaling.Server.History.{
  Operation, requests, clears, responses, promised, IsPlainOperation,
}
use nl_punch.Signaling.Server.Refinement.{responses-promised}
use nl_punch.Signaling.Server.Requests.{offer_post, offer_get, answer_post, answer_get}

abbrev secret : Bytes
secret = b'k' ∷ []

abbrev server : Server
server = new_server secret

abbrev offer : Offer
offer = record { ufrag = 1 ∷ []; pwd = 2 ∷ []; candidates = []; gen = 3 ∷ [] }

abbrev session : Bytes
session = b's' ∷ []

abbrev role : Bytes
role = b'a' ∷ []

abbrev offered : OfferBody
offered = record { session_id = session; role = role; offer = offer }

abbrev answered : AnswerBody
answered = record { session_id = session; answer = offer }

session-IsPlain : IsPlain session
session-IsPlain = ((λ e. omega (arith, e)), tt)

-- An offer, its answer, a request without the secret, another offer, and a clear.
abbrev operations : List Operation
operations =
    requests (offer_post secret offered)
    ∷ requests (answer_post secret answered)
    ∷ requests (answer_get [] session)
    ∷ requests (offer_post secret offered)
    ∷ requests (answer_get secret session)
    ∷ clears session
    ∷ requests (offer_get secret session role)
    ∷ []

operations-IsPlain : All IsPlainOperation operations
operations-IsPlain = (
  (session-IsPlain, tt),
  (
    (tt, tt),
    (
      (tt, session-IsPlain),
      (
        (session-IsPlain, tt),
        ((tt, session-IsPlain), (session-IsPlain, ((tt, session-IsPlain), tt))),
      ),
    ),
  ),
)

responses-promised_example :
    responses (new_server secret) operations ≡ promised secret [] operations
responses-promised_example = responses-promised secret operations operations-IsPlain
