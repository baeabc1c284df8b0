-- ===== src/Signaling/Server/History.antt =====
-- The server of internal/signaling/server.go as its clients may see it: the history of what it has
-- accepted, from which it answers.
use nl_punch.Prelude.{
  ℕ, [], ◌∷◌, List, Bytes, nat_eq, string_eq, bytes_eq, ◌&&◌, ◌||◌, not, if◌then◌else◌, Option,
  none, some,
}
use nl_punch.Signaling.{Offer}
use nl_punch.Signaling.Server.{
  Server, OfferBody, AnswerBody, Method, post, get, other_method, Route, offer_route, answer_route,
  other_route, Request, Response, reply, no_content, bad_request, unauthorized, not_found,
  method_not_allowed, is_empty, found_or_404, serve, clear,
}
use nl_punch.Signaling.Server.Keys.{IsPlain}

-- What has been accepted, the latest first.
pub data Entry : Type 0 where
  offered : OfferBody → Entry
  answered : AnswerBody → Entry
  cleared : Bytes → Entry

-- The latest offer of a session and a role, if the session has not been cleared since.
unfoldable pub current_offer : Bytes → Bytes → List Entry → Option Offer
current_offer session role [] = none
current_offer session role (offered b ∷ log) =
    if bytes_eq b.session_id session && bytes_eq b.role role
    then some b.offer
    else current_offer session role log
current_offer session role (answered a ∷ log) = current_offer session role log
current_offer session role (cleared t ∷ log) =
    if bytes_eq t session then none else current_offer session role log

-- The latest answer of a session, if it has neither been cleared nor offered to since.
unfoldable pub current_answer : Bytes → List Entry → Option Offer
current_answer session [] = none
current_answer session (offered b ∷ log) =
    if bytes_eq b.session_id session then none else current_answer session log
current_answer session (answered a ∷ log) =
    if bytes_eq a.session_id session then some a.answer else current_answer session log
current_answer session (cleared t ∷ log) =
    if bytes_eq t session then none else current_answer session log

-- What a request asks for.
pub data Meaning : Type 0 where
  refused : ℕ → Meaning
  accepted : Entry → Meaning
  asks_offer : Bytes → Bytes → Meaning
  asks_answer : Bytes → Meaning

abbrev pub offer_meaning : Option OfferBody → Meaning
offer_meaning none = refused bad_request
offer_meaning (some b) =
    if is_empty b.session_id || is_empty b.role then refused bad_request else accepted (offered b)

abbrev pub answer_meaning : Option AnswerBody → Meaning
answer_meaning none = refused bad_request
answer_meaning (some a) =
    if is_empty a.session_id then refused bad_request else accepted (answered a)

abbrev pub meaning_of : Request → Route → Method → Meaning
meaning_of r offer_route post = offer_meaning r.offer_body
meaning_of r offer_route get =
    if is_empty r.session_param || is_empty r.role_param
    then refused bad_request
    else asks_offer r.session_param r.role_param
meaning_of r answer_route post = answer_meaning r.answer_body
meaning_of r answer_route get =
    if is_empty r.session_param then refused bad_request else asks_answer r.session_param
meaning_of r other_route m = refused not_found
meaning_of r _ other_method = refused method_not_allowed

abbrev pub meaning : Bytes → Request → Meaning
meaning secret r =
    if not (is_empty secret) && not (bytes_eq r.secret_header secret)
    then refused unauthorized
    else meaning_of r r.route r.method

-- The answer from a history, and the history after it.
abbrev pub respond : List Entry → Meaning → List Entry × Response
respond log (refused code) = (log, reply code)
respond log (accepted e) = (e ∷ log, reply no_content)
respond log (asks_offer session role) = (log, found_or_404 (current_offer session role log))
respond log (asks_answer session) = (log, found_or_404 (current_answer session log))

-- The session ids of a request hold no "|".
abbrev pub IsPlainBody : Option OfferBody → Type 0
IsPlainBody none = Unit
IsPlainBody (some b) = IsPlain b.session_id

abbrev pub HasPlainIds : Request → Type 0
HasPlainIds r = IsPlainBody r.offer_body × IsPlain r.session_param

-- The requests and the calls of `Clear`, in the order of `mu`.
pub data Operation : Type 0 where
  requests : Request → Operation
  clears : Bytes → Operation

unfoldable pub responses : Server → List Operation → List Response
responses s [] = []
responses s (requests r ∷ ops) = (serve s r).1 ∷ responses (serve s r).0 ops
responses s (clears t ∷ ops) = responses (clear s t) ops

-- What the history promises to answer.
unfoldable pub promised : Bytes → List Entry → List Operation → List Response
promised secret log [] = []
promised secret log (requests r ∷ ops) =
    let (log', x) = respond log (meaning secret r) in x ∷ promised secret log' ops
promised secret log (clears t ∷ ops) = promised secret (cleared t ∷ log) ops

abbrev pub IsPlainOperation : Operation → Type 0
IsPlainOperation (requests r) = HasPlainIds r
IsPlainOperation (clears t) = IsPlain t
