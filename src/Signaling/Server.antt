-- ===== src/Signaling/Server.antt =====
-- internal/signaling/server.go. A request is what the handlers read of it: the body as each handler
-- decodes it (`none` where the decoder fails), the query parameters (empty where missing), the
-- secret header. Each handler's critical section is one step.
pub mod Keys
pub mod Requests
pub mod Laws
pub mod History
pub mod Refinement
use nl_punch.Prelude.{
  [], ℕ, ◌∷◌, ◌++◌, Bytes, nat_eq, bytes_eq, ◌==◌, ◌&&◌, ◌||◌, not, Bool, true, false,
  if◌then◌else◌, Option, none, some, string_eq,
}
use nl_punch.Prelude.Dict.{Dict, lookup, insert, delete}
use nl_punch.Signaling.{Offer}

pub record Server : Type 0 where
  pub secret : Bytes
  pub offers : Dict Bytes Offer
  pub answers : Dict Bytes Offer

abbrev pub new_server : Bytes → Server
new_server secret = record { secret = secret; offers = []; answers = [] }

pub record OfferBody : Type 0 where
  pub session_id : Bytes
  pub role : Bytes
  pub offer : Offer

pub record AnswerBody : Type 0 where
  pub session_id : Bytes
  pub answer : Offer

pub data Method : Type 0 where
  post get other_method : Method

pub data Route : Type 0 where
  offer_route answer_route other_route : Route

pub record Request : Type 0 where
  pub method : Method
  pub route : Route
  pub secret_header : Bytes
  pub offer_body : Option OfferBody
  pub answer_body : Option AnswerBody
  pub session_param : Bytes
  pub role_param : Bytes

-- The status code, and the JSON value that `writeJSON` encodes.
pub record Response : Type 0 where
  pub status : ℕ
  pub payload : Option Offer

abbrev pub reply : ℕ → Response
reply code = record { status = code; payload = none }

abbrev pub no_content : ℕ
no_content = 204

abbrev bad_request : ℕ
bad_request = 400

abbrev pub unauthorized : ℕ
unauthorized = 401

abbrev pub not_found : ℕ
not_found = 404

abbrev method_not_allowed : ℕ
method_not_allowed = 405

abbrev pub write_json : Offer → Response
write_json o = record { status = 200; payload = some o }

-- sessionID + "|" + role
abbrev pub key : Bytes → Bytes → Bytes
key session role = session ++ b'|' ∷ role

abbrev pub is_empty : Bytes → Bool
is_empty [] = true
is_empty (b ∷ s) = false

abbrev pub found_or_404 : Option Offer → Response
found_or_404 none = reply not_found
found_or_404 (some o) = write_json o

post_offer : Server → Option OfferBody → Server × Response
post_offer s none = (s, reply bad_request)
post_offer s (some body) =
    if is_empty body.session_id || is_empty body.role then (s, reply bad_request) else (
      record s {
        offers = insert (key body.session_id body.role) body.offer s.offers;
        answers = delete body.session_id s.answers;
      },
      reply no_content,
    )

get_offer : Server → Bytes → Bytes → Server × Response
get_offer s session role =
    if is_empty session || is_empty role
    then (s, reply bad_request)
    else (s, found_or_404 (lookup (key session role) s.offers))

offer_by_method : Server → Request → Method → Server × Response
unfolding post_offer get_offer
offer_by_method s r post = post_offer s r.offer_body
offer_by_method s r get = get_offer s r.session_param r.role_param
offer_by_method s r other_method = (s, reply method_not_allowed)

handle_offer : Server → Request → Server × Response
unfolding offer_by_method
handle_offer s r = offer_by_method s r r.method

post_answer : Server → Option AnswerBody → Server × Response
post_answer s none = (s, reply bad_request)
post_answer s (some body) =
    if is_empty body.session_id
    then (s, reply bad_request)
    else (record s { answers = insert body.session_id body.answer s.answers }, reply no_content)

get_answer : Server → Bytes → Server × Response
get_answer s session =
    if is_empty session
    then (s, reply bad_request)
    else (s, found_or_404 (lookup session s.answers))

answer_by_method : Server → Request → Method → Server × Response
unfolding post_answer get_answer
answer_by_method s r post = post_answer s r.answer_body
answer_by_method s r get = get_answer s r.session_param
answer_by_method s r other_method = (s, reply method_not_allowed)

handle_answer : Server → Request → Server × Response
unfolding answer_by_method
handle_answer s r = answer_by_method s r r.method

mux : Server → Request → Route → Server × Response
unfolding handle_offer handle_answer
mux s r offer_route = handle_offer s r
mux s r answer_route = handle_answer s r
mux s r other_route = (s, reply not_found)

-- `Handler`: the mux behind `authMiddleware`.
unfoldable pub serve : Server → Request → Server × Response
unfolding mux
serve s r =
    if not (is_empty s.secret) && not (bytes_eq r.secret_header s.secret)
    then (s, reply unauthorized)
    else mux s r r.route

-- strings.HasPrefix(k, p), with the prefix first
pub has_prefix : Bytes → Bytes → Bool
has_prefix [] k = true
has_prefix (b ∷ p) [] = false
has_prefix (b ∷ p) (c ∷ k) = b == c && has_prefix p k

-- for k := range m { if strings.HasPrefix(k, p) { delete(m, k) } }
pub delete_prefix : Bytes → Dict Bytes Offer → Dict Bytes Offer
delete_prefix p [] = []
delete_prefix p ((k, o) ∷ m) =
    let rest = delete_prefix p m in if has_prefix p k then rest else (k, o) ∷ rest

pub clear : Server → Bytes → Server
unfolding delete_prefix
clear s session = record s {
  offers = delete_prefix (session ++ b'|' ∷ []) s.offers;
  answers = delete session s.answers;
}
