-- ===== src/Signaling/Client/Requests.antt =====
-- The requests of internal/signaling/client.go, and what the handlers of server.go read of
-- them. A JSON text is a value of a type of arguments: the texts and what the decoders make of them
-- are of the standard library, as are the query values, which the server reads as they were set.
pub mod Served
use nl_punch.Prelude.{
  [], ◌∷◌, ◌++◌, Bytes, codes, nat_eq, string_eq, bytes_eq, if◌then◌else◌, Option, none, some,
}
use nl_punch.Prelude.Dict.{Dict, lookup}
use nl_punch.Signaling.{Offer}
use nl_punch.Signaling.Server.{
  Server, OfferBody, AnswerBody, Method, post, get, Route, offer_route, answer_route, other_route,
  Request, Response, is_empty, serve,
}
use nl_punch.Signaling.Client.{Exchange, responded, client_base}

pub record Client : Type 0 where
  pub base : Bytes
  pub secret : Bytes

-- `NewClient`
abbrev pub new_client : Bytes → Bytes → Client
new_client base_url secret = record { base = client_base base_url; secret = secret }

pub record HttpRequest {ℓ} (Json : Type ℓ) : Type ℓ where
  pub method : Method
  -- without the query
  pub url : Bytes
  pub query : Dict Bytes Bytes
  -- empty where it is not set
  pub secret_header : Bytes
  pub body : Option Json

-- The request that `do` makes.
abbrev pub http_request {ℓ} :
    {Json : Type ℓ} → Client → Method → Bytes → Dict Bytes Bytes → Option Json → HttpRequest Json
http_request c method path query body = record {
  method = method;
  url = c.base ++ path;
  query = query;
  secret_header = if is_empty c.secret then [] else c.secret;
  body = body;
}

-- The two forms of JSON texts that a client writes, with what a handler decodes.
pub record JsonFormat {ℓ} (Json : Type ℓ) : Type ℓ where
  pub marshal_offer : OfferBody → Json
  pub marshal_answer : AnswerBody → Json
  pub unmarshal_offer : Json → Option OfferBody
  pub unmarshal_answer : Json → Option AnswerBody

module _ {ℓ} {Json : Type ℓ} (format : JsonFormat Json) where
  abbrev pub post_offer : Client → Bytes → Bytes → Offer → HttpRequest Json
  post_offer c session_id role o =
      http_request c post (codes "/offer") []
        (some (format.marshal_offer (record { session_id = session_id; role = role; offer = o })))

  abbrev pub post_answer : Client → Bytes → Offer → HttpRequest Json
  post_answer c session_id a =
      http_request c post (codes "/answer") []
        (some (format.marshal_answer (record { session_id = session_id; answer = a })))

-- q.Set
abbrev pub session_query : Bytes → Dict Bytes Bytes
session_query session_id = (codes "session_id", session_id) ∷ []

abbrev pub get_offer {ℓ} : {Json : Type ℓ} → Client → Bytes → Bytes → HttpRequest Json
get_offer c session_id role =
    http_request c get (codes "/offer") ((codes "role", role) ∷ session_query session_id) none

abbrev pub get_answer {ℓ} : {Json : Type ℓ} → Client → Bytes → HttpRequest Json
get_answer c session_id = http_request c get (codes "/answer") (session_query session_id) none

-- The patterns of the mux, for a server at this address.
unfoldable pub route_of : Bytes → Bytes → Route
route_of host url =
    if bytes_eq url (host ++ codes "/punch/offer")
    then offer_route
    else if bytes_eq url (host ++ codes "/punch/answer")
    then answer_route
    else other_route

-- r.URL.Query().Get
abbrev pub value_or_empty : Option Bytes → Bytes
value_or_empty none = []
value_or_empty (some v) = v

abbrev pub query_get : Bytes → Dict Bytes Bytes → Bytes
query_get k q = value_or_empty (lookup k q)

abbrev pub decoded_by {ℓ κ} :
    {Json : Type ℓ} {Body : Type κ} → (Json → Option Body) → Option Json → Option Body
decoded_by unmarshal none = none
decoded_by unmarshal (some j) = unmarshal j

-- The body is read by the handler of the route.
abbrev pub offer_of_route {ℓ} :
    {Json : Type ℓ} → JsonFormat Json → Route → Option Json → Option OfferBody
offer_of_route format offer_route body = decoded_by format.unmarshal_offer body
offer_of_route format _ body = none

abbrev pub answer_of_route {ℓ} :
    {Json : Type ℓ} → JsonFormat Json → Route → Option Json → Option AnswerBody
answer_of_route format answer_route body = decoded_by format.unmarshal_answer body
answer_of_route format _ body = none

module _ {ℓ} {Json : Type ℓ} (format : JsonFormat Json) (host : Bytes) where
  abbrev pub received_at : Route → HttpRequest Json → Request
  received_at route h = record {
    method = h.method;
    route = route;
    secret_header = h.secret_header;
    offer_body = offer_of_route format route h.body;
    answer_body = answer_of_route format route h.body;
    session_param = query_get (codes "session_id") h.query;
    role_param = query_get (codes "role") h.query;
  }

  -- What the server makes of a request.
  unfoldable pub served : Server → HttpRequest Json → Server × Response
  unfolding route_of lookup
  served s h = serve s (received_at (route_of host h.url) h)

  -- What `do` meets, as it reads the response.
  abbrev pub exchanged : Server → HttpRequest Json → Exchange
  exchanged s h = let r = (served s h).1 in responded r.status r.payload
