-- ===== src/Tests/Meeting.antt =====
-- A session in which both peers call `Connect`; a JSON text stands for itself.
use nl_punch.Prelude.{
  ℕ, [], ◌∷◌, List, Bytes, true, false, codes, arith, nat_eq, string_eq, bytes_eq, Option, none,
  some, ◌≡◌, ◌⊎◌, refl, inl, inr,
}
use nl_punch.Prelude.Dict.{lookup}
use nl_punch.Stream.{ok}
use nl_punch.Config.{role_peer_a}
use nl_punch.Signaling.{Offer}
use nl_punch.Signaling.Server.{Server, OfferBody, AnswerBody, new_server, key}
use nl_punch.Signaling.Server.Requests.{IsGiven}
use nl_punch.Signaling.Client.{client_base, trim_right, has_suffix}
use nl_punch.Signaling.Client.Requests.{Client, new_client, JsonFormat}
use nl_punch.Signaling.Client.Requests.Served.{IsFaithful, IsClientOf}
use nl_punch.Ice.{
  agent_closed, post_offer, await_offer_failed, Pion, gathered, timed_out, dial, accept, starts,
  is_controlling, connect, encode_to_string, offer_of, install,
}
use nl_punch.Ice.Meeting.{offered, answered, requests_a, requests_b}
use nl_punch.Ice.Meeting.Exchanges.{IsGathered}
use nl_punch.Ice.Meeting.Ends.{both_connect}
use nl_punch.Ice.Meeting.Refused.{IsStranger, both_refused}
use nl_punch.Signaling.Client.{refused}

abbrev Json : Type 0
Json = OfferBody ⊎ AnswerBody

abbrev unmarshal_offer : Json → Option OfferBody
unmarshal_offer (inl b) = some b
unmarshal_offer (inr b) = none

abbrev unmarshal_answer : Json → Option AnswerBody
unmarshal_answer (inl b) = none
unmarshal_answer (inr b) = some b

abbrev format : JsonFormat Json
format = record {
  marshal_offer = inl;
  marshal_answer = inr;
  unmarshal_offer = unmarshal_offer;
  unmarshal_answer = unmarshal_answer;
}

format-IsFaithful : IsFaithful format
format-IsFaithful = record { offers = λ b. refl; answers = λ b. refl }

abbrev host : Bytes
host = codes "http://h:1"

abbrev session : Bytes
session = codes "s"

abbrev server : Server
server = new_server (codes "key")

-- One of them is given the path, the other one the address with a slash.
abbrev client_a : Client
client_a = new_client (codes "http://h:1/punch") (codes "key")

abbrev client_b : Client
client_b = new_client (codes "http://h:1/") (codes "key")

client_a-IsClientOf : IsClientOf host server client_a
unfolding client_base trim_right has_suffix bytes_eq
client_a-IsClientOf = record { based = refl; allowed = inr refl }

client_b-IsClientOf : IsClientOf host server client_b
unfolding client_base trim_right has_suffix bytes_eq
client_b-IsClientOf = record { based = refl; allowed = inr refl }

abbrev candidate : Bytes → Option ℕ
candidate [] = none
candidate (b ∷ s) = some b

abbrev pion_a : Pion ℕ ℕ
pion_a = record {
  new_agent = none;
  on_candidate = none;
  gather_candidates = none;
  gathering = gathered;
  credentials = ok (1 ∷ [], 2 ∷ []);
  candidates = [] ∷ (7 ∷ []) ∷ [];
  unmarshal_candidate = candidate;
  adds = λ n. true;
}

abbrev pion_b : Pion ℕ ℕ
pion_b = record pion_a {
  gathering = timed_out;
  credentials = ok (3 ∷ [], 4 ∷ []);
  candidates = (9 ∷ []) ∷ [];
}

pion_a-IsGathered : IsGathered pion_a (1 ∷ [], 2 ∷ [])
pion_a-IsGathered = record {
  made = refl;
  watched = refl;
  gathers = refl;
  waited = λ e. cc e;
  has_credentials = refl;
}

pion_b-IsGathered : IsGathered pion_b (3 ∷ [], 4 ∷ [])
pion_b-IsGathered = record {
  made = refl;
  watched = refl;
  gathers = refl;
  waited = λ e. cc e;
  has_credentials = refl;
}

session-IsGiven : IsGiven session
session-IsGiven e = cc e

peer_b_passive : is_controlling (codes "peer-b") ≡ false
unfolding bytes_eq
peer_b_passive = refl

offer_free : lookup (key session role_peer_a) server.offers ≡ none
unfolding lookup
offer_free = refl

abbrev offer_a : Offer
offer_a = offer_of pion_a (1 ∷ [], 2 ∷ []) (encode_to_string (18 ∷ []))

abbrev offer_b : Offer
offer_b = offer_of pion_b (3 ∷ [], 4 ∷ []) (encode_to_string (19 ∷ []))

abbrev asked : Server
asked = offered format host session client_a server offer_a

abbrev no_urls : List ℕ
no_urls = []

-- Peer-a polls twice too early, peer-b once.
both_connect_example :
    (connect (ok no_urls) pion_a role_peer_a (some (18 ∷ [])) (
        requests_a format host session client_a server asked
          (answered format host session client_b asked offer_a offer_b)
          2
          [])
      ≡ starts (dial (3 ∷ []) (4 ∷ []) (install pion_a offer_b.candidates)))
    × (connect
          (ok no_urls)
          pion_b
          (codes "peer-b")
          (some (19 ∷ []))
          (requests_b format host session client_b asked server asked 1 [])
        ≡ starts (accept (1 ∷ []) (2 ∷ []) (install pion_b offer_a.candidates)))
both_connect_example =
    both_connect format host session server client_a client_b pion_a pion_b no_urls no_urls
      (1 ∷ [], 2 ∷ []) (3 ∷ [], 4 ∷ []) (codes "peer-b") (18 ∷ []) (19 ∷ []) 2 1 [] []
      format-IsFaithful session-IsGiven client_a-IsClientOf client_b-IsClientOf pion_a-IsGathered
      pion_b-IsGathered peer_b_passive offer_free

-- One of the two has another key, the other one has none.
abbrev stranger : Client
stranger = new_client (codes "http://h:1") (codes "lock")

abbrev nobody : Client
nobody = new_client (codes "http://h:1") []

key-IsGiven : IsGiven server.secret
key-IsGiven e = cc e

stranger-IsStranger : IsStranger server stranger
stranger-IsStranger = record { guarded = key-IsGiven; other_secret = λ e. ground (arith, e) }

nobody-IsStranger : IsStranger server nobody
nobody-IsStranger = record { guarded = key-IsGiven; other_secret = λ e. cc e }

both_refused_example :
    (connect
        (ok no_urls)
        pion_a
        role_peer_a
        (some (18 ∷ []))
        (requests_a format host session stranger server server server 0 [])
      ≡ agent_closed (post_offer refused))
    × (connect
          (ok no_urls)
          pion_b
          (codes "peer-b")
          (some (19 ∷ []))
          (requests_b format host session nobody server server server 0 [])
        ≡ agent_closed (await_offer_failed refused))
    × (offered format host session stranger server offer_a ≡ server)
both_refused_example =
    both_refused format host session server stranger nobody pion_a pion_b no_urls no_urls
      (1 ∷ [], 2 ∷ []) (3 ∷ [], 4 ∷ []) (codes "peer-b") (18 ∷ []) (19 ∷ []) [] []
      stranger-IsStranger nobody-IsStranger pion_a-IsGathered pion_b-IsGathered peer_b_passive
