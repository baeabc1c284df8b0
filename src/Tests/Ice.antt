-- ===== src/Tests/Ice.antt =====
-- A session whose controlling peer has begun a second attempt, and one whole `Connect`.
use nl_punch.Prelude.{
  ℕ, [], ◌∷◌, List, Bytes, codes, nat_eq, string_eq, bytes_eq, ◌<◌, ltb, length, Option, none, some,
  ◌≡◌, ◌≢◌, refl, arith, inl,
}
use nl_punch.Prelude.Dict.{lookup}
use nl_punch.Stream.{ok}
use nl_punch.Config.{role_peer_a}
use nl_punch.Signaling.{Offer}
use nl_punch.Signaling.Server.{Server, new_server, key}
use nl_punch.Signaling.Server.Keys.{IsPlain}
use nl_punch.Signaling.Server.Requests.{IsGiven, IsAllowed}
use nl_punch.Signaling.Client.{responded, do_post, do_get, on_status, await_answer_matching}
use nl_punch.Ice.{
  Pion, gathered, dial, starts, Requests, encode_to_string, exchange, exchange_controlling,
  start_agent, install, handshake, with_credentials, after_gathering, connect,
}
use nl_punch.Ice.Connect.{IsStarted, connect-starts}
use nl_punch.Ice.Rendezvous.{
  System, init, a_connects, b_has, b_connects, echo, after_offer, after_answer, a_offers, Step,
  Reach, here, next,
}
use nl_punch.Ice.Rendezvous.Invariant.{IsIn}
use nl_punch.Ice.Rendezvous.Pairing.{exchange_pairs}
use nl_punch.Ice.Rendezvous.Progress.{exchange_completes}

abbrev session : Bytes
session = b's' ∷ []

abbrev server : Server
server = new_server []

abbrev offer : ℕ → Offer
offer gen = record { ufrag = 1 ∷ []; pwd = 2 ∷ []; candidates = []; gen = gen ∷ [] }

session-IsGiven : IsGiven session
session-IsGiven e = cc e

session-IsPlain : IsPlain session
session-IsPlain = ((λ e. omega (arith, e)), tt)

is_allowed : IsAllowed server []
is_allowed = inl refl

offer_free : lookup (key session role_peer_a) server.offers ≡ none
unfolding lookup
offer_free = refl

answer_free : lookup session server.answers ≡ none
unfolding lookup
answer_free = refl

gen-IsGiven : (b : ℕ) → IsGiven (offer b).gen
gen-IsGiven b e = cc e

other_gen : (offer 5).gen ≢ (offer 6).gen
other_gen e = ground arith

-- Two attempts of the controlling peer.
abbrev restarted : System
restarted = after_offer [] session (after_offer [] session (init server) (offer 5)) (offer 6)

is_restarted : Reach [] session (init server) restarted
is_restarted =
    next (next here (a_offers (offer 5) tt (gen-IsGiven 5)))
      (a_offers (offer 6) (other_gen, tt) (gen-IsGiven 6))

abbrev has_read : System
has_read = record restarted { b = b_has (offer 6) }

abbrev has_answered : System
has_answered = after_answer [] session has_read (offer 6) (offer 0)

abbrev completed : System
completed = record has_answered { a = a_connects (offer 6) (echo (offer 6) (offer 0)) }

exchange_completes_example :
    Step [] session restarted has_read
    × Step [] session has_read has_answered
    × Step [] session has_answered completed
    × (completed.b ≡ b_connects (offer 6) (echo (offer 6) (offer 0)))
exchange_completes_example =
    exchange_completes [] session session-IsGiven session-IsPlain server restarted (offer 6)
      (offer 0) is_allowed offer_free answer_free is_restarted refl

completed_steps :
    Step [] session restarted has_read
    × Step [] session has_read has_answered
    × Step [] session has_answered completed
completed_steps =
    let (r, w, t, _) =
      exchange_completes [] session session-IsGiven session-IsPlain server restarted (offer 6)
        (offer 0) is_allowed offer_free answer_free is_restarted refl in
    (r, w, t)

is_completed : Reach [] session (init server) completed
is_completed = next (next (next is_restarted completed_steps.0) completed_steps.1) completed_steps.2

exchange_pairs_example :
    IsIn (offer 6, echo (offer 6) (offer 0)) completed.answered
    × ((echo (offer 6) (offer 0)).gen ≡ (offer 6).gen)
exchange_pairs_example =
    exchange_pairs [] session session-IsGiven session-IsPlain server completed (offer 6)
      (echo (offer 6) (offer 0)) is_allowed offer_free answer_free is_completed refl

-- Candidates are numbers: the length of what stands for them; those of no byte are bad, and the
-- agent refuses those of one byte.
abbrev candidate : Bytes → Option ℕ
candidate [] = none
candidate (b ∷ s) = some (length s)

abbrev peer : Offer
peer = record {
  ufrag = 7 ∷ [];
  pwd = 8 ∷ [];
  candidates = [] ∷ (1 ∷ []) ∷ (1 ∷ 2 ∷ []) ∷ [];
  gen = encode_to_string (18 ∷ []);
}

abbrev pion : Pion ℕ ℕ
pion = record {
  new_agent = none;
  on_candidate = none;
  gather_candidates = none;
  gathering = gathered;
  credentials = ok (1 ∷ [], 2 ∷ []);
  candidates = [];
  unmarshal_candidate = candidate;
  adds = ltb 0;
}

-- The second poll finds the answer.
abbrev no_urls : List ℕ
no_urls = []

abbrev requests : Requests
requests = record {
  post = λ o. responded 204 none;
  polls = responded 404 none ∷ responded 200 (some peer) ∷ [];
}

drawn : (r : Bytes) → some (18 ∷ []) ≡ some r → 0 < length r
drawn [] e = cc e
drawn (b ∷ r) e = omega arith

is_dialed :
    connect (ok no_urls) pion (codes "peer-a") (some (18 ∷ [])) requests
    ≡ starts (dial (7 ∷ []) (8 ∷ []) (1 ∷ []))
unfolding connect after_gathering with_credentials handshake exchange exchange_controlling
    start_agent install do_post do_get on_status await_answer_matching encode_to_string bytes_eq
is_dialed = refl

connect-starts_example :
    (c : Bytes × Bytes) × (pion.credentials ≡ ok c)
    × (r : Bytes) × (some (18 ∷ []) ≡ some r)
    × IsStarted pion (codes "peer-a") requests c r (dial (7 ∷ []) (8 ∷ []) (1 ∷ []))
connect-starts_example =
    connect-starts pion (codes "peer-a") requests (ok no_urls) (some (18 ∷ []))
      (dial (7 ∷ []) (8 ∷ []) (1 ∷ [])) drawn is_dialed
