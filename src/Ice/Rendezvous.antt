-- ===== src/Ice/Rendezvous.antt =====
-- The exchange of offer and answer in `Connect` (internal/ice/ice.go), by the two peers of one
-- session over the signaling server, with other sessions between their requests. A step is one
-- request, with what its answer makes the peer do; a peer may begin a new attempt at any time. The
-- logs of what was posted are not part of the program.
pub mod Invariant
pub mod Pairing
pub mod Progress
use nl_punch.Prelude.{[], ℕ, ◌∷◌, List, Bytes, nat_eq, true, All, ◌≡◌, ◌≢◌}
use nl_punch.Stream.{ok}
use nl_punch.Config.{role_peer_a}
use nl_punch.Signaling.{Offer}
use nl_punch.Signaling.Server.{Server, OfferBody, AnswerBody, Response, serve}
use nl_punch.Signaling.Server.Keys.{IsPlain}
use nl_punch.Signaling.Server.Requests.{IsGiven, offer_post, offer_get, answer_post, answer_get}
use nl_punch.Signaling.Client.{Exchange, responded, do_get, is_wanted}

-- Where the controlling peer stands: with the offer that it has posted, and the answer that it took.
pub data Controlling : Type 0 where
  a_idle : Controlling
  a_waits : Offer → Controlling
  a_connects : Offer → Offer → Controlling

-- Where the controlled peer stands: with the offer that it has read, and the answer that it posted.
pub data Controlled : Type 0 where
  b_idle : Controlled
  b_has : Offer → Controlled
  b_connects : Offer → Offer → Controlled

pub record System : Type 0 where
  pub server : Server
  pub a : Controlling
  pub b : Controlled
  pub offered : List Offer
  pub answered : List (Offer × Offer)

abbrev pub init : Server → System
init server = record { server = server; a = a_idle; b = b_idle; offered = []; answered = [] }

-- What the client's `do` sees of a response.
abbrev pub exchange_of : Response → Exchange
exchange_of r = responded r.status r.payload

-- myOffer.Gen = peer.Gen
abbrev pub echo : Offer → Offer → Offer
echo peer mine = record mine { gen = peer.gen }

module _ (header session : Bytes) where
  -- Peer-a posts its offer.
  abbrev pub offer_of : Offer → OfferBody
  offer_of o = record { session_id = session; role = role_peer_a; offer = o }

  abbrev pub answer_of : Offer → AnswerBody
  answer_of o = record { session_id = session; answer = o }

  abbrev pub after_offer : System → Offer → System
  after_offer s o = record s {
    server = (serve s.server (offer_post header (offer_of o))).0;
    a = a_waits o;
    offered = o ∷ s.offered;
  }

  abbrev pub after_answer : System → Offer → Offer → System
  after_answer s o mine = record s {
    server = (serve s.server (answer_post header (answer_of (echo o mine)))).0;
    b = b_connects o (echo o mine);
    answered = (o, echo o mine) ∷ s.answered;
  }

  pub data Step (s : System) : System → Type 0 where
    -- The nonce of the offer is one that no earlier attempt had.
    a_offers :
        (o : Offer) → All (λ p. p.gen ≢ o.gen) s.offered → IsGiven o.gen → Step s (after_offer s o)
    a_reads :
        (o answer : Offer)
        → s.a ≡ a_waits o
        → do_get (exchange_of (serve s.server (answer_get header session)).1) ≡ ok answer
        → is_wanted o.gen answer ≡ true
        → Step s (record s { a = a_connects o answer })
    b_reads :
        (o : Offer)
        → do_get (exchange_of (serve s.server (offer_get header session role_peer_a)).1) ≡ ok o
        → Step s (record s { b = b_has o })
    b_answers : (o mine : Offer) → s.b ≡ b_has o → Step s (after_answer s o mine)
    others_offer :
        (body : OfferBody)
        → body.session_id ≢ session
        → IsPlain body.session_id
        → IsGiven body.session_id
        → IsGiven body.role
        → Step s (record s { server = (serve s.server (offer_post header body)).0 })
    others_answer :
        (body : AnswerBody)
        → body.session_id ≢ session
        → IsGiven body.session_id
        → Step s (record s { server = (serve s.server (answer_post header body)).0 })

  pub data Reach (s : System) : System → Type 0 where
    here : Reach s s
    next : {t u : System} → Reach s t → Step t u → Reach s u
