-- ===== src/Ice/Meeting.antt =====
-- `Connect` of internal/ice/ice.go by both peers of a session, with the client of
-- internal/signaling/client.go, over the server of internal/signaling/server.go.
pub mod Exchanges
pub mod Ends
pub mod Refused
use nl_punch.Prelude.{ℕ, ◌∷◌, ◌++◌, List, Bytes, replicate}
use nl_punch.Config.{role_peer_a}
use nl_punch.Signaling.{Offer}
use nl_punch.Signaling.Server.{Server}
use nl_punch.Signaling.Client.{Exchange}
use nl_punch.Signaling.Client.Requests.{
  Client, JsonFormat, post_offer, post_answer, get_offer, get_answer, served, exchanged,
}
use nl_punch.Ice.{Requests}
use nl_punch.Ice.Rendezvous.{echo}

module _ {ℓ} {Json : Type ℓ} (format : JsonFormat Json) (host session : Bytes) where
  -- The server after peer-a has posted its offer, and after peer-b has answered it.
  abbrev pub offered : Client → Server → Offer → Server
  offered c s a = (served format host s (post_offer format c session role_peer_a a)).0

  abbrev pub answered : Client → Server → Offer → Offer → Server
  answered c s a b = (served format host s (post_answer format c session (echo a b))).0

  -- The requests of a peer that posts to the one server, polls another some times, and polls a
  -- third one then.
  abbrev pub requests_a : Client → Server → Server → Server → ℕ → List Exchange → Requests
  requests_a c at_post early late count later = record {
    post = λ o. exchanged format host at_post (post_offer format c session role_peer_a o);
    polls =
        replicate count (exchanged format host early (get_answer c session))
        ++ exchanged format host late (get_answer c session) ∷ later;
  }

  abbrev pub requests_b : Client → Server → Server → Server → ℕ → List Exchange → Requests
  requests_b c at_post early late count later = record {
    post = λ o. exchanged format host at_post (post_answer format c session o);
    polls =
        replicate count (exchanged format host early (get_offer c session role_peer_a))
        ++ exchanged format host late (get_offer c session role_peer_a) ∷ later;
  }
