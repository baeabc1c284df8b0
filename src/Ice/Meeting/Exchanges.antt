-- ===== src/Ice/Meeting/Exchanges.antt =====
-- From an exchange to the end of `Connect` (internal/ice/ice.go), where the library's calls go well.
use nl_punch.Prelude.{
  ℕ, zero, suc, List, Bytes, replicate, All, nat_eq, string_eq, bytes_eq, false, Option, none, some,
  ◌≡◌, ◌≢◌, refl, ◌∙◌,
}
use nl_punch.Stream.{ok, err}
use nl_punch.Config.{role_peer_a}
use nl_punch.Signaling.{Offer}
use nl_punch.Signaling.Server.{found_or_404}
use nl_punch.Signaling.Client.{
  err_not_found, do_get, do_post, on_status, await_answer_matching, await_offer,
}
use nl_punch.Ice.{
  Pion, IceError, agent_closed, Gathering, gathered, timed_out, gather_cancelled, starts, Requests,
  is_controlling, encode_to_string, exchange, exchange_controlling, exchange_controlled,
  start_agent, handshake, with_credentials, offer_of, after_gathering, connect,
}
use nl_punch.Ice.Rendezvous.{echo, exchange_of}

-- The library's calls up to the exchange went well.
pub record IsGathered {ℓ κ} {E : Type ℓ} {Candidate : Type κ} (pion : Pion E Candidate)
    (c : Bytes × Bytes) : Type (ℓ ⊔ κ) where
  pub made : pion.new_agent ≡ none
  pub watched : pion.on_candidate ≡ none
  pub gathers : pion.gather_candidates ≡ none
  pub waited : pion.gathering ≢ gather_cancelled
  pub has_credentials : pion.credentials ≡ ok c

pub All-replicate {ℓ κ} :
    {A : Type ℓ} (P : A → Type κ) (n : ℕ) (x : A) → P x → All P (replicate n x)
All-replicate P zero x h = tt
All-replicate P (suc n) x h = (h, All-replicate P n x h)

pub missing_lem :
    (o : Option Offer) → o ≡ none → do_get (exchange_of (found_or_404 o)) ≡ err err_not_found
unfolding do_get on_status
missing_lem none h = refl
missing_lem (some x) h = cc h

module _ {ℓ κ} {E : Type ℓ} {Candidate : Type κ} (pion : Pion E Candidate) (c : Bytes × Bytes) where
  after_gathering-ok :
      (role : Bytes) (random : Option Bytes) (requests : Requests) (g : Gathering)
      → g ≢ gather_cancelled
      → pion.credentials ≡ ok c
      → after_gathering pion role random requests g ≡ handshake pion role random requests c
  unfolding after_gathering with_credentials
  after_gathering-ok role random requests gathered waited h = rw h
  after_gathering-ok role random requests timed_out waited h = rw h
  after_gathering-ok role random requests gather_cancelled waited h = absurd (waited refl)

  handshake-exchange :
      (role r : Bytes) (requests : Requests) (peer : Offer)
      → exchange {E = E} role requests (offer_of pion c (encode_to_string r)) ≡ ok peer
      → handshake pion role (some r) requests c ≡ starts (start_agent pion role peer)
  unfolding handshake
  handshake-exchange role r requests peer h = rw (handshake, h)

  handshake-refused :
      (role r : Bytes) (requests : Requests) (e : IceError E)
      → exchange role requests (offer_of pion c (encode_to_string r)) ≡ err e
      → handshake pion role (some r) requests c ≡ agent_closed e
  unfolding handshake
  handshake-refused role r requests e h = rw (handshake, h)

  connect-handshake {μ} :
      {Uri : Type μ} (urls : List Uri) (role r : Bytes) (requests : Requests)
      → IsGathered pion c
      → connect (ok urls) pion role (some r) requests ≡ handshake pion role (some r) requests c
  unfolding connect
  connect-handshake urls role r requests w =
      rw (connect, w.made, w.watched, w.gathers)
        (after_gathering-ok role (some r) requests pion.gathering w.waited w.has_credentials)

  -- `Connect` after a whole exchange, and after one that has failed.
  pub connect-exchange {μ} :
      {Uri : Type μ} (urls : List Uri) (role r : Bytes) (requests : Requests) (peer : Offer)
      → IsGathered pion c
      → exchange {E = E} role requests (offer_of pion c (encode_to_string r)) ≡ ok peer
      → connect (ok urls) pion role (some r) requests ≡ starts (start_agent pion role peer)
  connect-exchange urls role r requests peer w h =
      connect-handshake urls role r requests w ∙ handshake-exchange role r requests peer h

  pub connect-refused {μ} :
      {Uri : Type μ} (urls : List Uri) (role r : Bytes) (requests : Requests) (e : IceError E)
      → IsGathered pion c
      → exchange role requests (offer_of pion c (encode_to_string r)) ≡ err e
      → connect (ok urls) pion role (some r) requests ≡ agent_closed e
  connect-refused urls role r requests e w h =
      connect-handshake urls role r requests w ∙ handshake-refused role r requests e h

module _ {ℓ} {E : Type ℓ} (requests : Requests) (mine peer : Offer) where
  pub controlling_lem :
      do_post (requests.post mine) ≡ none
      → await_answer_matching mine.gen requests.polls ≡ ok peer
      → exchange {E = E} role_peer_a requests mine ≡ ok peer
  unfolding exchange exchange_controlling bytes_eq
  controlling_lem posted found = rw (exchange_controlling, posted, found)

  pub controlled_lem :
      (role : Bytes)
      → is_controlling role ≡ false
      → await_offer requests.polls ≡ ok peer
      → do_post (requests.post (echo peer mine)) ≡ none
      → exchange {E = E} role requests mine ≡ ok peer
  unfolding exchange exchange_controlled
  controlled_lem role passive found posted = rw (passive, exchange_controlled, found, posted)
