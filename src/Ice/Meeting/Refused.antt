-- ===== src/Ice/Meeting/Refused.antt =====
-- `Connect` of both peers with a secret that is not the signaling server's.
use nl_punch.Prelude.{
  ◌∷◌, List, Bytes, nat_eq, string_eq, bytes_eq, false, some, ◌≡◌, ◌≢◌, sym, ap, ◌∙◌,
}
use nl_punch.Stream.{ok, err}
use nl_punch.Config.{role_peer_a}
use nl_punch.Signaling.{Offer}
use nl_punch.Signaling.Server.{Server, Response, reply, unauthorized}
use nl_punch.Signaling.Server.Requests.{IsGiven, serve-unauthorized}
use nl_punch.Signaling.Client.{Exchange, refused, do_get, do_post, on_status, await_offer}
use nl_punch.Signaling.Client.Requests.{
  Client, JsonFormat, HttpRequest, received_at, route_of, served,
}
use nl_punch.Signaling.Client.Requests.Served.{header_lem}
use nl_punch.Ice.{
  Pion, agent_closed, post_offer, await_offer_failed, Requests, is_controlling, encode_to_string,
  exchange, exchange_controlling, exchange_controlled, offer_of, connect,
}
use nl_punch.Ice.Rendezvous.{exchange_of}
use nl_punch.Ice.Meeting.{offered, requests_a, requests_b}
use nl_punch.Ice.Meeting.Exchanges.{IsGathered, connect-refused}

-- The client does not have the server's secret.
pub record IsStranger (s : Server) (c : Client) : Type 0 where
  pub guarded : IsGiven s.secret
  pub other_secret : c.secret ≢ s.secret

-- Whatever it asks for.
served-IsStranger {ℓ} :
    {Json : Type ℓ} (format : JsonFormat Json) (host : Bytes) (s : Server) (c : Client)
    (h : HttpRequest Json)
    → IsStranger s c
    → h.secret_header ≡ c.secret
    → served format host s h ≡ (s, reply unauthorized)
unfolding served
served-IsStranger format host s c h v e =
    serve-unauthorized s (received_at format host (route_of host h.url) h) v.guarded
      (λ same. v.other_secret (sym e ∙ same))

post_refused :
    (x : Server × Response) {s : Server}
    → x ≡ (s, reply unauthorized)
    → do_post (exchange_of x.1) ≡ some refused
unfolding do_post on_status
post_refused x e = rw e

get_refused :
    (x : Server × Response) {s : Server}
    → x ≡ (s, reply unauthorized)
    → do_get (exchange_of x.1) ≡ err refused
unfolding do_get on_status
get_refused x e = rw e

await_offer-refused :
    (x : Exchange) (later : List Exchange)
    → do_get x ≡ err refused
    → await_offer (x ∷ later) ≡ err refused
unfolding await_offer
await_offer-refused x later e = rw e

module _ {ℓ} {E : Type ℓ} (requests : Requests) (mine : Offer) where
  controlling_refused :
      do_post (requests.post mine) ≡ some refused
      → exchange {E = E} role_peer_a requests mine ≡ err (post_offer refused)
  unfolding exchange exchange_controlling bytes_eq
  controlling_refused failed = rw (exchange_controlling, failed)

  controlled_refused :
      (role : Bytes)
      → is_controlling role ≡ false
      → await_offer requests.polls ≡ err refused
      → exchange {E = E} role requests mine ≡ err (await_offer_failed refused)
  unfolding exchange exchange_controlled
  controlled_refused role passive failed = rw (passive, exchange_controlled, failed)

-- With a secret that is not the server's, neither peer connects: peer-a's offer is refused, and so is
-- the first poll of peer-b; both close their agents and return that error, and the offer changes
-- nothing on the server, whatever it holds. The library's calls go well.
pub both_refused {ℓ κ μ} :
    {Json : Type ℓ} {E Candidate : Type κ} {Uri : Type μ} (format : JsonFormat Json)
    (host session : Bytes) (server : Server) (c_a c_b : Client) (pion_a pion_b : Pion E Candidate)
    (urls_a urls_b : List Uri) (credentials_a credentials_b : Bytes × Bytes)
    (role_b random_a random_b : Bytes) (later_a later_b : List Exchange)
    → IsStranger server c_a
    → IsStranger server c_b
    → IsGathered pion_a credentials_a
    → IsGathered pion_b credentials_b
    → is_controlling role_b ≡ false
    → let a = offer_of pion_a credentials_a (encode_to_string random_a) in
      (connect
          (ok urls_a)
          pion_a
          role_peer_a
          (some random_a)
          (requests_a format host session c_a server server server 0 later_a)
        ≡ agent_closed (post_offer refused))
      × (connect
            (ok urls_b)
            pion_b
            role_b
            (some random_b)
            (requests_b format host session c_b server server server 0 later_b)
          ≡ agent_closed (await_offer_failed refused))
      × (offered format host session c_a server a ≡ server)
both_refused format host session server c_a c_b pion_a pion_b urls_a urls_b credentials_a
      credentials_b role_b random_a random_b later_a later_b stranger_a stranger_b gathered_a
      gathered_b passive =
    let posted = served-IsStranger format host server c_a _ stranger_a (header_lem c_a.secret) in
    let polled = served-IsStranger format host server c_b _ stranger_b (header_lem c_b.secret) in
    (
      connect-refused pion_a credentials_a urls_a role_peer_a random_a _ _ gathered_a
          (controlling_refused _ _ (post_refused _ posted)),
      connect-refused pion_b credentials_b urls_b role_b random_b _ _ gathered_b (
          controlled_refused _ _ role_b passive
            (await_offer-refused _ later_b (get_refused _ polled))),
      ap (λ o. o.0) posted,
    )
