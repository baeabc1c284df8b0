-- ===== src/Ice/Meeting/Ends.antt =====
-- How `Connect` ends for both peers of a session, over the signaling server.
use nl_punch.Prelude.{
  ℕ, List, Bytes, nat_eq, string_eq, bytes_eq_refl, bytes_eq, false, Option, none, some, ◌≡◌, refl,
  ap, ◌∙◌, arith,
}
use nl_punch.Prelude.Dict.{lookup, insert, delete, lookup-insert_self, lookup-delete_self}
use nl_punch.Stream.{ok, err}
use nl_punch.Config.{role_peer_a}
use nl_punch.Signaling.{Offer}
use nl_punch.Signaling.Server.{Server, key, found_or_404, Response, reply, no_content}
use nl_punch.Signaling.Server.Requests.{IsGiven}
use nl_punch.Signaling.Client.{Exchange, err_not_found, do_get, do_post, on_status}
use nl_punch.Signaling.Client.Polls.{
  IsPassed, goes_on, await_answer_matching_lem, IsMissing, await_offer_lem,
}
use nl_punch.Signaling.Client.Requests.{Client, JsonFormat}
use nl_punch.Signaling.Client.Requests.Served.{
  IsFaithful, IsClientOf, served-post_offer, served-get_offer, served-post_answer,
  served-get_answer,
}
use nl_punch.Ice.{
  Pion, starts, dial, accept, is_controlling, encode_to_string, exchange, install, start_agent,
  offer_of, connect,
}
use nl_punch.Ice.Rendezvous.{echo, exchange_of}
use nl_punch.Ice.Rendezvous.Invariant.{role-IsGiven}
use nl_punch.Ice.Rendezvous.Progress.{found_lem}
use nl_punch.Ice.Meeting.{offered, answered, requests_a, requests_b}
use nl_punch.Ice.Meeting.Exchanges.{
  IsGathered, All-replicate, missing_lem, connect-exchange, controlling_lem, controlled_lem,
}

post_lem :
    (x : Server × Response) {s : Server}
    → x ≡ (s, reply no_content)
    → do_post (exchange_of x.1) ≡ none
unfolding do_post on_status
post_lem x e = rw e

get_lem :
    (x : Server × Response) {s : Server} {o : Option Offer} {a : Offer}
    → x ≡ (s, found_or_404 o)
    → o ≡ some a
    → do_get (exchange_of x.1) ≡ ok a
get_lem x {s} {o} {a} e h = ap (λ r. do_get (exchange_of r.1)) e ∙ found_lem o a h

none_lem :
    (x : Server × Response) {s : Server} {o : Option Offer}
    → x ≡ (s, found_or_404 o)
    → o ≡ none
    → do_get (exchange_of x.1) ≡ err err_not_found
none_lem x {s} {o} e h = ap (λ r. do_get (exchange_of r.1)) e ∙ missing_lem o h

passed_lem : (gen : Bytes) (x : Exchange) → do_get x ≡ err err_not_found → IsPassed gen x
passed_lem gen x h = rw h refl

wanted_lem :
    (gen : Bytes) (x : Exchange) (a : Offer)
    → do_get x ≡ ok a
    → a.gen ≡ gen
    → goes_on gen (do_get x) ≡ false
wanted_lem gen x a h e = rw (h, e, bytes_eq_refl gen) (ground arith)

module _ {ℓ} {Json : Type ℓ} (format : JsonFormat Json) (faithful : IsFaithful format)
    (host session : Bytes) (given : IsGiven session) (server : Server) (c_a c_b : Client)
    (client_a : IsClientOf host server c_a) (client_b : IsClientOf host server c_b) where
  -- Where the offer of peer-a and the answer of peer-b are held.
  offered_lem :
      (a : Offer)
      → offered format host session c_a server a ≡ record server {
        offers = insert (key session role_peer_a) a server.offers;
        answers = delete session server.answers;
      }
  offered_lem a =
      ap (λ r. r.0)
        (served-post_offer format faithful host server c_a client_a session given role_peer_a a
          role-IsGiven)

  offered-IsClientOf :
      (c : Client) (a : Offer)
      → IsClientOf host server c
      → IsClientOf host (offered format host session c_a server a) c
  offered-IsClientOf c a v = record { based = v.based; allowed = rw (offered_lem a) v.allowed }

  module _ {κ} {E : Type κ} (a b : Offer) (count : ℕ) (later : List Exchange) where
    exchange_a :
        exchange {E = E} role_peer_a
          (requests_a format host session c_a server
            (offered format host session c_a server a)
            (answered format host session c_b (offered format host session c_a server a) a b)
            count
            later)
          a
        ≡ ok (echo a b)
    exchange_a =
        let answer = echo a b in
        let asked = offered format host session c_a server a in
        let v_a = offered-IsClientOf c_a a client_a in
        let v_b = offered-IsClientOf c_b a client_b in
        let asked_lem = offered_lem a in
        let posted = post_lem _ (
          served-post_offer format faithful host server c_a client_a session given role_peer_a a
            role-IsGiven) in
        let early =
          none_lem _ (served-get_answer format faithful host asked c_a v_a session given) (
            ap (λ s. lookup session s.answers) asked_lem
            ∙ lookup-delete_self session server.answers) in
        let answered_lem =
          ap (λ r. r.0)
            (served-post_answer format faithful host asked c_b v_b session given answer) in
        let v_late : IsClientOf host (answered format host session c_b asked a b) c_a = record {
          based = v_a.based;
          allowed = rw answered_lem v_a.allowed;
        } in
        let late = get_lem _ (served-get_answer format faithful host _ c_a v_late session given) (
          ap (λ s. lookup session s.answers) answered_lem
          ∙ lookup-insert_self session answer asked.answers) in
        let (found, ended) =
          await_answer_matching_lem a.gen _ later _
            (All-replicate (IsPassed a.gen) count _ (passed_lem a.gen _ early))
            (wanted_lem a.gen _ answer late refl) in
        controlling_lem _ a answer posted (found ∙ late)

    exchange_b :
        (role : Bytes)
        → is_controlling role ≡ false
        → lookup (key session role_peer_a) server.offers ≡ none
        → exchange {E = E} role
            (requests_b format host session c_b
              (offered format host session c_a server a)
              server
              (offered format host session c_a server a)
              count
              later)
            b
          ≡ ok a
    exchange_b role passive free =
        let asked = offered format host session c_a server a in
        let v = offered-IsClientOf c_b a client_b in
        let early =
          none_lem _
            (served-get_offer format faithful host server c_b client_b session given role_peer_a
              role-IsGiven)
            free in
        let late =
          get_lem _
            (served-get_offer format faithful host asked c_b v session given role_peer_a
              role-IsGiven)
            (ap (λ s. lookup (key session role_peer_a) s.offers) (offered_lem a)
              ∙ lookup-insert_self (key session role_peer_a) a server.offers) in
        controlled_lem _ b a role passive
          (await_offer_lem _ later _ a (All-replicate IsMissing count _ early) late)
          (post_lem _
            (served-post_answer format faithful host asked c_b v session given (echo a b)))

-- Both peers of a session call `Connect` over a server that holds no offer of it. Peer-b polls any
-- number of times before peer-a posts its offer, reads it and posts its answer; peer-a polls any
-- number of times before that, and reads it. Then peer-a dials with the credentials of peer-b and
-- those of its candidates that could be added, and peer-b accepts with those of peer-a. The
-- library's calls go well, and the clients have the server's address and secret.
pub both_connect {ℓ κ μ} :
    {Json : Type ℓ} {E Candidate : Type κ} {Uri : Type μ} (format : JsonFormat Json)
    (host session : Bytes) (server : Server) (c_a c_b : Client) (pion_a pion_b : Pion E Candidate)
    (urls_a urls_b : List Uri) (credentials_a credentials_b : Bytes × Bytes)
    (role_b random_a random_b : Bytes) (count_a count_b : ℕ) (later_a later_b : List Exchange)
    → IsFaithful format
    → IsGiven session
    → IsClientOf host server c_a
    → IsClientOf host server c_b
    → IsGathered pion_a credentials_a
    → IsGathered pion_b credentials_b
    → is_controlling role_b ≡ false
    → lookup (key session role_peer_a) server.offers ≡ none
    → let a = offer_of pion_a credentials_a (encode_to_string random_a) in
      let b = offer_of pion_b credentials_b (encode_to_string random_b) in
      let asked = offered format host session c_a server a in
      let done = answered format host session c_b asked a b in
      (connect
          (ok urls_a)
          pion_a
          role_peer_a
          (some random_a)
          (requests_a format host session c_a server asked done count_a later_a)
        ≡ starts (dial b.ufrag b.pwd (install pion_a b.candidates)))
      × (connect
            (ok urls_b)
            pion_b
            role_b
            (some random_b)
            (requests_b format host session c_b asked server asked count_b later_b)
          ≡ starts (accept a.ufrag a.pwd (install pion_b a.candidates)))
unfolding start_agent bytes_eq
both_connect format host session server c_a c_b pion_a pion_b urls_a urls_b credentials_a
      credentials_b role_b random_a random_b count_a count_b later_a later_b faithful given client_a
      client_b gathered_a gathered_b passive free =
    let a = offer_of pion_a credentials_a (encode_to_string random_a) in
    let b = offer_of pion_b credentials_b (encode_to_string random_b) in
    (
      connect-exchange pion_a credentials_a urls_a role_peer_a random_a _ (echo a b) gathered_a (
          exchange_a format faithful host session given server c_a c_b client_a client_b a b count_a
            later_a),
      connect-exchange pion_b credentials_b urls_b role_b random_b _ a gathered_b (
            exchange_b format faithful host session given server c_a c_b client_a client_b a b
              count_b later_b role_b passive free)
          ∙ rw passive,
    )
