-- ===== src/Ice/Rendezvous/Progress.antt =====
-- The exchange of `Connect` (internal/ice/ice.go) does not get stuck.
use mathlib.Core.Path.{subst}
use nl_punch.Prelude.{
  Bytes, nat_eq, string_eq, bytes_eq_refl, Option, none, some, some-injective, ◌≡◌, refl, ap, ◌∙◌,
  arith,
}
use nl_punch.Prelude.Dict.{lookup, lookup-insert_self}
use nl_punch.Stream.{ok}
use nl_punch.Config.{role_peer_a}
use nl_punch.Signaling.{Offer}
use nl_punch.Signaling.Server.{Server, key, found_or_404}
use nl_punch.Signaling.Server.Keys.{IsPlain}
use nl_punch.Signaling.Server.Requests.{
  IsGiven, IsAllowed, post_answer_lem, get_offer_lem, get_answer_lem,
}
use nl_punch.Signaling.Client.{do_get, on_status}
use nl_punch.Ice.Rendezvous.{
  a_waits, a_connects, b_has, b_connects, System, init, exchange_of, echo, answer_of, after_answer,
  a_reads, b_reads, b_answers, Step, Reach, here, next,
}
use nl_punch.Ice.Rendezvous.Invariant.{IsControlling, role-IsGiven}
use nl_punch.Ice.Rendezvous.Pairing.{Reach-Inv, init-Inv}

pub found_lem :
    (o : Option Offer) (x : Offer) → o ≡ some x → do_get (exchange_of (found_or_404 o)) ≡ ok x
unfolding do_get on_status
found_lem none x h = cc h
found_lem (some y) x h = ap ok (some-injective _ _ h)

module _ (header session : Bytes) (given : IsGiven session) (plain : IsPlain session) where
  after_answer_held :
      (s : System) (o mine : Offer)
      → IsAllowed s.server header
      → lookup session (after_answer header session s o mine).server.answers ≡ some (echo o mine)
  after_answer_held s o mine free =
      ap (λ r. lookup session r.0.answers)
        (post_answer_lem s.server header (answer_of header session (echo o mine)) free given)
      ∙ lookup-insert_self session (echo o mine) s.server.answers

  -- While the controlling peer waits with an offer, whatever has gone before, three requests in a
  -- row complete the exchange: the controlled peer reads that offer, it posts its answer `mine`
  -- with the nonce of the offer, and the controlling peer takes this answer. Nothing is held for the
  -- session at the start, and the requests have the header that the server asks for.
  pub exchange_completes :
      (server : Server) (s : System) (o mine : Offer)
      → IsAllowed server header
      → lookup (key session role_peer_a) server.offers ≡ none
      → lookup session server.answers ≡ none
      → Reach header session (init server) s
      → s.a ≡ a_waits o
      → let has_read = record s { b = b_has o } in
        let has_answered = after_answer header session has_read o mine in
        let completed = record has_answered { a = a_connects o (echo o mine) } in
        Step header session s has_read
        × Step header session has_read has_answered
        × Step header session has_answered completed
        × (completed.b ≡ b_connects o (echo o mine))
  exchange_completes server s o mine free no_offer no_answer r waits =
      let v =
        Reach-Inv header session given plain
          (init-Inv header session given plain server free no_offer no_answer) r in
      let (held, offered, gen) = subst (IsControlling header session s) waits v.controlling in
      let read =
        ap (λ r. do_get (exchange_of r.1))
          (get_offer_lem s.server header session role_peer_a v.allowed given role-IsGiven)
        ∙ found_lem _ o held in
      let s₁ : System = record s { b = b_has o } in
      let v₁ = Reach-Inv header session given plain v (next here (b_reads o read)) in
      let s₂ = after_answer header session s₁ o mine in
      let v₂ = Reach-Inv header session given plain v₁ (next here (b_answers o mine refl)) in
      (
        b_reads o read,
        b_answers o mine refl,
        a_reads o (echo o mine) waits
            (ap (λ r. do_get (exchange_of r.1))
                (get_answer_lem s₂.server header session v₂.allowed given)
              ∙ found_lem _ (echo o mine) (after_answer_held s₁ o mine v.allowed))
            (ground (arith, bytes_eq_refl o.gen)),
        refl,
      )
