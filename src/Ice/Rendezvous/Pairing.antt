-- ===== src/Ice/Rendezvous/Pairing.antt =====
-- Which offer belongs to which answer (internal/ice/ice.go).
use mathlib.Core.Path.{subst}
use nl_punch.Prelude.{Bytes, nat_eq, string_eq, none, ◌≡◌, refl, sym, ap, ◌∙◌}
use nl_punch.Prelude.Dict.{lookup, lookup-insert_ne, lookup-delete_ne}
use nl_punch.Config.{role_peer_a}
use nl_punch.Signaling.{Offer}
use nl_punch.Signaling.Server.{Server, key}
use nl_punch.Signaling.Server.Keys.{IsPlain}
use nl_punch.Signaling.Server.Laws.{other_key}
use nl_punch.Signaling.Server.Requests.{
  IsGiven, IsAllowed, post_offer_lem, post_answer_lem, get_offer_lem, get_answer_lem,
}
use nl_punch.Signaling.Client.{do_get}
use nl_punch.Ice.Rendezvous.{
  a_connects, System, init, exchange_of, Step, a_offers, a_reads, b_reads, b_answers, others_offer,
  others_answer, Reach, here, next,
}
use nl_punch.Ice.Rendezvous.Invariant.{
  IsIn, Inv, IsControlling, IsControlled, read_back, role-IsGiven, server-Inv, after_offer-Inv,
  after_answer-Inv, reads_pair,
}

module _ (header session : Bytes) (given : IsGiven session) (plain : IsPlain session) where
  Step-Inv : {s t : System} → Step header session s t → Inv header session s → Inv header session t
  Step-Inv {s} (a_offers o new gen) v = after_offer-Inv header session s o given new gen v
  Step-Inv {s} (a_reads o answer waits read wanted) v =
      let (held, mine, gen) = subst (IsControlling header session s) waits v.controlling in
      let e = read_back _ answer (
        sym (
          ap (λ r. do_get (exchange_of r.1))
            (get_answer_lem s.server header session v.allowed given))
        ∙ read) in
      record {
        allowed = v.allowed;
        posted = v.posted;
        replied = v.replied;
        matched = v.matched;
        unique = v.unique;
        controlling = reads_pair header session s o answer mine gen e wanted v;
        controlled = v.controlled;
      }
  Step-Inv {s} (b_reads o read) v =
      let e = read_back _ o (
        sym (
          ap (λ r. do_get (exchange_of r.1))
            (get_offer_lem s.server header session role_peer_a v.allowed given role-IsGiven))
        ∙ read) in
      record {
        allowed = v.allowed;
        posted = v.posted;
        replied = v.replied;
        matched = v.matched;
        unique = v.unique;
        controlling = v.controlling;
        controlled = v.posted o e;
      }
  Step-Inv {s} (b_answers o mine has) v =
      after_answer-Inv header session s o mine given
        (subst (IsControlled header session s) has v.controlled) v
  Step-Inv {s} (others_offer body apart plain' given' role) v =
      let e = post_offer_lem s.server header body v.allowed given' role in
      let keys = other_key body.session_id session body.role role_peer_a plain' plain apart in
      subst (λ server. Inv header session (record s { server = server })) (sym (ap (λ r. r.0) e))
        (server-Inv header session s _ v.allowed
          (lookup-insert_ne (key body.session_id body.role) (key session role_peer_a) body.offer
            s.server.offers keys)
          (lookup-delete_ne body.session_id session s.server.answers apart) v)
  Step-Inv {s} (others_answer body apart given') v =
      let e = post_answer_lem s.server header body v.allowed given' in
      subst (λ server. Inv header session (record s { server = server })) (sym (ap (λ r. r.0) e))
        (server-Inv header session s _ v.allowed refl
          (lookup-insert_ne body.session_id session body.answer s.server.answers apart) v)

  pub Reach-Inv :
      {s t : System} → Inv header session s → Reach header session s t → Inv header session t
  Reach-Inv v here = v
  Reach-Inv v (next r st) = Step-Inv st (Reach-Inv v r)

  pub init-Inv :
      (server : Server)
      → IsAllowed server header
      → lookup (key session role_peer_a) server.offers ≡ none
      → lookup session server.answers ≡ none
      → Inv header session (init server)
  init-Inv server free no_offer no_answer = record {
    allowed = free;
    posted = λ o e. cc (sym no_offer ∙ e);
    replied = λ x e. cc (sym no_answer ∙ e);
    matched = tt;
    unique = λ p q (i, e) (j, f) same. cc e;
    controlling = tt;
    controlled = tt;
  }

  -- However the two peers, their earlier attempts and the other sessions interleave, the controlling
  -- peer connects only with an answer to the very offer that it has posted in this attempt, never
  -- with one that an earlier attempt has left: the controlled peer has read that offer and posted
  -- that answer. The session starts with nothing on the server, each attempt has a nonce of its
  -- own, and no session id holds a "|".
  pub exchange_pairs :
      (server : Server) (t : System) (o answer : Offer)
      → IsAllowed server header
      → lookup (key session role_peer_a) server.offers ≡ none
      → lookup session server.answers ≡ none
      → Reach header session (init server) t
      → t.a ≡ a_connects o answer
      → IsIn (o, answer) t.answered × (answer.gen ≡ o.gen)
  exchange_pairs server t o answer free no_offer no_answer r connected =
      subst (IsControlling header session t) connected
        (Reach-Inv (init-Inv server free no_offer no_answer) r).controlling
