-- ===== src/Signaling/Server/Laws.antt =====
-- What the handlers of internal/signaling/server.go promise a client.
use nl_punch.Prelude.{
  [], ◌∷◌, ◌++◌, Bytes, nat_eq, string_eq, bytes_eq_refl, bytes_eq_ne, none, ◌≡◌, ◌≢◌, sym, ap, ◌∙◌,
}
use nl_punch.Prelude.Dict.{
  lookup, lookup-insert_self, lookup-delete_self, lookup-insert_ne, lookup-delete_ne,
}
use nl_punch.Signaling.Server.{
  Server, OfferBody, AnswerBody, reply, not_found, no_content, write_json, key, found_or_404, serve,
  clear,
}
use nl_punch.Signaling.Server.Keys.{IsPlain, key_injective, has_prefix-key, lookup-delete_prefix}
use nl_punch.Signaling.Server.Requests.{
  IsAllowed, IsGiven, answer_get, answer_post, answer_response, get_answer_lem, get_offer_lem,
  offer_get, offer_post, offer_response, post_answer_lem, post_offer_lem,
}

-- An accepted offer is what the peer then reads under the same session and role, and the session's
-- answer, which belongs to an earlier attempt, is gone: it reads as not found until a new one is
-- posted.
pub serve-offer :
    (s : Server) (header : Bytes) (body : OfferBody)
    → IsAllowed s header
    → IsGiven body.session_id
    → IsGiven body.role
    → let s' = (serve s (offer_post header body)).0 in
      ((serve s (offer_post header body)).1 ≡ reply no_content)
      × ((serve s' (offer_get header body.session_id body.role)).1 ≡ write_json body.offer)
      × ((serve s' (answer_get header body.session_id)).1 ≡ reply not_found)
serve-offer s header body ok session role =
    let e = post_offer_lem s header body ok session role in
    (
      ap (λ o. o.1) e,
      offer_response s header body.session_id body.role ok session role e
          ∙ ap found_or_404
              (lookup-insert_self (key body.session_id body.role) body.offer s.offers),
      answer_response s header body.session_id ok session e
          ∙ ap found_or_404 (lookup-delete_self body.session_id s.answers),
    )

-- An accepted answer is what the peer then reads, and the offers are left alone.
serve-answer :
    (s : Server) (header : Bytes) (body : AnswerBody) (role : Bytes)
    → IsAllowed s header
    → IsGiven body.session_id
    → IsGiven role
    → let s' = (serve s (answer_post header body)).0 in
      ((serve s' (answer_get header body.session_id)).1 ≡ write_json body.answer)
      × ((serve s' (offer_get header body.session_id role)).1
          ≡ (serve s (offer_get header body.session_id role)).1)
serve-answer s header body role ok session hr =
    let e = post_answer_lem s header body ok session in
    (
      answer_response s header body.session_id ok session e
          ∙ ap found_or_404 (lookup-insert_self body.session_id body.answer s.answers),
      offer_response s header body.session_id role ok session hr e
          ∙ sym (ap (λ o. o.1) (get_offer_lem s header body.session_id role ok session hr)),
    )

pub other_key : (x y q r : Bytes) → IsPlain x → IsPlain y → x ≢ y → key x q ≢ key y r
other_key x y q r hx hy apart e = apart (key_injective x y q r hx hy e).0

-- A session's offer changes nothing for another session, as far as neither id holds a "|".
serve-offer_others :
    (s : Server) (header : Bytes) (body : OfferBody) (other role : Bytes)
    → IsAllowed s header
    → IsGiven body.session_id
    → IsGiven body.role
    → IsGiven other
    → IsGiven role
    → IsPlain body.session_id
    → IsPlain other
    → body.session_id ≢ other
    → let s' = (serve s (offer_post header body)).0 in
      ((serve s' (offer_get header other role)).1 ≡ (serve s (offer_get header other role)).1)
      × ((serve s' (answer_get header other)).1 ≡ (serve s (answer_get header other)).1)
serve-offer_others s header body other role ok session hr ho ho' plain plain' apart =
    let e = post_offer_lem s header body ok session hr in
    let keys = other_key body.session_id other body.role role plain plain' apart in
    (
      offer_response s header other role ok ho ho' e
          ∙ ap found_or_404 (
              lookup-insert_ne (key body.session_id body.role) (key other role) body.offer s.offers
                keys)
          ∙ sym (ap (λ o. o.1) (get_offer_lem s header other role ok ho ho')),
      answer_response s header other ok ho e
          ∙ ap found_or_404 (lookup-delete_ne body.session_id other s.answers apart)
          ∙ sym (ap (λ o. o.1) (get_answer_lem s header other ok ho)),
    )

-- `Clear` drops the offers of the session under every role, and its answer, and nothing of another
-- session, as far as neither id holds a "|".
pub clear_lem :
    (s : Server) (session role other : Bytes)
    → IsPlain session
    → IsPlain other
    → session ≢ other
    → (lookup (key session role) (clear s session).offers ≡ none)
      × (lookup session (clear s session).answers ≡ none)
      × (lookup (key other role) (clear s session).offers ≡ lookup (key other role) s.offers)
      × (lookup other (clear s session).answers ≡ lookup other s.answers)
unfolding clear
clear_lem s session role other plain plain' apart = (
  rw (
    lookup-delete_prefix (session ++ b'|' ∷ []) (key session role) s.offers,
    has_prefix-key session session role plain plain,
    bytes_eq_refl session,
  ),
  lookup-delete_self session s.answers,
  rw (
    lookup-delete_prefix (session ++ b'|' ∷ []) (key other role) s.offers,
    has_prefix-key session other role plain plain',
    bytes_eq_ne session other apart,
  ),
  lookup-delete_ne session other s.answers apart,
)
