-- ===== src/Signaling/Server/Refinement.antt =====
-- What internal/signaling/server.go promises: it answers from the history of what it has accepted.
use mathlib.Core.Path.{subst}
use nl_punch.Prelude.{
  [], ◌∷◌, ◌++◌, List, Bytes, nat_eq, string_eq, bytes_eq, bytes_eq_iff, ◌&&◌, ◌||◌, not, Bool,
  true, false, if◌then◌else◌, All, Option, none, some, ◌≡◌, refl, sym, ap, ◌∙◌, arith, Bool-cases,
  inl, inr,
}
use nl_punch.Prelude.Dict.{lookup, insert, delete, lookup-delete, lookup-insert}
use nl_punch.Signaling.Server.{
  Server, new_server, OfferBody, AnswerBody, Method, post, get, other_method, Route, offer_route,
  answer_route, other_route, Request, Response, bad_request, unauthorized, key, is_empty,
  found_or_404, post_offer, offer_by_method, post_answer, answer_by_method, mux, serve, clear,
}
use nl_punch.Signaling.Server.Keys.{IsPlain, key_injective, has_prefix-key, lookup-delete_prefix}
use nl_punch.Signaling.Server.History.{
  Entry, offered, answered, cleared, current_offer, current_answer, Meaning, refused, accepted,
  asks_offer, asks_answer, offer_meaning, answer_meaning, meaning_of, meaning, respond, IsPlainBody,
  HasPlainIds, Operation, requests, clears, responses, promised, IsPlainOperation,
}

-- The maps of the server show the history.
pub record Shows (secret : Bytes) (log : List Entry) (s : Server) : Type 0 where
  pub guarded : s.secret ≡ secret
  pub offers_are :
      (session role : Bytes)
      → IsPlain session
      → lookup (key session role) s.offers ≡ current_offer session role log
  pub answers_are : (session : Bytes) → lookup session s.answers ≡ current_answer session log

-- Keys agree where both of their parts do.
key_eq :
    (s t q r : Bytes)
    → IsPlain s
    → IsPlain t
    → bytes_eq (key s q) (key t r) ≡ (bytes_eq s t && bytes_eq q r)
key_eq s t q r hs ht = elim (Bool-cases (bytes_eq (key s q) (key t r))) [
  | inl same ↦
      let (e, f) = key_injective s t q r hs ht ((bytes_eq_iff (key s q) (key t r)).0 same) in
      ground (arith, same, (bytes_eq_iff s t).1 e, (bytes_eq_iff q r).1 f)
  | inr apart ↦ elim (Bool-cases (bytes_eq s t && bytes_eq q r)) [
    | inr other ↦ apart ∙ sym other
    | inl both ↦
        let e : s ≡ t = ground (arith, bytes_eq_iff s t) in
        let f : q ≡ r = ground (arith, bytes_eq_iff q r) in
        cc (sym apart ∙ (bytes_eq_iff (key s q) (key t r)).1 (λ i. key (e i) (f i)))
  ]
]

module _ (secret : Bytes) (log : List Entry) (s : Server) (v : Shows secret log s) where
  offered-Shows :
      (b : OfferBody)
      → IsPlain b.session_id
      → Shows secret (offered b ∷ log) (record s {
        offers = insert (key b.session_id b.role) b.offer s.offers;
        answers = delete b.session_id s.answers;
      })
  unfolding current_offer current_answer
  offered-Shows b plain = record {
    guarded = v.guarded;
    offers_are = λ session role h. rw (
      lookup-insert (key b.session_id b.role) (key session role) b.offer s.offers,
      key_eq b.session_id session b.role role plain h,
      v.offers_are session role h,
    );
    answers_are =
        λ session. rw (lookup-delete b.session_id session s.answers, v.answers_are session);
  }

  answered-Shows :
      (a : AnswerBody)
      → Shows secret
          (answered a ∷ log)
          (record s { answers = insert a.session_id a.answer s.answers })
  unfolding current_offer current_answer
  answered-Shows a = record {
    guarded = v.guarded;
    offers_are = v.offers_are;
    answers_are = λ session.
        rw (lookup-insert a.session_id session a.answer s.answers, v.answers_are session);
  }

  cleared-Shows : (t : Bytes) → IsPlain t → Shows secret (cleared t ∷ log) (clear s t)
  unfolding clear current_offer current_answer
  cleared-Shows t plain = record {
    guarded = v.guarded;
    offers_are = λ session role h. rw (
      lookup-delete_prefix (t ++ b'|' ∷ []) (key session role) s.offers,
      has_prefix-key t session role plain h,
      v.offers_are session role h,
    );
    answers_are = λ session. rw (lookup-delete t session s.answers, v.answers_are session);
  }

-- A response and a state as the history has them.
abbrev Answers : Bytes → List Entry × Response → Server × Response → Type 0
Answers secret (log, expected) (s, given) = (given ≡ expected) × Shows secret log s

module _ (secret : Bytes) (log : List Entry) (s : Server) (v : Shows secret log s) where
  either_Answers :
      (c : Bool) (m n : Meaning) {x y : Server × Response}
      → Answers secret (respond log m) x
      → Answers secret (respond log n) y
      → Answers secret (respond log (if c then m else n)) (if c then x else y)
  either_Answers true m n h k = h
  either_Answers false m n h k = k

  post_offer-Answers :
      (r : Request)
      → HasPlainIds r
      → Answers secret (respond log (meaning_of r offer_route post)) (post_offer s r.offer_body)
  unfolding post_offer
  post_offer-Answers r (plain, _) = by_body r.offer_body plain
    where
      by_body :
          (b : Option OfferBody)
          → IsPlainBody b
          → Answers secret (respond log (offer_meaning b)) (post_offer s b)
      by_body none plain = (refl, v)
      by_body (some b) plain =
          either_Answers (is_empty b.session_id || is_empty b.role) (refused bad_request)
            (accepted (offered b)) (refl, v) (refl, offered-Shows secret log s v b plain)

  post_answer-Answers :
      (b : Option AnswerBody) → Answers secret (respond log (answer_meaning b)) (post_answer s b)
  unfolding post_answer
  post_answer-Answers none = (refl, v)
  post_answer-Answers (some a) =
      either_Answers (is_empty a.session_id) (refused bad_request) (accepted (answered a)) (refl, v)
        (refl, answered-Shows secret log s v a)

  offer_by_method-Answers :
      (r : Request) (m : Method)
      → HasPlainIds r
      → Answers secret (respond log (meaning_of r offer_route m)) (offer_by_method s r m)
  unfolding offer_by_method
  offer_by_method-Answers r post plain = post_offer-Answers r plain
  offer_by_method-Answers r get (_, plain) =
      either_Answers (is_empty r.session_param || is_empty r.role_param) (refused bad_request)
        (asks_offer r.session_param r.role_param) (refl, v)
        (ap found_or_404 (v.offers_are r.session_param r.role_param plain), v)
  offer_by_method-Answers r other_method plain = (refl, v)

  answer_by_method-Answers :
      (r : Request) (m : Method)
      → Answers secret (respond log (meaning_of r answer_route m)) (answer_by_method s r m)
  unfolding answer_by_method
  answer_by_method-Answers r post = post_answer-Answers r.answer_body
  answer_by_method-Answers r get =
      either_Answers (is_empty r.session_param) (refused bad_request) (asks_answer r.session_param)
        (refl, v) (ap found_or_404 (v.answers_are r.session_param), v)
  answer_by_method-Answers r other_method = (refl, v)

  mux-Answers :
      (r : Request) (route : Route)
      → HasPlainIds r
      → Answers secret (respond log (meaning_of r route r.method)) (mux s r route)
  unfolding mux
  mux-Answers r offer_route plain = offer_by_method-Answers r r.method plain
  mux-Answers r answer_route plain = answer_by_method-Answers r r.method
  mux-Answers r other_route plain = (refl, v)

  serve-Answers :
      (r : Request) → HasPlainIds r → Answers secret (respond log (meaning secret r)) (serve s r)
  unfolding serve
  serve-Answers r plain =
      subst (λ k. Answers secret (respond log (meaning k r)) (serve s r)) v.guarded
        (either_Answers (not (is_empty s.secret) && not (bytes_eq r.secret_header s.secret))
          (refused unauthorized) (meaning_of r r.route r.method) (refl, v)
          (mux-Answers r r.route plain))

shown_responses :
    (secret : Bytes) (log : List Entry) (s : Server) (ops : List Operation)
    → Shows secret log s
    → All IsPlainOperation ops
    → responses s ops ≡ promised secret log ops
unfolding responses promised
shown_responses secret log s [] v plain = refl
shown_responses secret log s (requests r ∷ ops) v (here, plain) =
    let (e, w) = serve-Answers secret log s v r here in
    let rest =
      shown_responses secret (respond log (meaning secret r)).0 (serve s r).0 ops w plain in
    (λ i. e i ∷ rest i)
shown_responses secret log s (clears t ∷ ops) v (here, plain) =
    shown_responses secret (cleared t ∷ log) (clear s t) ops (cleared-Shows secret log s v t here)
      plain

-- The server answers every sequence of requests as the history of what it has accepted does: an
-- offer is the latest of its session and role, an answer the latest of its session since the last
-- offer to it, and neither outlasts a `Clear` of its session; a request that is refused leaves the
-- history as it is. The session ids in the requests hold no "|".
pub responses-promised :
    (secret : Bytes) (ops : List Operation)
    → All IsPlainOperation ops
    → responses (new_server secret) ops ≡ promised secret [] ops
unfolding current_offer current_answer lookup
responses-promised secret ops plain =
    shown_responses secret [] (new_server secret) ops
      (record {
        guarded = refl;
        offers_are = λ session role h. refl;
        answers_are = λ session. refl;
      })
      plain
