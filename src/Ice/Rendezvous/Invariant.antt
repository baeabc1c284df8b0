-- ===== src/Ice/Rendezvous/Invariant.antt =====
-- What holds in every state of the exchange (internal/ice/ice.go).
use mathlib.Core.Path.{subst}
use nl_punch.Prelude.{
  ℕ, zero, suc, [], ◌∷◌, List, Bytes, nat_eq, string_eq, bytes_eq_iff, true, get_elem?, All,
  All-get_elem?, Option, none, some, some-injective, ◌≡◌, ◌≢◌, refl, sym, ap, ◌∙◌, arith,
}
use nl_punch.Prelude.Dict.{lookup, lookup-insert_self, lookup-delete_self}
use nl_punch.Stream.{ok}
use nl_punch.Config.{role_peer_a}
use nl_punch.Signaling.{Offer}
use nl_punch.Signaling.Server.{Server, key, found_or_404}
use nl_punch.Signaling.Server.Requests.{IsGiven, IsAllowed, post_offer_lem, post_answer_lem}
use nl_punch.Signaling.Client.{do_get, on_status, is_wanted}
use nl_punch.Ice.Rendezvous.{
  Controlling, a_idle, a_waits, a_connects, Controlled, b_idle, b_has, b_connects, System,
  exchange_of, echo, offer_of, answer_of, after_offer, after_answer,
}

abbrev pub IsIn {ℓ} : {A : Type ℓ} → A → List A → Type ℓ
IsIn a xs = (i : ℕ) × (get_elem? xs i ≡ some a)

IsIn-cons {ℓ} : {A : Type ℓ} {a : A} (b : A) (xs : List A) → IsIn a xs → IsIn a (b ∷ xs)
IsIn-cons b xs (i, e) = (suc i, e)

IsIn-All {ℓ κ} : {A : Type ℓ} (P : A → Type κ) {a : A} (xs : List A) → All P xs → IsIn a xs → P a
IsIn-All P xs h (i, e) = All-get_elem? P xs i h e

-- What a poll reads is what the server holds.
pub read_back :
    (o : Option Offer) (x : Offer) → do_get (exchange_of (found_or_404 o)) ≡ ok x → o ≡ some x
unfolding do_get on_status
read_back none x h = cc h
read_back (some y) x h = cc h

pub role-IsGiven : IsGiven role_peer_a
role-IsGiven e = cc e

module _ (header session : Bytes) where
  -- The controlling peer's offer is the one that the server holds; the answer that it took is one
  -- to that offer.
  abbrev pub IsControlling : System → Controlling → Type 0
  IsControlling s a_idle = Unit
  IsControlling s (a_waits o) =
      (lookup (key session role_peer_a) s.server.offers ≡ some o) × IsIn o s.offered × IsGiven o.gen
  IsControlling s (a_connects o answer) = IsIn (o, answer) s.answered × (answer.gen ≡ o.gen)

  abbrev pub IsControlled : System → Controlled → Type 0
  IsControlled s b_idle = Unit
  IsControlled s (b_has o) = IsIn o s.offered
  IsControlled s (b_connects o answer) = IsIn (o, answer) s.answered

  pub record Inv (s : System) : Type 0 where
    pub allowed : IsAllowed s.server header
    pub posted :
        (o : Offer) → lookup (key session role_peer_a) s.server.offers ≡ some o → IsIn o s.offered
    pub replied :
        (x : Offer)
        → lookup session s.server.answers ≡ some x
        → (o : Offer) × IsIn (o, x) s.answered
    pub matched : All (λ p. (p.1.gen ≡ p.0.gen) × IsIn p.0 s.offered) s.answered
    pub unique : (p q : Offer) → IsIn p s.offered → IsIn q s.offered → p.gen ≡ q.gen → p ≡ q
    pub controlling : IsControlling s s.a
    pub controlled : IsControlled s s.b

  unique-cons :
      (os : List Offer) (o : Offer)
      → All (λ p. p.gen ≢ o.gen) os
      → ((p q : Offer) → IsIn p os → IsIn q os → p.gen ≡ q.gen → p ≡ q)
      → (p q : Offer) → IsIn p (o ∷ os)
      → IsIn q (o ∷ os)
      → p.gen ≡ q.gen
      → p ≡ q
  unique-cons os o new h p q (zero, e) (zero, f) same = cc
  unique-cons os o new h p q (zero, e) (suc j, f) same = absurd (
      IsIn-All (λ p. p.gen ≢ o.gen) os new (j, f)
        (sym same ∙ ap (λ x. x.gen) (sym (some-injective _ _ e))))
  unique-cons os o new h p q (suc i, e) (zero, f) same = absurd (
      IsIn-All (λ p. p.gen ≢ o.gen) os new (i, e)
        (same ∙ ap (λ x. x.gen) (sym (some-injective _ _ f))))
  unique-cons os o new h p q (suc i, e) (suc j, f) same = h p q (i, e) (j, f) same

  matched-cons :
      (o : Offer) (os : List Offer) (ps : List (Offer × Offer))
      → All (λ p. (p.1.gen ≡ p.0.gen) × IsIn p.0 os) ps
      → All (λ p. (p.1.gen ≡ p.0.gen) × IsIn p.0 (o ∷ os)) ps
  matched-cons o os [] h = tt
  matched-cons o os (p ∷ ps) ((same, found), h) =
      ((same, IsIn-cons o os found), matched-cons o os ps h)

  -- What the controlled peer knows stays known.
  controlled-offer :
      (s : System) (o : Offer) (b : Controlled)
      → IsControlled s b
      → IsControlled (record s { offered = o ∷ s.offered }) b
  controlled-offer s o b_idle h = tt
  controlled-offer s o (b_has p) h = IsIn-cons o s.offered h
  controlled-offer s o (b_connects p x) h = h

  controlling-answer :
      (s : System) (pair : Offer × Offer) (a : Controlling)
      → IsControlling s a
      → IsControlling (record s { answered = pair ∷ s.answered }) a
  controlling-answer s pair a_idle h = tt
  controlling-answer s pair (a_waits o) h = h
  controlling-answer s pair (a_connects o x) (found, same) = (IsIn-cons pair s.answered found, same)

  -- A change of the server that keeps what it holds for this session.
  pub server-Inv :
      (s : System) (server : Server)
      → IsAllowed server header
      → lookup (key session role_peer_a) server.offers
        ≡ lookup (key session role_peer_a) s.server.offers
      → lookup session server.answers ≡ lookup session s.server.answers
      → Inv s
      → Inv (record s { server = server })
  server-Inv s server free offers answers v = record {
    allowed = free;
    posted = λ o e. v.posted o (sym offers ∙ e);
    replied = λ x e. v.replied x (sym answers ∙ e);
    matched = v.matched;
    unique = v.unique;
    controlling = same_controlling s.a v.controlling;
    controlled = same_controlled s.b v.controlled;
  }
    where
      same_controlling :
          (a : Controlling) → IsControlling s a → IsControlling (record s { server = server }) a
      same_controlling a_idle h = tt
      same_controlling (a_waits o) (held, mine, gen) = (offers ∙ held, mine, gen)
      same_controlling (a_connects o x) h = h

      same_controlled :
          (b : Controlled) → IsControlled s b → IsControlled (record s { server = server }) b
      same_controlled b_idle h = tt
      same_controlled (b_has o) h = h
      same_controlled (b_connects o x) h = h

  pub after_offer-Inv :
      (s : System) (o : Offer)
      → IsGiven session
      → All (λ p. p.gen ≢ o.gen) s.offered
      → IsGiven o.gen
      → Inv s
      → Inv (after_offer header session s o)
  after_offer-Inv s o given new gen v =
      subst (λ server. Inv (record s { server = server; a = a_waits o; offered = o ∷ s.offered }))
        (sym (
          ap (λ r. r.0)
            (post_offer_lem s.server header (offer_of header session o) v.allowed given
              role-IsGiven)))
        (record {
          allowed = v.allowed;
          posted =
              λ p e. (0, sym (lookup-insert_self (key session role_peer_a) o s.server.offers) ∙ e);
          replied = λ x e. cc (sym (lookup-delete_self session s.server.answers) ∙ e);
          matched = matched-cons o s.offered s.answered v.matched;
          unique = unique-cons s.offered o new v.unique;
          controlling =
              (lookup-insert_self (key session role_peer_a) o s.server.offers, (0, refl), gen);
          controlled = controlled-offer s o s.b v.controlled;
        })

  pub after_answer-Inv :
      (s : System) (o mine : Offer)
      → IsGiven session
      → IsIn o s.offered
      → Inv s
      → Inv (after_answer header session s o mine)
  after_answer-Inv s o mine given found v =
      let answer = echo o mine in
      subst
        (λ server. Inv (record s {
          server = server;
          b = b_connects o answer;
          answered = (o, answer) ∷ s.answered;
        }))
        (sym (
          ap (λ r. r.0)
            (post_answer_lem s.server header (answer_of header session answer) v.allowed given)))
        (record {
          allowed = v.allowed;
          posted = v.posted;
          replied = λ x e.
              let same : answer ≡ x =
                some-injective _ _ (sym (lookup-insert_self session answer s.server.answers) ∙ e) in
              (o, (0, ap (λ y. some (o, y)) same));
          matched = ((refl, found), v.matched);
          unique = v.unique;
          controlling = controlling-answer s (o, answer) s.a v.controlling;
          controlled = (0, refl);
        })

  -- The answer that is read is one to the offer that the controlling peer waits with.
  pub reads_pair :
      (s : System) (o answer : Offer)
      → IsIn o s.offered
      → IsGiven o.gen
      → lookup session s.server.answers ≡ some answer
      → is_wanted o.gen answer ≡ true
      → Inv s
      → IsIn (o, answer) s.answered × (answer.gen ≡ o.gen)
  reads_pair s o answer mine gen held wanted v =
      let (p, found) = v.replied answer held in
      let (same, offered) =
        IsIn-All (λ p. (p.1.gen ≡ p.0.gen) × IsIn p.0 s.offered) s.answered v.matched found in
      let gens : answer.gen ≡ o.gen =
        ground (arith, bytes_eq_iff o.gen [], bytes_eq_iff answer.gen o.gen) in
      let e : p ≡ o = v.unique p o offered mine (sym same ∙ gens) in
      (subst (λ q. IsIn (q, answer) s.answered) e found, gens)
