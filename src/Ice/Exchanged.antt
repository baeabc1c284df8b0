-- ===== src/Ice/Exchanged.antt =====
-- What the exchange in `Connect` of internal/ice/ice.go has done when it gives the offer of the peer.
use nl_punch.Prelude.{
  [], Bytes, nat_eq, string_eq, true, false, none, ◌≡◌, ◌≢◌, ◌⊎◌, refl, sym, ap, ◌∙◌, Option-cases,
  Bool-cases, inl, inr,
}
use nl_punch.Stream.{ok-injective, Result, ok, err}
use nl_punch.Signaling.{Offer}
use nl_punch.Signaling.Client.{do_post, await_answer_matching, await_offer}
use nl_punch.Signaling.Client.Polls.{await_answer_matching-gen}
use nl_punch.Ice.{Requests, is_controlling, exchange, exchange_controlling, exchange_controlled}
use nl_punch.Ice.Rendezvous.{echo}

-- The exchange that has given the peer's offer.
abbrev pub IsExchanged : Bytes → Requests → Offer → Offer → Type 0
IsExchanged role requests mine peer =
    ((is_controlling role ≡ true)
      × (do_post (requests.post mine) ≡ none)
      × (await_answer_matching mine.gen requests.polls ≡ ok peer)
      × (peer.gen ≡ mine.gen))
    ⊎ ((is_controlling role ≡ false)
        × (await_offer requests.polls ≡ ok peer)
        × (do_post (requests.post (echo peer mine)) ≡ none))

pub Result-cases {ℓ κ} :
    {E : Type ℓ} {A : Type κ} (r : Result E A) → ((e : E) × (r ≡ err e)) ⊎ ((a : A) × (r ≡ ok a))
Result-cases (ok a) = inr (a, refl)
Result-cases (err e) = inl (e, refl)

module _ {ℓ} {E : Type ℓ} (requests : Requests) (mine peer : Offer) where
  exchange_controlling-ok :
      exchange_controlling {E = E} requests mine ≡ ok peer
      → (do_post (requests.post mine) ≡ none)
        × (await_answer_matching mine.gen requests.polls ≡ ok peer)
  unfolding exchange_controlling
  exchange_controlling-ok h = elim (Option-cases (do_post (requests.post mine))) [
    | inr (e, failed) ↦ cc (rw (exchange_controlling, failed) at h)
    | inl posted ↦ elim (Result-cases (await_answer_matching mine.gen requests.polls)) [
      | inl (e, failed) ↦ cc (rw (exchange_controlling, posted, failed) at h)
      | inr (p, found) ↦ (
        posted,
        found ∙ ap ok (ok-injective p peer (rw (exchange_controlling, posted, found) at h)),
      )
    ]
  ]

  exchange_controlled-ok :
      exchange_controlled {E = E} requests mine ≡ ok peer
      → (await_offer requests.polls ≡ ok peer) × (do_post (requests.post (echo peer mine)) ≡ none)
  unfolding exchange_controlled
  exchange_controlled-ok h = elim (Result-cases (await_offer requests.polls)) [
    | inl (e, failed) ↦ cc (rw (exchange_controlled, failed) at h)
    | inr (p, found) ↦ elim (Option-cases (do_post (requests.post (echo p mine)))) [
      | inr (e, failed) ↦ cc (rw (exchange_controlled, found, failed) at h)
      | inl posted ↦
          let same : p ≡ peer =
            ok-injective p peer (rw (exchange_controlled, found, posted) at h) in
          (found ∙ ap ok same, ap (λ q. do_post (requests.post (echo q mine))) (sym same) ∙ posted)
    ]
  ]

  pub exchange-ok :
      (role : Bytes)
      → mine.gen ≢ []
      → exchange {E = E} role requests mine ≡ ok peer
      → IsExchanged role requests mine peer
  unfolding exchange
  exchange-ok role given h = elim (Bool-cases (is_controlling role)) [
    | inl active ↦
        let (posted, found) = exchange_controlling-ok (rw (exchange, active) at h) in
        inl (
          active,
          posted,
          found,
          await_answer_matching-gen mine.gen requests.polls peer given found,
        )
    | inr passive ↦
        let (found, posted) = exchange_controlled-ok (rw (exchange, passive) at h) in
        inr (passive, found, posted)
  ]
