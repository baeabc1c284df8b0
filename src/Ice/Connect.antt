-- ===== src/Ice/Connect.antt =====
-- How `Connect` of internal/ice/ice.go ends.
use mathlib.Core.Path.{subst}
use nl_punch.Prelude.{
  ◌<◌, [], ◌∷◌, List, Bytes, codes, nat_eq, string_eq, bytes_eq_iff, true, false, length, Option,
  none, some, ◌≡◌, ◌≢◌, ◌⊎◌, refl, sym, ap, arith, Option-cases, Bool-cases, inl, inr,
}
use nl_punch.Stream.{Result, ok, err}
use nl_punch.Signaling.{Offer}
use nl_punch.Ice.{
  IceError, Pion, Start, Connected, starts, Requests, is_controlling, encode_to_string, exchange,
  dial, accept, install, start_agent, handshake, with_credentials, offer_of, after_gathering,
  connect, gathered, timed_out, gather_cancelled, Gathering,
}
use nl_punch.Ice.Urls.{length-encode_to_string}
use nl_punch.Ice.Exchanged.{IsExchanged, Result-cases, exchange-ok}

nonce_given : (r : Bytes) → 0 < length r → encode_to_string r ≢ []
nonce_given r pos e = absurd (omega (arith, length-encode_to_string r, pos, ap length e))

module _ {ℓ κ} {E : Type ℓ} {Candidate : Type κ} (pion : Pion E Candidate) (role : Bytes)
    (requests : Requests) where
  -- The remote candidates, from what the peer has sent: one that cannot be parsed, or that the
  -- agent does not take, is passed over.
  pub data IsInstalled : List Bytes → List Candidate → Type (ℓ ⊔ κ) where
    none_left : IsInstalled [] []
    bad :
        {raw : Bytes} {raws : List Bytes} {cs : List Candidate}
        → pion.unmarshal_candidate raw ≡ none
        → IsInstalled raws cs
        → IsInstalled (raw ∷ raws) cs
    not_taken :
        {raw : Bytes} {raws : List Bytes} {cs : List Candidate} (c : Candidate)
        → pion.unmarshal_candidate raw ≡ some c
        → pion.adds c ≡ false
        → IsInstalled raws cs
        → IsInstalled (raw ∷ raws) cs
    taken :
        {raw : Bytes} {raws : List Bytes} {cs : List Candidate} (c : Candidate)
        → pion.unmarshal_candidate raw ≡ some c
        → pion.adds c ≡ true
        → IsInstalled raws cs
        → IsInstalled (raw ∷ raws) (c ∷ cs)

  install-IsInstalled : (raws : List Bytes) → IsInstalled raws (install pion raws)
  unfolding install
  install-IsInstalled [] = none_left
  install-IsInstalled (raw ∷ raws) =
      let rest = install-IsInstalled raws in
      elim (Option-cases (pion.unmarshal_candidate raw)) [
        | inl unread ↦ rw (unread, install) (bad unread rest)
        | inr (c, read) ↦ elim (Bool-cases (pion.adds c)) [
          | inl fits ↦ rw (read, install, fits) (taken c read fits rest)
          | inr over ↦ rw (read, install, over) (not_taken c read over rest)
        ]
      ]

  -- The call that the role makes: the agent's `Dial` for peer-a, and `Accept` for any other.
  abbrev pub IsCall : Offer → List Candidate → Start Candidate → Type κ
  IsCall peer cs st =
      ((role ≡ codes "peer-a") × (st ≡ dial peer.ufrag peer.pwd cs))
      ⊎ ((role ≢ codes "peer-a") × (st ≡ accept peer.ufrag peer.pwd cs))

  start_agent-IsCall :
      (peer : Offer) → IsCall peer (install pion peer.candidates) (start_agent pion role peer)
  unfolding start_agent
  start_agent-IsCall peer = elim (Bool-cases (is_controlling role)) [
    | inl active ↦ inl ((bytes_eq_iff role (codes "peer-a")).0 active, rw active)
    | inr passive ↦
        inr ((λ e. cc (sym passive, (bytes_eq_iff role (codes "peer-a")).1 e)), rw passive)
  ]

  -- What has happened when `Connect` comes to its last call.
  pub record IsStarted (c : Bytes × Bytes) (r : Bytes) (st : Start Candidate) : Type (ℓ ⊔ κ) where
    pub peer : Offer
    pub exchanged : IsExchanged role requests (offer_of pion c (encode_to_string r)) peer
    pub remote : List Candidate
    pub installed : IsInstalled peer.candidates remote
    pub last_call : IsCall peer remote st

  starts-injective :
      (x y : Start Candidate) → ◌≡◌ {A = Connected E Candidate} (starts x) (starts y) → x ≡ y
  starts-injective x y e = cc e

  handshake-starts :
      (random : Option Bytes) (c : Bytes × Bytes) (st : Start Candidate)
      → ((r : Bytes) → random ≡ some r → encode_to_string r ≢ [])
      → handshake pion role random requests c ≡ starts st
      → (r : Bytes) × (random ≡ some r) × IsStarted c r st
  unfolding handshake
  handshake-starts none c st given h = cc h
  handshake-starts (some r) c st given h =
      let mine = offer_of pion c (encode_to_string r) in
      elim (Result-cases (exchange {E = E} role requests mine)) [
        | inl (e, failed) ↦ cc (rw (handshake, failed) at h)
        | inr (peer, found) ↦ (
          r,
          refl,
          record {
            peer = peer;
            exchanged = exchange-ok requests mine peer role (given r refl) found;
            remote = install pion peer.candidates;
            installed = install-IsInstalled peer.candidates;
            last_call =
                subst (IsCall peer (install pion peer.candidates))
                  (starts-injective _ st (rw (handshake, found) at h)) (start_agent-IsCall peer);
          },
        )
      ]

  with_credentials-starts :
      (random : Option Bytes) (credentials : Result E (Bytes × Bytes)) (st : Start Candidate)
      → ((r : Bytes) → random ≡ some r → encode_to_string r ≢ [])
      → with_credentials pion role random requests credentials ≡ starts st
      → (c : Bytes × Bytes) × (credentials ≡ ok c)
        × (r : Bytes) × (random ≡ some r)
        × IsStarted c r st
  unfolding with_credentials
  with_credentials-starts random (err e) st given h = cc h
  with_credentials-starts random (ok c) st given h =
      let (r, drawn, s) = handshake-starts random c st given h in (c, refl, r, drawn, s)

  after_gathering-starts :
      (random : Option Bytes) (g : Gathering) (st : Start Candidate)
      → ((r : Bytes) → random ≡ some r → encode_to_string r ≢ [])
      → after_gathering pion role random requests g ≡ starts st
      → (c : Bytes × Bytes) × (pion.credentials ≡ ok c)
        × (r : Bytes) × (random ≡ some r)
        × IsStarted c r st
  unfolding after_gathering
  after_gathering-starts random gather_cancelled st given h = cc h
  after_gathering-starts random gathered st given h =
      with_credentials-starts random pion.credentials st given h
  after_gathering-starts random timed_out st given h =
      with_credentials-starts random pion.credentials st given h

  -- `Connect` comes to its last call only after a whole exchange: the controlling side has posted its
  -- offer, with the nonce that it drew, and has taken an answer that echoes this nonce; the controlled
  -- side has read an offer and has posted its own with the nonce of that offer. The call is `Dial` for
  -- peer-a and else `Accept`, with the ufrag and the password of the peer, after those of its
  -- candidates are added that can be parsed and that the agent takes, in their order. At least one
  -- byte is drawn.
  pub connect-starts {μ} :
      {Uri : Type μ} (urls : Result (IceError E) (List Uri)) (random : Option Bytes)
      (st : Start Candidate)
      → ((r : Bytes) → random ≡ some r → 0 < length r)
      → connect urls pion role random requests ≡ starts st
      → (c : Bytes × Bytes) × (pion.credentials ≡ ok c)
        × (r : Bytes) × (random ≡ some r)
        × IsStarted c r st
  unfolding connect
  connect-starts (err e) random st given h = cc h
  connect-starts (ok urls) random st given h = elim (Option-cases pion.new_agent) [
    | inr (e, failed) ↦ cc (rw (connect, failed) at h)
    | inl a ↦ elim (Option-cases pion.on_candidate) [
      | inr (e, failed) ↦ cc (rw (connect, a, failed) at h)
      | inl b ↦ elim (Option-cases pion.gather_candidates) [
        | inr (e, failed) ↦ cc (rw (connect, a, b, failed) at h)
        | inl c ↦
            after_gathering-starts random pion.gathering st (λ r e. nonce_given r (given r e))
              (rw (connect, a, b, c) at h)
      ]
    ]
  ]
