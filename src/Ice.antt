-- ===== src/Ice.antt =====
-- internal/ice/ice.go. The ICE agent is that of the pion library: what its calls return is a record
-- of arguments, and what `Connect` asks it to do at the end is the result.
pub mod Rendezvous
pub mod Urls
pub mod Exchanged
pub mod Connect
pub mod Meeting
use nl_punch.Prelude.{
  [], ℕ, ◌+◌, ◌-◌, ◌/◌, ◌%◌, ◌∷◌, ◌++◌, List, Bytes, codes, nat_eq, string_eq, bytes_eq, ltb, Bool,
  if◌then◌else◌, Option, none, some,
}
use nl_punch.Stream.{Result, ok, err}
use nl_punch.Config.{TurnServer}
use nl_punch.Signaling.{Offer}
use nl_punch.Signaling.Client.{ClientError, Exchange, do_post, await_answer_matching, await_offer}
use nl_punch.Ice.Rendezvous.{echo}

pub data IceError {ℓ} (E : Type ℓ) : Type ℓ where
  bad_stun bad_turn : Bytes → IceError E
  agent_error : E → IceError E
  context_done no_randomness : IceError E
  post_offer await_answer await_offer_failed post_answer : ClientError → IceError E

-- `parseURLs`, over `stun.ParseURI` and a parsed URI with user and password set.
module _ {ℓ κ} {E : Type ℓ} {Uri : Type κ} (parse_uri : Bytes → Option Uri)
    (with_user : Bytes → Bytes → Uri → Uri) where
  pub parse_turn : List TurnServer → Result (IceError E) (List Uri)
  parse_turn [] = ok []
  parse_turn (t ∷ ts) = elim (parse_uri t.uri) [
    | none ↦ err (bad_turn t.uri)
    | some u ↦ elim (parse_turn ts) [ ok us ↦ ok (with_user t.user t.pass u ∷ us) | err e ↦ err e ]
  ]

  pub parse_urls : List Bytes → List TurnServer → Result (IceError E) (List Uri)
  unfolding parse_turn
  parse_urls [] ts = parse_turn ts
  parse_urls (h ∷ hs) ts = elim (parse_uri (codes "stun:" ++ h)) [
    | none ↦ err (bad_stun h)
    | some u ↦ elim (parse_urls hs ts) [ ok us ↦ ok (u ∷ us) | err e ↦ err e ]
  ]

-- hex.EncodeToString
abbrev pub hex_digit : ℕ → ℕ
hex_digit n = if ltb n 10 then b'0' + n else b'a' + (n - 10)

unfoldable pub encode_to_string : Bytes → Bytes
encode_to_string [] = []
encode_to_string (b ∷ s) = hex_digit (b / 16) ∷ hex_digit (b % 16) ∷ encode_to_string s

-- `newGen`, with what `rand.Read` returns.
abbrev new_gen : Option Bytes → Option Bytes
new_gen none = none
new_gen (some b) = some (encode_to_string b)

-- `IsControlling`
abbrev pub is_controlling : Bytes → Bool
is_controlling role = bytes_eq role (codes "peer-a")

pub data Gathering : Type 0 where
  gathered timed_out gather_cancelled : Gathering

-- What the calls of the library return, in the order of the calls: an error, or what they give.
pub record Pion {ℓ κ} (E : Type ℓ) (Candidate : Type κ) : Type (ℓ ⊔ κ) where
  pub new_agent : Option E
  pub on_candidate : Option E
  pub gather_candidates : Option E
  pub gathering : Gathering
  pub credentials : Result E (Bytes × Bytes)
  pub candidates : List Bytes
  pub unmarshal_candidate : Bytes → Option Candidate
  -- whether `AddRemoteCandidate` takes it
  pub adds : Candidate → Bool

-- The call at the end, with the remote candidates that have been added.
pub data Start {ℓ} (Candidate : Type ℓ) : Type ℓ where
  dial accept : Bytes → Bytes → List Candidate → Start Candidate

-- How `Connect` ends: before there is an agent, with the agent closed, or with its last call.
pub data Connected {ℓ κ} (E : Type ℓ) (Candidate : Type κ) : Type (ℓ ⊔ κ) where
  no_agent agent_closed : IceError E → Connected E Candidate
  starts : Start Candidate → Connected E Candidate

-- The requests of the exchange: what the post meets, by what is posted, and the polls.
pub record Requests : Type 0 where
  pub post : Offer → Exchange
  pub polls : List Exchange

-- Install peer candidates: one that is bad, or is refused, is left out.
abbrev install_one {ℓ} :
    {Candidate : Type ℓ} → (Candidate → Bool) → Option Candidate → List Candidate → List Candidate
install_one adds none rest = rest
install_one adds (some c) rest = if adds c then c ∷ rest else rest

module _ {ℓ} {E : Type ℓ} where
  -- The controlling side's exchange, up to the peer's offer.
  unfoldable pub exchange_controlling : Requests → Offer → Result (IceError E) Offer
  exchange_controlling requests mine = elim (do_post (requests.post mine)) [
    | some e ↦ err (post_offer e)
    | none ↦ elim (await_answer_matching mine.gen requests.polls) [
      | err e ↦ err (await_answer e)
      | ok peer ↦ ok peer
    ]
  ]

  -- The controlled side's: it reads first, and posts its own offer with the peer's nonce.
  pub exchange_controlled : Requests → Offer → Result (IceError E) Offer
  exchange_controlled requests mine = elim (await_offer requests.polls) [
    | err e ↦ err (await_offer_failed e)
    | ok peer ↦ elim (do_post (requests.post (echo peer mine))) [
      | some e ↦ err (post_answer e)
      | none ↦ ok peer
    ]
  ]

  unfoldable pub exchange : Bytes → Requests → Offer → Result (IceError E) Offer
  unfolding exchange_controlling exchange_controlled
  exchange role requests mine =
      if is_controlling role
      then exchange_controlling requests mine
      else exchange_controlled requests mine

-- myOffer
abbrev pub offer_of {ℓ κ} :
    {E : Type ℓ} {Candidate : Type κ} → Pion E Candidate → Bytes × Bytes → Bytes → Offer
offer_of pion (ufrag, pwd) gen = record {
  ufrag = ufrag;
  pwd = pwd;
  candidates = pion.candidates;
  gen = gen;
}

module _ {ℓ κ} {E : Type ℓ} {Candidate : Type κ} where
  unfoldable pub install : Pion E Candidate → List Bytes → List Candidate
  install pion [] = []
  install pion (raw ∷ raws) =
      install_one pion.adds (pion.unmarshal_candidate raw) (install pion raws)

  unfoldable pub start_agent : Pion E Candidate → Bytes → Offer → Start Candidate
  unfolding install
  start_agent pion role peer =
      let cs = install pion peer.candidates in
      if is_controlling role then dial peer.ufrag peer.pwd cs else accept peer.ufrag peer.pwd cs

  -- From the credentials on.
  unfoldable pub handshake :
      Pion E Candidate → Bytes → Option Bytes → Requests → Bytes × Bytes → Connected E Candidate
  unfolding exchange start_agent
  handshake pion role random requests c = elim (new_gen random) [
    | none ↦ agent_closed no_randomness
    | some gen ↦ elim (exchange {E = E} role requests (offer_of pion c gen)) [
      | err e ↦ agent_closed e
      | ok peer ↦ starts (start_agent pion role peer)
    ]
  ]

  -- With what `GetLocalUserCredentials` returns.
  unfoldable pub with_credentials :
      Pion E Candidate
      → Bytes
      → Option Bytes
      → Requests
      → Result E (Bytes × Bytes)
      → Connected E Candidate
  unfolding handshake
  with_credentials pion role random requests (err e) = agent_closed (agent_error e)
  with_credentials pion role random requests (ok c) = handshake pion role random requests c

  -- From the end of the gathering on: after its ten seconds it goes on with what there is.
  unfoldable pub after_gathering :
      Pion E Candidate → Bytes → Option Bytes → Requests → Gathering → Connected E Candidate
  unfolding with_credentials
  after_gathering pion role random requests gather_cancelled = agent_closed context_done
  after_gathering pion role random requests gathered =
      with_credentials pion role random requests pion.credentials
  after_gathering pion role random requests timed_out =
      with_credentials pion role random requests pion.credentials

  -- `Connect`, where the parsed URLs go into the configuration of the agent.
  unfoldable pub connect {μ} :
      {Uri : Type μ}
      → Result (IceError E) (List Uri)
      → Pion E Candidate
      → Bytes
      → Option Bytes
      → Requests
      → Connected E Candidate
  unfolding after_gathering
  connect (err e) pion role random requests = no_agent e
  connect (ok urls) pion role random requests = elim pion.new_agent [
    | some e ↦ no_agent (agent_error e)
    | none ↦ elim pion.on_candidate [
      | some e ↦ agent_closed (agent_error e)
      | none ↦ elim pion.gather_candidates [
        | some e ↦ agent_closed (agent_error e)
        | none ↦ after_gathering pion role random requests pion.gathering
      ]
    ]
  ]
