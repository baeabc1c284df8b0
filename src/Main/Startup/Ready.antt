-- ===== src/Main/Startup/Ready.antt =====
-- What `main` of cmd/nl-punch/main.go has made sure of when it enters its loop.
use mathlib.Core.Path.{subst}
use nl_punch.Prelude.{
  [], ◌∷◌, List, Bytes, nat_eq, string_eq, bytes_eq, ◌||◌, not, true, false, Option, some, ◌≡◌, ◌≢◌,
  ◌⊎◌, refl, ap, Option-cases, Bool-cases, inl, inr,
}
use nl_punch.Prelude.Dict.{lookup}
use nl_punch.Stream.{Result, ok, err}
use nl_punch.Config.{Config, Peer, TurnServer, load, role_peer_a, other_role}
use nl_punch.Config.Accepts.{IsAccepted}
use nl_punch.Config.Loads.{load-IsAccepted}
use nl_punch.Ice.{is_controlling}
use nl_punch.Main.Startup.{
  Flags, is_given, override, with_flags, to_ice_turn, Program, runs, with_role, with_config,
  startup, serves, dials, transport_side,
}

-- What the loop relies on.
pub record IsReady (f : Flags) (p : Program) : Type 0 where
  pub accepted : IsAccepted p.config
  pub stunned : p.agent.stun ≢ []
  pub role_is : p.role ≡ f.role
  -- `me` and `other` of `runOnce` are there.
  pub me : (peer : Peer) × (lookup p.role p.config.peers ≡ some peer)
  pub other : (peer : Peer) × (lookup (other_role p.role) p.config.peers ≡ some peer)
  -- Both sides of the program agree on who the peer is.
  pub same_role : p.agent.role ≡ p.role
  pub same_session : p.agent.session_id ≡ p.config.session_id
  pub same_secret : p.client_secret ≡ p.config.signaling.shared_secret
  pub same_turn : p.agent.turn ≡ p.config.ice.turn
  pub sided :
      ((is_controlling p.role ≡ true) × (transport_side p.role ≡ serves))
      ⊎ ((is_controlling p.role ≡ false) × (transport_side p.role ≡ dials))
  -- A flag that is given takes precedence.
  pub session_flag : f.session ≢ [] → p.config.session_id ≡ f.session
  pub url_flag : f.sig_url ≢ [] → p.config.signaling.url ≡ f.sig_url
  pub secret_flag : f.secret ≢ [] → p.config.signaling.shared_secret ≡ f.secret

override-given : (flag field : Bytes) → field ≢ [] → override flag field ≢ []
override-given [] field given e = given e
override-given (b ∷ s) field given e = cc e

override-flag : (flag field : Bytes) → flag ≢ [] → override flag field ≡ flag
override-flag [] field given = absurd (given refl)
override-flag (b ∷ s) field given = refl

with_flags-IsAccepted : (f : Flags) (c : Config) → IsAccepted c → IsAccepted (with_flags f c)
unfolding with_flags
with_flags-IsAccepted f c v = record {
  session = override-given f.session c.session_id v.session;
  url = override-given f.sig_url c.signaling.url v.url;
  roles = v.roles;
  has_a = v.has_a;
  has_b = v.has_b;
  named = v.named;
}

to_ice_turn_lem : (ts : List TurnServer) → to_ice_turn ts ≡ ts
unfolding to_ice_turn
to_ice_turn_lem [] = refl
to_ice_turn_lem (t ∷ ts) = ap (λ us. t ∷ us) (to_ice_turn_lem ts)

-- An accepted configuration has the other peer of each of its roles.
other_there :
    (c : Config) (role : Bytes)
    → IsAccepted c
    → (peer : Peer) × (lookup (other_role role) c.peers ≡ some peer)
other_there c role v = elim (Bool-cases (bytes_eq role role_peer_a)) [
  | inl a ↦ rw (other_role, a) v.has_b
  | inr b ↦ rw (other_role, b) v.has_a
]

sided_lem :
    (role : Bytes)
    → ((is_controlling role ≡ true) × (transport_side role ≡ serves))
      ⊎ ((is_controlling role ≡ false) × (transport_side role ≡ dials))
sided_lem role = elim (Bool-cases (bytes_eq role role_peer_a)) [
  | inl a ↦ inl (a, rw a refl)
  | inr b ↦ inr (b, rw b refl)
]

runs-injective : (p q : Program) → runs p ≡ runs q → p ≡ q
runs-injective p q e = cc e

with_role-IsReady :
    (f : Flags) (c : Config) (p : Program)
    → IsAccepted c
    → c.ice.stun ≢ []
    → with_role f (with_flags f c) (lookup f.role (with_flags f c).peers) ≡ runs p
    → IsReady f p
unfolding with_flags
with_role-IsReady f c p v stunned h = elim (Option-cases (lookup f.role c.peers)) [
  | inl missing ↦ cc (rw missing at h)
  | inr (peer, found) ↦ subst (IsReady f) (runs-injective _ p (rw found at h)) (record {
    accepted = with_flags-IsAccepted f c v;
    stunned = stunned;
    role_is = refl;
    me = (peer, found);
    other = other_there c f.role v;
    same_role = refl;
    same_session = refl;
    same_secret = refl;
    same_turn = to_ice_turn_lem c.ice.turn;
    sided = sided_lem f.role;
    session_flag = override-flag f.session c.session_id;
    url_flag = override-flag f.sig_url c.signaling.url;
    secret_flag = override-flag f.secret c.signaling.shared_secret;
  })
]

-- `main` enters its loop only with a configuration that is accepted, also where flags have replaced
-- parts of it, with both peers of the dial map in it, with a STUN server, and with one role for the
-- agent, for the transport and for the configuration: the peer that is controlling is the one that
-- serves. A flag that is given takes precedence over the file.
pub startup-IsReady :
    (expand_env : Bytes → Bytes) (unmarshal : Bytes → Option Config) (read : Bytes → Option Bytes)
    (f : Flags) (p : Program)
    → startup f (λ path. load expand_env unmarshal (read path)) ≡ runs p
    → IsReady f p
unfolding startup
startup-IsReady expand_env unmarshal read f p h =
    elim (Bool-cases (not (is_given f.config_path) || not (is_given f.role))) [
      | inl usage ↦ cc (rw (startup, usage) at h)
      | inr go ↦
          loaded (load expand_env unmarshal (read f.config_path)) refl (rw (startup, go) at h)
    ]
  where
    loaded :
        (r : Result _ Config)
        → load expand_env unmarshal (read f.config_path) ≡ r
        → with_config f r ≡ runs p
        → IsReady f p
    loaded (err e) at_path h = cc h
    loaded (ok c) at_path h =
        let (v, stunned) = load-IsAccepted expand_env unmarshal (read f.config_path) c at_path in
        with_role-IsReady f c p v stunned h
