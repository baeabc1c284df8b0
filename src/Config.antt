-- ===== src/Config.antt =====
-- internal/config/config.go. Where the code ranges over the map of peers, the order of the list is
-- the order of that run; the decoded JSON is a value of the type `Config`.
pub mod Accepts
pub mod Loads
use nl_punch.Prelude.{
  [], ℕ, ◌∷◌, List, map, Bytes, codes, nat_eq, string_eq, bytes_eq, ◌||◌, Bool, false,
  if◌then◌else◌, Option, none, some,
}
use nl_punch.Prelude.Dict.{Dict, lookup}
use nl_punch.Stream.{◌>>=◌, Result, ok, err}

pub record TurnServer : Type 0 where
  pub uri : Bytes
  pub user : Bytes
  pub pass : Bytes

pub record ListenSpec : Type 0 where
  pub local_port : ℕ
  pub remote_port : ℕ
  pub name : Bytes

pub record DialSpec : Type 0 where
  pub local_port : ℕ
  pub name : Bytes

pub record Peer : Type 0 where
  pub listen : List ListenSpec
  pub dial : List DialSpec

pub record SignalingConfig : Type 0 where
  pub url : Bytes
  pub shared_secret : Bytes

pub record IceConfig : Type 0 where
  pub stun : List Bytes
  pub turn : List TurnServer

pub record Config : Type 0 where
  pub session_id : Bytes
  pub signaling : SignalingConfig
  pub ice : IceConfig
  pub peers : Dict Bytes Peer

abbrev pub role_peer_a : Bytes
role_peer_a = codes "peer-a"

abbrev pub role_peer_b : Bytes
role_peer_b = codes "peer-b"

-- `Other`
abbrev pub other_role : Bytes → Bytes
other_role role = if bytes_eq role role_peer_a then role_peer_b else role_peer_a

pub data ConfigError : Type 0 where
  no_session_id no_signaling_url peer_a_missing peer_b_missing : ConfigError
  unknown_role empty_listen_name empty_dial_name : Bytes → ConfigError
  duplicate_name : Bytes → Bytes → ConfigError
  not_readable not_parsed : ConfigError

abbrev default_stun : List Bytes
default_stun =
    codes "stun.cloudflare.com:3478"
    ∷ codes "stun.l.google.com:19302"
    ∷ codes "stun.nextcloud.com:443"
    ∷ []

abbrev pub stun_or_default : List Bytes → List Bytes
stun_or_default [] = default_stun
stun_or_default (s ∷ ss) = s ∷ ss

unfoldable pub apply_defaults : Config → Config
apply_defaults c = record c { ice = record c.ice { stun = stun_or_default c.ice.stun } }

-- seen[name], of the names seen so far
unfoldable pub is_seen : Bytes → List Bytes → Bool
is_seen name [] = false
is_seen name (n ∷ seen) = bytes_eq n name || is_seen name seen

-- One loop over entries of a peer: listen entries and dial entries differ in the error for the empty
-- name.
unfoldable pub check_names :
    ConfigError → Bytes → List Bytes → List Bytes → Result ConfigError (List Bytes)
unfolding is_seen
check_names empty role [] seen = ok seen
check_names empty role (n ∷ names) seen =
    let rest = check_names empty role names (n ∷ seen) in
    if bytes_eq n []
    then err empty
    else if is_seen n seen
    then err (duplicate_name role n)
    else rest

abbrev pub listen_names : Peer → List Bytes
listen_names peer = map (λ l. l.name) peer.listen

abbrev pub dial_names : Peer → List Bytes
dial_names peer = map (λ d. d.name) peer.dial

-- The names of a peer, listen entries first: one namespace.
unfoldable pub check_peer : Bytes → Peer → Result ConfigError (List Bytes)
unfolding check_names
check_peer role peer = do
  seen ← check_names (empty_listen_name role) role (listen_names peer) []
  check_names (empty_dial_name role) role (dial_names peer) seen

abbrev pub error_of {ℓ} : {A : Type ℓ} → Result ConfigError A → Option ConfigError
error_of (ok a) = none
error_of (err e) = some e

-- if err := first; err != nil { return err }, and then the second check
abbrev pub then_check : Option ConfigError → Option ConfigError → Option ConfigError
then_check (some e) second = some e
then_check none second = second

unfoldable pub check_peers : Dict Bytes Peer → Option ConfigError
unfolding check_peer
check_peers [] = none
check_peers ((role, peer) ∷ peers) =
    then_check (error_of (check_peer role peer)) (check_peers peers)

abbrev pub known_role : Bytes → Option ConfigError
known_role role =
    if bytes_eq role role_peer_a || bytes_eq role role_peer_b
    then none
    else some (unknown_role role)

unfoldable pub check_roles : Dict Bytes Peer → Option ConfigError
check_roles [] = none
check_roles ((role, peer) ∷ peers) = then_check (known_role role) (check_roles peers)

abbrev pub required : ConfigError → Bytes → Option ConfigError
required e [] = some e
required e (b ∷ s) = none

abbrev pub present {ℓ} : {A : Type ℓ} → ConfigError → Option A → Option ConfigError
present e none = some e
present e (some a) = none

unfoldable pub validate : Config → Option ConfigError
unfolding check_roles check_peers
validate c = then_check (required no_session_id c.session_id) (
    then_check (required no_signaling_url c.signaling.url) (
      then_check (check_roles c.peers) (
        then_check (present peer_a_missing (lookup role_peer_a c.peers)) (
          then_check (present peer_b_missing (lookup role_peer_b c.peers)) (check_peers c.peers)))))

-- `Load`, with the result of `os.ReadFile`, and with `os.ExpandEnv` and `json.Unmarshal`.
unfoldable pub load :
    (Bytes → Bytes) → (Bytes → Option Config) → Option Bytes → Result ConfigError Config
unfolding validate apply_defaults
load expand_env unmarshal none = err not_readable
load expand_env unmarshal (some raw) = elim (unmarshal (expand_env raw)) [
  | none ↦ err not_parsed
  | some c ↦ elim (validate (apply_defaults c)) [ some e ↦ err e | none ↦ ok (apply_defaults c) ]
]
