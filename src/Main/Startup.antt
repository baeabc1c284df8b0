-- ===== src/Main/Startup.antt =====
-- `main` of cmd/nl-punch/main.go up to its loop: the flags, the configuration, and what the agent and
-- the signaling client are made with; and which side of the transport `runOnce` takes.
pub mod Ready
use nl_punch.Prelude.{
  ℕ, [], ◌∷◌, List, Bytes, codes, nat_eq, string_eq, bytes_eq, Bool, true, false, not, ◌||◌,
  if◌then◌else◌, Option, none, some,
}
use nl_punch.Prelude.Dict.{lookup}
use nl_punch.Stream.{Result, ok, err}
use nl_punch.Config.{Config, ConfigError, Peer, TurnServer, ListenSpec, role_peer_a}
use nl_punch.Signaling.Client.{client_base}
use nl_punch.Forward.Listener

-- The flags, as `flag.Parse` leaves them; `secret` is NLPUNCH_SECRET where it is not given.
pub record Flags : Type 0 where
  pub config_path : Bytes
  pub role : Bytes
  pub session : Bytes
  pub sig_url : Bytes
  pub secret : Bytes
  pub log_level : Bytes

abbrev pub is_given : Bytes → Bool
is_given [] = false
is_given (b ∷ s) = true

-- if *flag != "" { field = *flag }
abbrev pub override : Bytes → Bytes → Bytes
override flag field = if is_given flag then flag else field

unfoldable pub with_flags : Flags → Config → Config
with_flags f c = record c {
  session_id = override f.session c.session_id;
  signaling = record {
    url = override f.sig_url c.signaling.url;
    shared_secret = override f.secret c.signaling.shared_secret;
  };
}

-- `toICETURN`
pub to_ice_turn : List TurnServer → List TurnServer
to_ice_turn [] = []
to_ice_turn (t ∷ ts) = record { uri = t.uri; user = t.user; pass = t.pass } ∷ to_ice_turn ts

-- `toFwdListen`
unfoldable pub to_fwd_listen : List ListenSpec → List Listener.ListenSpec
to_fwd_listen [] = []
to_fwd_listen (l ∷ ls) =
    record { name = l.name; local_port = l.local_port; remote_port = l.remote_port }
    ∷ to_fwd_listen ls

-- `pionLogLevelFromSlog`
abbrev pion_log_level : Bytes → ℕ
pion_log_level level = if bytes_eq level (codes "debug") then 4 else 2

-- The configuration of the agent, with its timeouts in seconds.
pub record AgentConfig : Type 0 where
  pub session_id : Bytes
  pub role : Bytes
  pub stun : List Bytes
  pub turn : List TurnServer
  pub failed_timeout : ℕ
  pub disconnected_timeout : ℕ
  pub pion_log_level : ℕ

abbrev pub agent_config : Flags → Config → AgentConfig
agent_config f c = record {
  session_id = c.session_id;
  role = f.role;
  stun = c.ice.stun;
  turn = to_ice_turn c.ice.turn;
  failed_timeout = 60;
  disconnected_timeout = 30;
  pion_log_level = pion_log_level f.log_level;
}

-- What the reconnect loop is entered with.
pub record Program : Type 0 where
  pub config : Config
  pub role : Bytes
  pub agent : AgentConfig
  pub client_url : Bytes
  pub client_secret : Bytes

pub data Startup : Type 0 where
  exits : ℕ → Startup
  runs : Program → Startup

-- Whether the role is one of the configuration's.
abbrev pub with_role : Flags → Config → Option Peer → Startup
with_role f c none = exits 1
with_role f c (some me) = runs (record {
  config = c;
  role = f.role;
  agent = agent_config f c;
  client_url = client_base c.signaling.url;
  client_secret = c.signaling.shared_secret;
})

abbrev pub with_config : Flags → Result ConfigError Config → Startup
with_config f (err e) = exits 1
with_config f (ok c) = with_role f (with_flags f c) (lookup f.role (with_flags f c).peers)

-- `main`, with what `config.Load` returns for the path.
unfoldable pub startup : Flags → (Bytes → Result ConfigError Config) → Startup
unfolding with_flags to_ice_turn
startup f load =
    if not (is_given f.config_path) || not (is_given f.role)
    then exits 2
    else with_config f (load f.config_path)

-- Which side of the transport `runOnce` takes.
pub data TransportSide : Type 0 where
  serves dials : TransportSide

abbrev pub transport_side : Bytes → TransportSide
transport_side role = if bytes_eq role role_peer_a then serves else dials
