-- ===== src/Tests/Main.antt =====
-- The dial map of the quiet peer, and the third wait.
use nl_punch.Prelude.{
  ℕ, Bool, none, ◌==◌, Bytes, Option, bytes_eq, ◌+◌, ◌*◌, ◌^◌, ◌≤◌, min, [], ◌∷◌, codes, nat_eq,
  string_eq, get_elem?, some, ◌≡◌, refl, arith,
}
use nl_punch.Prelude.Dict.{lookup}
use nl_punch.Config.{Config, load, apply_defaults, role_peer_b}
use nl_punch.Main.{dial_map, second, max_backoff, reconnect_waits}
use nl_punch.Stream.{eof, Writer}
use nl_punch.Forward.Router.{new_accept_router, dial_group}
use nl_punch.Forward.Listener.Sequence.{Inbound, routed}
use nl_punch.Main.Dials.{own_port}
use nl_punch.Main.EndToEnd.{IsConfigured, routed-dial_map, tunnel-dial_map}
use nl_punch.Forward.Tunnel.Exact.{IsTunnelled}
use nl_punch.Main.Backoff.{reconnect_waits_bounds}
use nl_punch.Signaling.Client.{client_base}
use nl_punch.Main.Startup.{Flags, Program, runs, startup, with_flags, agent_config}
use nl_punch.Main.Startup.Ready.{IsReady, startup-IsReady}
use nl_punch.Tests.Config.{
  unchanged, parsed, is_loaded, web, quiet, listening, config, config-validate,
}

-- Two connections at the listener "web", which no dial entry of the quiet peer names.
abbrev inbound : ℕ → Inbound
inbound s = record {
  name = codes "web";
  random = 0;
  opens = λ i. some (record { written = []; room = none });
  stream = s;
  later = s ∷ [];
  fault = eof;
  port = 80;
}

inbound-IsConfigured : (s : ℕ) → IsConfigured quiet listening (inbound s)
unfolding own_port
inbound-IsConfigured s = record {
  index = 0;
  spec = web;
  entry = refl;
  named = refl;
  bytes = (omega arith, (omega arith, (omega arith, tt)));
  fits = omega arith;
  small = omega arith;
  opened = refl;
  target = refl;
}

abbrev unbroken : Writer
unbroken = record { written = []; room = none }

abbrev port_up : ℕ → Bool
port_up port = port == 80

tunnel-dial_map_example :
    (w : Writer) × (n : ℕ) × IsTunnelled port_up
      (dial_map quiet listening)
      (inbound 4)
      ((1 ∷ 2 ∷ []) ∷ [])
      (0 ∷ [])
      5
      6
      unbroken
      w
      n
tunnel-dial_map_example =
    tunnel-dial_map config 1 role_peer_b quiet listening config-validate refl (inbound 4) port_up
      ((1 ∷ 2 ∷ []) ∷ []) (0 ∷ []) 5 6 unbroken (inbound-IsConfigured 4) refl (omega arith)
      (omega arith) (omega arith) (omega arith, tt) (omega arith, tt) (omega arith) refl

routed-dial_map_example :
    routed port_up (new_accept_router (dial_map quiet listening)) (inbound 4 ∷ inbound 5 ∷ []) ≡ (
      new_accept_router (dial_map quiet listening),
      dial_group port_up 80 (some 4 ∷ []) ∷ dial_group port_up 80 (some 5 ∷ []) ∷ [],
    )
routed-dial_map_example =
    routed-dial_map config 1 role_peer_b quiet listening config-validate refl port_up
      (inbound 4 ∷ inbound 5 ∷ []) (inbound-IsConfigured 4, (inbound-IsConfigured 5, tt))

reconnect_waits_bounds_example :
    (w : ℕ) × (get_elem? (reconnect_waits (7 ∷ 8 ∷ 9 ∷ [])) 2 ≡ some w)
    × (min (2 ^ 2 * second) max_backoff * 4 ≤ w * 5)
    × (w * 5 ≤ min (2 ^ 2 * second) max_backoff * 6 + 4)
reconnect_waits_bounds_example = reconnect_waits_bounds (7 ∷ 8 ∷ 9 ∷ []) 2 9 refl (omega arith)

-- The flag for the session takes precedence over the file.
abbrev flags : Flags
flags = record {
  config_path = codes "f";
  role = role_peer_b;
  session = codes "t";
  sig_url = [];
  secret = [];
  log_level = [];
}

abbrev loaded : Config
loaded = with_flags flags (apply_defaults config)

abbrev program : Program
program = record {
  config = loaded;
  role = role_peer_b;
  agent = agent_config flags loaded;
  client_url = client_base loaded.signaling.url;
  client_secret = loaded.signaling.shared_secret;
}

abbrev read : Bytes → Option Bytes
read path = some []

has_role : lookup role_peer_b loaded.peers ≡ some listening
unfolding lookup bytes_eq apply_defaults with_flags
has_role = refl

starts_up : startup flags (λ path. load unchanged parsed (read path)) ≡ runs program
unfolding startup
starts_up = rw (startup, is_loaded, has_role) refl

startup-IsReady_example : IsReady flags program
startup-IsReady_example = startup-IsReady unchanged parsed read flags program starts_up
