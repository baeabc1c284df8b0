-- ===== src/Tests/Config.antt =====
-- A configuration with one forwarded port.
use nl_punch.Prelude.{
  [], ◌∷◌, Bytes, codes, nat_eq, string_eq, bytes_eq, Option, none, some, ◌≡◌, ◌↔◌, refl,
}
use nl_punch.Prelude.Dict.{lookup}
use nl_punch.Config.{
  Config, Peer, ListenSpec, load, apply_defaults, validate, check_roles, check_peers, check_peer,
  check_names, is_seen, role_peer_a, role_peer_b,
}
use nl_punch.Config.Accepts.{IsAccepted, validate_iff}
use nl_punch.Stream.{ok}

abbrev pub web : ListenSpec
web = record { local_port = 8080; remote_port = 80; name = codes "web" }

abbrev pub quiet : Peer
quiet = record { listen = []; dial = [] }

abbrev pub listening : Peer
listening = record { listen = web ∷ []; dial = [] }

abbrev pub config : Config
config = record {
  session_id = codes "s";
  signaling = record { url = codes "http://h"; shared_secret = [] };
  ice = record { stun = []; turn = [] };
  peers = (role_peer_a, quiet) ∷ (role_peer_b, listening) ∷ [];
}

pub config-validate : validate config ≡ none
unfolding validate check_roles check_peers check_peer check_names is_seen lookup bytes_eq
config-validate = refl

validate_iff_example : (validate config ≡ none) ↔ IsAccepted config
validate_iff_example = validate_iff config

abbrev pub unchanged : Bytes → Bytes
unchanged s = s

abbrev pub parsed : Bytes → Option Config
parsed s = some config

pub is_loaded : load unchanged parsed (some []) ≡ ok (apply_defaults config)
unfolding load validate check_roles check_peers check_peer check_names is_seen lookup bytes_eq
    apply_defaults
is_loaded = refl
