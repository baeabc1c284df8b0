-- ===== src/Tests/Listener.antt =====
-- Two specs, and the sockets that the system gives.
use nl_punch.Prelude.{
  ℕ, ◌+◌, [], ◌∷◌, List, nat_eq, string_eq, true, Option, some, ◌≡◌, ◌≢◌, refl, arith,
}
use nl_punch.Prelude.Dict.{lookup}
use nl_punch.Forward.Listener.{ListenSpec, new_tcp_listener, start_listeners, bound_ports}
use nl_punch.Forward.Listener.Ports.{start_listeners-bound_ports}

abbrev spec : ℕ → ListenSpec
spec name = record { name = name ∷ []; local_port = 0; remote_port = 80 }

abbrev specs : List ListenSpec
specs = spec 1 ∷ spec 2 ∷ []

abbrev bind : ListenSpec → Option ℕ
bind s = some 7

apart : (spec 2).name ≢ (spec 1).name
apart e = ground arith

is_bound : (start_listeners bind specs new_tcp_listener).1 ≡ true
unfolding start_listeners
is_bound = refl

abbrev port_of : ℕ → ℕ
port_of ln = ln + 40000

start_listeners-bound_ports_example :
    (ln : ℕ) × (some 7 ≡ some ln)
    × (lookup
          (2 ∷ [])
          (bound_ports port_of (start_listeners bind specs new_tcp_listener).0.listeners)
        ≡ some (ln + 40000))
start_listeners-bound_ports_example =
    start_listeners-bound_ports bind port_of specs 1 (spec 2) ((apart, tt), (tt, tt)) is_bound refl
