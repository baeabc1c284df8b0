-- ===== src/Forward/Listener.antt =====
-- `TCPListener` of internal/forward/forward.go: `Start` and `Close`, where a bound socket is a number
-- that the system gives, and `handle` for one inbound connection. `opens i` is what
-- the i-th `OpenStream` returns, and the random number is an argument.
pub mod Reaches
pub mod Sequence
pub mod Sockets
pub mod Ports
use nl_punch.Prelude.{
  [], ℕ, zero, suc, ◌+◌, ◌%◌, ◌∷◌, ◌++◌, List, Bytes, nat_eq, ◌==◌, Bool, true, false,
  if◌then◌else◌, Option, none, some, string_eq,
}
use nl_punch.Prelude.Dict.{Dict, insert}
use nl_punch.Stream.{Writer}
use nl_punch.Forward.Header.{StreamHeader, HeaderError, write_stream_header}

-- The constant numStripes.
abbrev pub num_stripes : ℕ
num_stripes = 1

-- 0 is kept for "unstriped".
abbrev pub session_of : ℕ → ℕ
session_of random = if random == 0 then 1 else random

abbrev pub stripe_header : Bytes → ℕ → ℕ → ℕ → StreamHeader
stripe_header name session n i = record {
  tag = name;
  session_id = session;
  stripe_idx = i % 256;
  num_stripes = n % 256;
}

-- Every stream is closed, or they all go to `pumpStriped`.
pub data Opened : Type 0 where
  gave_up pumping : List Writer → Opened

-- After the header of stream `i`; `rest` is the next rounds.
abbrev on_header : List Writer → Writer × Option HeaderError → Opened → Opened
on_header streams (s, some e) rest = gave_up (streams ++ s ∷ [])
on_header streams (s, none) rest = rest

-- The loop with `left` rounds to go, at index `i`.
pub open_stripes : ℕ → ℕ → Bytes → ℕ → ℕ → (ℕ → Option Writer) → List Writer → Opened
open_stripes zero i name session n opens streams = pumping streams
open_stripes (suc left) i name session n opens streams = elim (opens i) [
  | none ↦ gave_up streams
  | some s ↦
      let (s', e) = write_stream_header s (stripe_header name session n i) in
      let rest = open_stripes left (i + 1) name session n opens (streams ++ s' ∷ []) in
      on_header streams (s', e) rest
]

pub accept_conn : Bytes → ℕ → (ℕ → Option Writer) → Opened
unfolding open_stripes
accept_conn name random opens =
    open_stripes num_stripes 0 name (session_of random) num_stripes opens []

-- `ListenSpec`, and `TCPListener` with the sockets that are open.
pub record ListenSpec : Type 0 where
  pub name : Bytes
  pub local_port : ℕ
  pub remote_port : ℕ

pub record TcpListener : Type 0 where
  pub listeners : Dict Bytes ℕ
  pub sockets : List ℕ
  pub closed : Bool

abbrev pub new_tcp_listener : TcpListener
new_tcp_listener = record { listeners = []; sockets = []; closed = false }

-- ln.Close()
pub close_socket : ℕ → List ℕ → List ℕ
close_socket ln [] = []
close_socket ln (s ∷ ss) = let rest = close_socket ln ss in if s == ln then rest else s ∷ rest

pub close_listeners : Dict Bytes ℕ → List ℕ → List ℕ
unfolding close_socket
close_listeners [] ss = ss
close_listeners ((name, ln) ∷ lns) ss = close_listeners lns (close_socket ln ss)

-- `Close`; the second call does nothing.
pub close : TcpListener → TcpListener
unfolding close_listeners
close l =
    if l.closed
    then l
    else record l { sockets = close_listeners l.listeners l.sockets; closed = true }

-- `Start`, with the result of binding each address; the Boolean tells whether all of them are bound.
unfoldable pub start_listeners :
    (ListenSpec → Option ℕ) → List ListenSpec → TcpListener → TcpListener × Bool
unfolding close
start_listeners bind [] l = (l, true)
start_listeners bind (spec ∷ specs) l = elim (bind spec) [
  | none ↦ (close l, false)
  | some ln ↦
      start_listeners bind specs
        (record l { listeners = insert spec.name ln l.listeners; sockets = ln ∷ l.sockets })
]

-- `BoundPorts`, where `port_of` is the port of a socket's address.
pub bound_ports : (ℕ → ℕ) → Dict Bytes ℕ → Dict Bytes ℕ
bound_ports port_of [] = []
bound_ports port_of ((name, ln) ∷ lns) = insert name (port_of ln) (bound_ports port_of lns)

-- `acceptLoop` of the listener `name`, over what `Accept` returns: for a connection, its random number
-- and its streams; an error ends the loop.
pub accept_loop : Bytes → List (Option (ℕ × (ℕ → Option Writer))) → List Opened
unfolding accept_conn
accept_loop name [] = []
accept_loop name (none ∷ accepts) = []
accept_loop name (some (random, opens) ∷ accepts) =
    accept_conn name random opens ∷ accept_loop name accepts
