-- ===== src/Main/Session.antt =====
-- `runOnce` of cmd/nl-punch/main.go: what a session opens, in the order of the
-- code, what its deferred calls close, and when it ends. The open things of the process are
-- the numbers that the libraries give, and counts where the code keeps no hold of them: the agents of
-- the pion library, each of which ends when its connection is closed, and the QUIC transports with
-- their buffers, which nothing closes. `router.Close` closes nothing of these.
pub mod Deferred
pub mod Opened
pub mod Cleanup
pub mod Reconnect
pub mod Rounds
use nl_punch.Prelude.{
  [], ℕ, zero, suc, ◌+◌, ◌-◌, ◌∷◌, ◌++◌, List, Bytes, nat_eq, string_eq, ◌==◌, ◌||◌, ◌&&◌, Bool,
  true, false, if◌then◌else◌, Option, none, some,
}
use nl_punch.Prelude.Dict.{lookup}
use nl_punch.Stream.{Result, ok, err}
use nl_punch.Config.{Config, Peer, other_role}
use nl_punch.Forward.Listener
use nl_punch.Forward.Listener.{TcpListener, new_tcp_listener, start_listeners, close}
use nl_punch.Forward.Router.{AcceptRouter, new_accept_router}
use nl_punch.Transport
use nl_punch.Transport.{
  num_subconns, SetupError, no_certificate, no_listener, bad_address, no_subconn, serve_session,
  dial_session,
}
use nl_punch.Ice.{IceError, agent_error, Start, Connected, no_agent, agent_closed, starts}
use nl_punch.Main.{dial_map, next_backoff, wait_for, second}
use nl_punch.Main.Startup.{to_fwd_listen, transport_side, TransportSide, serves, dials}

pub record Process : Type 0 where
  pub agents : ℕ
  pub transports : ℕ
  pub ice_conns : List ℕ
  pub subconns : List ℕ
  pub sockets : List ℕ

-- Between two sessions, with the agents and transports that have been left.
abbrev pub idle : ℕ → ℕ → Process
idle agents transports = record {
  agents = agents;
  transports = transports;
  ice_conns = [];
  subconns = [];
  sockets = [];
}

-- What the select of `runOnce` waits for: its ticker, its context, or that a connection is shut down.
pub data LoopEvent : Type 0 where
  stats_tick cancelled : LoopEvent
  shut_down : ℕ → LoopEvent

-- What the calls of one session return.
pub record Calls {ℓ κ} (E : Type ℓ) (Candidate : Type κ) : Type (ℓ ⊔ κ) where
  -- `agent.Connect` up to its last call, and that call
  pub connected : Connected E Candidate
  pub last_call : Start Candidate → Result E ℕ
  pub certified : Bool
  pub listening : Bool
  pub resolved : Bool
  -- the i-th `Accept` or `Dial` of the transport
  pub subconn : ℕ → Option ℕ
  pub bind : Listener.ListenSpec → Option ℕ
  pub events : List LoopEvent

pub data RunError {ℓ} (E : Type ℓ) : Type ℓ where
  ice_connect : IceError E → RunError E
  transport_failed : SetupError → RunError E
  listeners_failed session_closed context_done : RunError E

-- A session that has ended, or is still up.
pub record Run {ℓ} (E : Type ℓ) : Type ℓ where
  pub process : Process
  pub result : Option (RunError E)
  pub router : Option AcceptRouter

abbrev pub ended {ℓ} : {E : Type ℓ} → RunError E → Process → Run E
ended e p = record { process = p; result = some e; router = none }

-- defer
abbrev pub on_result {ℓ} : {E : Type ℓ} → (Process → Process) → Run E → Option (RunError E) → Run E
on_result undo r none = r
on_result undo r (some e) = record r { process = undo r.process }

abbrev pub deferred {ℓ} : {E : Type ℓ} → (Process → Process) → Run E → Run E
deferred undo r = on_result undo r r.result

unfoldable pub is_in : ℕ → List ℕ → Bool
is_in c [] = false
is_in c (d ∷ ds) = c == d || is_in c ds

-- What is still open when these are closed.
unfoldable pub left_open : List ℕ → List ℕ → List ℕ
unfolding is_in
left_open closed [] = []
left_open closed (c ∷ cs) =
    let rest = left_open closed cs in if is_in c closed then rest else c ∷ rest

-- cfg.Peers[role], the zero value where it is missing
abbrev no_peer : Peer
no_peer = record { listen = []; dial = [] }

abbrev pub or_zero : Option Peer → Peer
or_zero none = no_peer
or_zero (some p) = p

abbrev pub peer_of : Config → Bytes → Peer
peer_of c role = or_zero (lookup role c.peers)

-- `Session.Wait` closes its channel as soon as one connection of the session is shut down.
unfoldable pub select_loop {ℓ} : {E : Type ℓ} → List ℕ → List LoopEvent → Option (RunError E)
unfolding is_in
select_loop conns [] = none
select_loop conns (cancelled ∷ events) = some context_done
select_loop conns (stats_tick ∷ events) = select_loop conns events
select_loop conns (shut_down c ∷ events) =
    let later = select_loop conns events in if is_in c conns then some session_closed else later

-- The connections that the library makes in the loop of `Serve` or of `Dial`, up to a call that fails.
unfoldable pub opened_conns : (ℕ → Option ℕ) → ℕ → ℕ → List ℕ
opened_conns connect zero i = []
opened_conns connect (suc left) i = elim (connect i) [
  | none ↦ []
  | some c ↦ c ∷ opened_conns connect left (i + 1)
]

-- What `Serve` and `Dial` close when they fail.
abbrev pub aborted_conns : SetupError → List ℕ
aborted_conns (no_subconn i closed) = closed
aborted_conns no_certificate = []
aborted_conns no_listener = []
aborted_conns bad_address = []

abbrev pub open_agent : Process → Process
open_agent p = record p { agents = p.agents + 1 }

abbrev pub close_agent : Process → Process
close_agent p = record p { agents = p.agents - 1 }

module _ {ℓ κ} {E : Type ℓ} {Candidate : Type κ} where
  abbrev pub side_session : TransportSide → Calls E Candidate → Result SetupError Transport.Session
  side_session serves calls = serve_session calls.certified calls.listening calls.subconn
  side_session dials calls = dial_session calls.resolved calls.subconn

  -- Whether it comes to a `quic.Transport`, with its buffered connection.
  abbrev pub side_transport : TransportSide → Calls E Candidate → Bool
  side_transport serves calls = calls.certified
  side_transport dials calls = calls.resolved

  abbrev pub side_conns : TransportSide → Calls E Candidate → List ℕ
  side_conns serves calls =
      if calls.certified && calls.listening then opened_conns calls.subconn num_subconns 0 else []
  side_conns dials calls = if calls.resolved then opened_conns calls.subconn num_subconns 0 else []

  abbrev pub transport_session : Bytes → Calls E Candidate → Result SetupError Transport.Session
  transport_session role calls = side_session (transport_side role) calls

  -- What `Serve` or `Dial` opens, whether or not it fails in the end.
  abbrev pub set_up : TransportSide → Calls E Candidate → Process → Process
  set_up side calls p = record p {
    transports = p.transports + (if side_transport side calls then 1 else 0);
    subconns = side_conns side calls ++ p.subconns;
  }

  module _ (c : Config) (role : Bytes) (calls : Calls E Candidate) where
    abbrev pub started : TcpListener × Bool
    started = start_listeners calls.bind (to_fwd_listen (peer_of c role).listen) new_tcp_listener

    -- With the listeners up.
    unfoldable pub serving : List ℕ → Process → Run E
    unfolding select_loop
    serving conns p = record {
      process = p;
      result = select_loop conns calls.events;
      router = some (new_accept_router (dial_map (peer_of c role) (peer_of c (other_role role))));
    }

    abbrev bound : TcpListener → Process → Process
    bound l p = record p { sockets = l.sockets ++ p.sockets }

    abbrev pub close_bound : TcpListener → List ℕ → Process → Process
    close_bound l before p = record p { sockets = (close l).sockets ++ before }

    -- With what `Start` leaves; it has cleaned up after an error.
    unfoldable pub with_listeners : List ℕ → Process → TcpListener × Bool → Run E
    unfolding serving
    with_listeners conns p (l, true) =
        deferred (close_bound l p.sockets) (serving conns (bound l p))
    with_listeners conns p (l, false) = ended listeners_failed (bound l p)

    abbrev pub close_session : List ℕ → Process → Process
    close_session conns p = record p { subconns = left_open conns p.subconns }

    -- With what `Serve` or `Dial` returns: it has closed connections after an error.
    unfoldable pub with_session : Process → Result SetupError Transport.Session → Run E
    unfolding with_listeners left_open
    with_session p (err e) = ended (transport_failed e) (close_session (aborted_conns e) p)
    with_session p (ok sess) =
        deferred (close_session sess.conns) (with_listeners sess.conns p started)

    abbrev pub close_ice : ℕ → Process → Process
    close_ice conn p = close_agent (record p { ice_conns = left_open (conn ∷ []) p.ice_conns })

    -- With what the last call of `agent.Connect` returns: an error leaves the agent as it is.
    unfoldable pub with_conn : Process → Result E ℕ → Run E
    unfolding with_session opened_conns
    with_conn p (err e) = ended (ice_connect (agent_error e)) p
    with_conn p (ok conn) = deferred (close_ice conn) (
        with_session
          (set_up (transport_side role) calls (record p { ice_conns = conn ∷ p.ice_conns }))
          (transport_session role calls))

    -- With how `agent.Connect` ends.
    unfoldable pub with_ice : Process → Connected E Candidate → Run E
    unfolding with_conn
    with_ice p (no_agent e) = ended (ice_connect e) p
    with_ice p (agent_closed e) = ended (ice_connect e) (close_agent (open_agent p))
    with_ice p (starts st) = with_conn (open_agent p) (calls.last_call st)

    unfoldable pub run_once : Process → Run E
    unfolding with_ice
    run_once p = with_ice p calls.connected
