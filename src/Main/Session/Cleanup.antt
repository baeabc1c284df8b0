-- ===== src/Main/Session/Cleanup.antt =====
-- What `runOnce` of cmd/nl-punch/main.go leaves open.
use nl_punch.Prelude.{
  ℕ, ◌+◌, [], ◌∷◌, ◌++◌, List, append-nil, Bytes, nat_eq, string_eq, Bool, true, false, length,
  if◌then◌else◌, Option, none, some, ◌≡◌, refl, ap, ◌∙◌, arith,
}
use nl_punch.Stream.{Result, ok, err}
use nl_punch.Config.{Config, other_role}
use nl_punch.Config.Accepts.{IsAccepted}
use nl_punch.Forward.Listener.{TcpListener, close}
use nl_punch.Forward.Listener.Sockets.{start_listeners_lem}
use nl_punch.Forward.Router.{new_accept_router}
use nl_punch.Transport
use nl_punch.Transport.{SetupError, num_subconns}
use nl_punch.Transport.Setup.{IsSetUp, serve_session-IsSetUp}
use nl_punch.Ice.{Start, Connected, no_agent, agent_closed, starts}
use nl_punch.Main.{dial_map}
use nl_punch.Main.Startup.{to_fwd_listen, TransportSide, serves, dials, transport_side}
use nl_punch.Main.Session.{
  Process, idle, Calls, RunError, Run, is_in, left_open, peer_of, side_session, side_transport,
  side_conns, transport_session, started, serving, with_listeners, with_session, with_conn,
  with_ice, close_bound, close_session, close_ice, run_once,
}
use nl_punch.Main.Session.Deferred.{
  deferred-Stands, Stands, is_in_all, left_open_all, length-to_fwd_listen, listen-Distinct,
}
use nl_punch.Main.Session.Opened.{AreOf, side_session-AreOf}

-- The agents that a run leaves: one, if the last call of `Connect` fails.
abbrev pub of_failed {ℓ} : {E : Type ℓ} → Result E ℕ → ℕ
of_failed (err e) = 1
of_failed (ok conn) = 0

abbrev pub left_agents {ℓ κ} :
    {E : Type ℓ} {Candidate : Type κ} → (Start Candidate → Result E ℕ) → Connected E Candidate → ℕ
left_agents last_call (no_agent e) = 0
left_agents last_call (agent_closed e) = 0
left_agents last_call (starts st) = of_failed (last_call st)

-- The transports that it leaves: one, if `Connect` gives a connection and `Serve` gets its
-- certificate, or `Dial` its address.
abbrev pub of_side {ℓ} : {E : Type ℓ} → Bool → Result E ℕ → ℕ
of_side made (err e) = 0
of_side made (ok conn) = if made then 1 else 0

abbrev pub left_transports {ℓ κ} :
    {E : Type ℓ} {Candidate : Type κ}
    → Bool
    → (Start Candidate → Result E ℕ)
    → Connected E Candidate
    → ℕ
left_transports made last_call (no_agent e) = 0
left_transports made last_call (agent_closed e) = 0
left_transports made last_call (starts st) = of_side made (last_call st)

-- A session that is up: the connection of the agent, all those of the transport, and a socket for each
-- listen entry are open, and the router dials by the dial map.
pub record IsUp {ℓ} {E : Type ℓ} (c : Config) (role : Bytes) (r : Run E) : Type 0 where
  pub ice_conns : length r.process.ice_conns ≡ 1
  pub subconns : length r.process.subconns ≡ num_subconns
  pub sockets : length r.process.sockets ≡ length (peer_of c role).listen
  pub router :
      r.router ≡ some (new_accept_router (dial_map (peer_of c role) (peer_of c (other_role role))))

abbrev with_conns : ℕ → ℕ → ℕ → List ℕ → Process
with_conns agents transports conn conns = record {
  agents = agents;
  transports = transports;
  ice_conns = conn ∷ [];
  subconns = conns;
  sockets = [];
}

module _ {ℓ κ} {E : Type ℓ} {Candidate : Type κ} (c : Config) (role : Bytes)
    (calls : Calls E Candidate) (v : IsAccepted c) where
  serving-Stands :
      (conns : List ℕ) (p : Process)
      → length p.ice_conns ≡ 1
      → length p.subconns ≡ num_subconns
      → length p.sockets ≡ length (peer_of c role).listen
      → let r = serving c role calls conns p in
        (o : Option (RunError E)) → Stands (IsUp c role) p r o
  unfolding serving
  serving-Stands conns p one all bound none = record {
    ice_conns = one;
    subconns = all;
    sockets = bound;
    router = refl;
  }
  serving-Stands conns p one all bound (some e) = refl

  -- What `start_listeners_lem` says of the listeners.
  with_listeners-Stands :
      (a t conn : ℕ) (conns : List ℕ) (o : TcpListener × Bool)
      → length conns ≡ num_subconns
      → (o.1 ≡ false → o.0.sockets ≡ [])
      → (o.1 ≡ true
          → (length o.0.sockets ≡ length (to_fwd_listen (peer_of c role).listen))
            × ((close o.0).sockets ≡ []))
      → let r = with_listeners c role calls conns (with_conns a t conn conns) o in
        Stands (IsUp c role) (with_conns a t conn conns) r r.result
  unfolding with_listeners
  with_listeners-Stands a t conn conns (l, true) all failed bound =
      let (many, closed) = bound refl in
      let p = record (with_conns a t conn conns) { sockets = l.sockets ++ [] } in
      let len : length (l.sockets ++ []) ≡ length (peer_of c role).listen =
        ap length (append-nil l.sockets) ∙ many ∙ length-to_fwd_listen (peer_of c role).listen in
      deferred-Stands (IsUp c role) (with_conns a t conn conns) p (close_bound c role calls l [])
        (rw closed) (serving c role calls conns p) (serving-Stands conns p refl all len _)
  with_listeners-Stands a t conn conns (l, false) all failed bound = rw (failed refl)

  over_session-Stands :
      (a t conn : ℕ) (conns : List ℕ)
      → length conns ≡ num_subconns
      → let r =
          with_listeners c role calls conns (with_conns a t conn conns) (started c role calls) in
        Stands (IsUp c role) (with_conns a t conn conns) r r.result
  over_session-Stands a t conn conns all =
      let (failed, bound) =
        start_listeners_lem calls.bind (to_fwd_listen (peer_of c role).listen)
          (listen-Distinct c role v) in
      with_listeners-Stands a t conn conns (started c role calls) all failed bound

  -- Whatever `Serve` or `Dial` has opened, the session or they themselves close.
  with_session-Stands :
      (a t conn : ℕ) (opened : List ℕ) (o : Result SetupError Transport.Session)
      → IsSetUp calls.subconn o
      → AreOf opened o
      → let r = with_session c role calls (with_conns a t conn (opened ++ [])) o in
        Stands (IsUp c role) (with_conns a t conn []) r r.result
  unfolding with_session
  with_session-Stands a t conn opened (err e) h same =
      rw (append-nil opened, same, left_open_all opened opened (is_in_all opened))
  with_session-Stands a t conn opened (ok sess) h same =
      rw (append-nil opened, ← same)
        (deferred-Stands (IsUp c role) (with_conns a t conn []) (with_conns a t conn sess.conns)
          (close_session c role calls sess.conns)
          (rw (left_open_all sess.conns sess.conns (is_in_all sess.conns)))
          (with_listeners c role calls sess.conns (with_conns a t conn sess.conns)
            (started c role calls))
          (over_session-Stands a t conn sess.conns h.0))

  transport_session-IsSetUp : IsSetUp calls.subconn (transport_session role calls)
  transport_session-IsSetUp = by_side (transport_side role)
    where
      by_side : (side : TransportSide) → IsSetUp calls.subconn (side_session side calls)
      by_side serves =
          (serve_session-IsSetUp calls.certified calls.listening calls.resolved calls.subconn).0
      by_side dials =
          (serve_session-IsSetUp calls.certified calls.listening calls.resolved calls.subconn).1

  with_conn-Stands :
      (a t : ℕ) (o : Result E ℕ)
      → let made = side_transport (transport_side role) calls in
        let r = with_conn c role calls (idle (a + 1) t) o in
        Stands (IsUp c role) (idle (a + of_failed o) (t + of_side made o)) r r.result
  unfolding with_conn left_open is_in
  with_conn-Stands a t (err e) = ground arith
  with_conn-Stands a t (ok conn) =
      let made = side_transport (transport_side role) calls in
      let t' = t + (if made then 1 else 0) in
      let conns = side_conns (transport_side role) calls in
      deferred-Stands (IsUp c role) (idle (a + 0) t') (with_conns (a + 1) t' conn [])
        (close_ice c role calls conn) (ground arith) _
        (with_session-Stands (a + 1) t' conn conns (transport_session role calls)
          transport_session-IsSetUp (side_session-AreOf (transport_side role) calls))

  with_ice-Stands :
      (a t : ℕ) (o : Connected E Candidate)
      → let made = side_transport (transport_side role) calls in
        let r = with_ice c role calls (idle a t) o in
        Stands
          (IsUp c role)
          (idle (a + left_agents calls.last_call o) (t + left_transports made calls.last_call o))
          r
          r.result
  unfolding with_ice
  with_ice-Stands a t (no_agent e) = ground arith
  with_ice-Stands a t (agent_closed e) = ground arith
  with_ice-Stands a t (starts st) = with_conn-Stands a t (calls.last_call st)

  -- Under an accepted configuration, whatever fails and whenever it ends, from a process that has
  -- no connections and no sockets: a session that has ended has closed every connection and every
  -- socket that it opened, and has left one agent if the last call of `Connect` has failed, and
  -- one QUIC transport if it came to make one, and no other; one that has not ended is up, with
  -- the agent's connection, all connections of the transport, a socket for each listen entry, and
  -- the router on the dial map of the two peers.
  pub run_once-Stands :
      (agents transports : ℕ)
      → let made = side_transport (transport_side role) calls in
        let r = run_once c role calls (idle agents transports) in
        Stands
          (IsUp c role)
          (idle
            (agents + left_agents calls.last_call calls.connected)
            (transports + left_transports made calls.last_call calls.connected))
          r
          r.result
  unfolding run_once
  run_once-Stands agents transports = with_ice-Stands agents transports calls.connected
