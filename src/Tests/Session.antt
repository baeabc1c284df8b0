-- ===== src/Tests/Session.antt =====
-- Rounds of the reconnect loop of the listening peer: one connection of the first session breaks, the
-- address of its listener is taken in the second one, and the peer is out of reach in the third.
use nl_punch.Prelude.{
  ℕ, ◌+◌, [], ◌∷◌, List, nat_eq, string_eq, bytes_eq, true, false, if◌then◌else◌, ◌==◌, Option,
  none, some, ◌≡◌, refl,
}
use nl_punch.Stream.{Result, ok, err}
use nl_punch.Ice.{Start, starts, accept}
use nl_punch.Config.{role_peer_b}
use nl_punch.Config.Accepts.{IsAccepted, validate_iff}
use nl_punch.Forward.Listener
use nl_punch.Forward.Listener.{start_listeners}
use nl_punch.Prelude.Dict.{lookup}
use nl_punch.Transport.{connect_all, serve_session, dial_session}
use nl_punch.Main.{reconnect_waits}
use nl_punch.Main.Startup.{to_fwd_listen}
use nl_punch.Main.Session.{
  Calls, shut_down, stats_tick, LoopEvent, idle, run_once, listeners_failed, session_closed, is_in,
  select_loop, serving, with_listeners, with_session, with_conn, with_ice, left_open, opened_conns,
}
use nl_punch.Main.Session.Reconnect.{Round, run_reconnect_loop}
use nl_punch.Main.Session.Cleanup.{IsUp, run_once-Stands}
use nl_punch.Main.Session.Deferred.{Stands}
use nl_punch.Main.Session.Rounds.{IsTidy, AreFirst, run_reconnect_loop-IsTidy}
use nl_punch.Tests.Config.{config, config-validate}

accepted : IsAccepted config
accepted = (validate_iff config).0 config-validate

-- The agent is a peer that accepts, and its candidates are numbers.
abbrev calls :
    (Start ℕ → Result ℕ ℕ) → (Listener.ListenSpec → Option ℕ) → List LoopEvent → Calls ℕ ℕ
calls last_call bind events = record {
  connected = starts (accept [] [] []);
  last_call = last_call;
  certified = true;
  listening = true;
  resolved = true;
  subconn = λ i. some (i + 10);
  bind = bind;
  events = events;
}

abbrev breaks : Calls ℕ ℕ
breaks = calls (λ st. ok 3) (λ spec. some 50) (stats_tick ∷ shut_down 12 ∷ [])

abbrev address_taken : Calls ℕ ℕ
address_taken = calls (λ st. ok 3) (λ spec. none) []

-- The third connection of the transport fails.
abbrev third_fails : ℕ → Option ℕ
third_fails i = if i == 2 then none else some (i + 10)

abbrev aborts : Calls ℕ ℕ
aborts = record breaks { subconn = third_fails }

abbrev unreachable : Calls ℕ ℕ
unreachable = calls (λ st. err 7) (λ spec. some 50) []

run_once-Stands_example :
    Stands
      (IsUp config role_peer_b)
      (idle 4 6)
      (run_once config role_peer_b breaks (idle 4 5))
      (run_once config role_peer_b breaks (idle 4 5)).result
unfolding bytes_eq
run_once-Stands_example = run_once-Stands config role_peer_b breaks accepted 4 5

abbrev round : Calls ℕ ℕ → ℕ → Round ℕ ℕ
round c jitter = record {
  done_before = false;
  calls = c;
  done_after = false;
  jitter = jitter;
  done_waiting = false;
}

abbrev rounds : List (Round ℕ ℕ)
rounds = round breaks 7 ∷ round address_taken 8 ∷ round unreachable 9 ∷ []

run_reconnect_loop-IsTidy_example :
    IsTidy ℕ config role_peer_b 3 3 (run_reconnect_loop config role_peer_b rounds).process
    × AreFirst
        (run_reconnect_loop config role_peer_b rounds).waits
        (reconnect_waits (7 ∷ 8 ∷ 9 ∷ []))
run_reconnect_loop-IsTidy_example = run_reconnect_loop-IsTidy config role_peer_b accepted rounds

broken : (run_once config role_peer_b breaks (idle 0 0)).result ≡ some session_closed
unfolding run_once with_ice with_conn with_session with_listeners serving select_loop is_in
    start_listeners serve_session dial_session connect_all lookup to_fwd_listen bytes_eq
broken = refl

unbound : (run_once config role_peer_b address_taken (idle 0 0)).result ≡ some listeners_failed
unfolding run_once with_ice with_conn with_session with_listeners serving select_loop is_in
    start_listeners serve_session dial_session connect_all lookup to_fwd_listen bytes_eq
unbound = refl

-- The two connections that were made are closed, and the transport is left.
aborted : (run_once config role_peer_b aborts (idle 0 0)).process ≡ idle 0 1
unfolding run_once with_ice with_conn with_session left_open is_in opened_conns serve_session
    dial_session connect_all bytes_eq
aborted = refl

-- The agent is left.
left_agent : (run_once config role_peer_b unreachable (idle 0 0)).process ≡ idle 1 0
unfolding run_once with_ice with_conn
left_agent = refl
