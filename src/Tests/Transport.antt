-- ===== src/Tests/Transport.antt =====
-- Four connections, the packets of three datagrams, and the accept loops of two connections.
use nl_punch.Prelude.{
  ℕ, [], ◌∷◌, ◌++◌, List, nat_eq, false, ◌≡◌, ◌≢◌, ◌+◌, ◌-◌, ◌^◌, ◌%◌, get_elem?, some, refl, arith,
}
use nl_punch.Stream.{Result, ok}
use nl_punch.Transport.{new_session, Session}
use nl_punch.Transport.RoundRobin.{open_streams, open_streams-turn}
use nl_punch.Transport.Packets.{Packet, Event, arrives, reads, fails}
use nl_punch.Transport.Accept.{Hub, ended, stream, Reach, at_start, later, gets, sends, takes}
use nl_punch.Transport.Accept.Order.{streams_of, pending, sends-open, taken_prefix}

abbrev opens : ℕ → Result ℕ ℕ
opens c = ok c

abbrev four : Session
four = new_session (11 ∷ 12 ∷ 13 ∷ 14 ∷ [])

-- The sixth of eight calls, one call after the counter has wrapped around.
abbrev wrapped : Session
wrapped = record four { next = 2 ^ 64 - 5 }

open_streams-turn_example :
    (c : ℕ) × (get_elem? wrapped.conns ((wrapped.next + 5 + 1) % 4) ≡ some c)
    × (get_elem? (open_streams opens wrapped 8) 5 ≡ some (some (opens c)))
open_streams-turn_example = open_streams-turn opens wrapped 8 5 refl (omega arith)

abbrev datagram : ℕ → Packet
datagram a = record { payload = 1 ∷ 2 ∷ []; addr = a }

-- The second is read into a buffer of one byte; the third comes after the failure.
abbrev events : List Event
events =
    arrives (datagram 1)
    ∷ arrives (datagram 2)
    ∷ reads 9
    ∷ reads 1
    ∷ fails
    ∷ arrives (datagram 3)
    ∷ []

-- The loop of connection 0 sends a stream, which is taken, and has another one.
abbrev reached : (s : Hub) × Reach 2 s
reached = (
  _,
  later
      (later
        (later (later at_start (gets 0 21 (omega arith) refl))
          (sends 0 21 (omega arith) refl (omega arith)))
        (takes (stream 0 21) [] refl))
      (gets 0 22 (omega arith) refl),
)

has_more : (lost : List ℕ) → reached.0.loops 0 ≢ ended lost
has_more lost e = cc e

sends-open_example : reached.0.sealed ≡ false
sends-open_example = sends-open 2 reached.0 0 reached.1 (omega arith) has_more

taken_prefix_example :
    streams_of 0 reached.0.taken ++ (streams_of 0 reached.0.channel ++ pending (reached.0.loops 0))
    ≡ streams_of 0 reached.0.accepted
taken_prefix_example = taken_prefix 2 reached.0 0 reached.1
