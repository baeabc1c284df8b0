-- ===== src/Transport.antt =====
-- internal/transport/transport.go: a session over several QUIC connections. A connection, and a
-- stream, is the number that the library gives; what its calls return is an argument.
pub mod RoundRobin
pub mod Setup
pub mod Packets
pub mod Accept
use nl_punch.Prelude.{
  [], ℕ, zero, suc, ◌+◌, ◌%◌, ◌^◌, ◌∷◌, ◌++◌, List, nat_eq, not, Bool, if◌then◌else◌, length,
  get_elem?, Option, none, some,
}
use nl_punch.Stream.{Result, ok, err}

-- numSubconns
abbrev pub num_subconns : ℕ
num_subconns = 4

pub record Session : Type 0 where
  pub conns : List ℕ
  pub next : ℕ

abbrev pub new_session : List ℕ → Session
new_session conns = record { conns = conns; next = 0 }

-- s.next.Add(1), on an unsigned word of 64 bits
abbrev pub advance : ℕ → ℕ
advance next = (next + 1) % 2 ^ 64

-- Which connection the next stream goes to; there is at least one.
abbrev pub pick : Session → ℕ
pick s = advance s.next % length s.conns

-- `OpenStream`: `none` where there is no such connection, which would be a panic. `open` is
-- `OpenStreamSync` of a connection.
pub open_stream {ℓ} : {E : Type ℓ} → (ℕ → Result E ℕ) → Session → Session × Option (Result E ℕ)
open_stream open_on s = (
  record s { next = advance s.next },
  (elim (get_elem? s.conns (pick s)) [ none ↦ none | some c ↦ some (open_on c) ]),
)

-- The loop of `Serve` and of `Dial`, with `left` connections to go: `connect i` is the i-th call,
-- and an error closes the connections that there are.
pub data Subconns : Type 0 where
  aborted : ℕ → List ℕ → Subconns
  joined : List ℕ → Subconns

unfoldable pub connect_all : (ℕ → Option ℕ) → ℕ → ℕ → List ℕ → Subconns
connect_all connect zero i conns = joined conns
connect_all connect (suc left) i conns = elim (connect i) [
  | none ↦ aborted i conns
  | some c ↦ connect_all connect left (i + 1) (conns ++ c ∷ [])
]

pub data SetupError : Type 0 where
  no_certificate no_listener bad_address : SetupError
  -- with the connections that are closed
  no_subconn : ℕ → List ℕ → SetupError

abbrev pub session_of : Subconns → Result SetupError Session
session_of (aborted i closed) = err (no_subconn i closed)
session_of (joined conns) = ok (new_session conns)

-- `Serve`, with whether there are a certificate and a listener, and the listener's `Accept`.
unfoldable pub serve_session : Bool → Bool → (ℕ → Option ℕ) → Result SetupError Session
unfolding connect_all
serve_session certified listening accept =
    if not certified
    then err no_certificate
    else if not listening
    then err no_listener
    else session_of (connect_all accept num_subconns 0 [])

-- `Dial`, with whether the address resolves, and the `Dial` of the library.
unfoldable pub dial_session : Bool → (ℕ → Option ℕ) → Result SetupError Session
unfolding connect_all
dial_session resolved dial =
    if not resolved then err bad_address else session_of (connect_all dial num_subconns 0 [])
