-- ===== src/Forward/Tunnel.antt =====
-- A TCP connection from the listener of one peer to the service at the other
-- (internal/forward/forward.go), in its own direction: the header and the pump of the listener, the
-- header and the pump of the router.
pub mod Prefixed
pub mod Exact
use nl_punch.Prelude.{ℕ, List, Bytes, Option, none, some}
use nl_punch.Stream.{Result, ok, err, Reader, Writer}
use nl_punch.Forward.Header.{StreamHeader, HeaderError}
use nl_punch.Forward.Dispatch.{write_stripes}
use nl_punch.Forward.Reassembly.{stripe_reader, read_stripes_to_tcp}
use nl_punch.Forward.Listener.{Opened, gave_up, pumping}

-- The end of the listener's `handle`: the pump runs unless a stream was missing.
abbrev pub pump_opened : List Bytes → List ℕ → ℕ → Opened → Option (List Writer × ℕ)
pump_opened reads picks counter (gave_up ws) = none
pump_opened reads picks counter (pumping ws) = write_stripes reads picks ws counter

-- The stream of a group of one, from its header to its pump.
abbrev pub pump_stream :
    Result HeaderError (StreamHeader × Reader) → Writer → ℕ → Option (Writer × ℕ)
pump_stream (err e) dst total = none
pump_stream (ok (h, r)) dst total = some (read_stripes_to_tcp 1 (stripe_reader 0 r) dst total)
