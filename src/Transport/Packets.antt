-- ===== src/Transport/Packets.antt =====
-- `bufferedPacketConn` of internal/transport/transport.go: `drain` as one step for each datagram,
-- `ReadFrom` as one step for each packet that it takes.
pub mod Fifo
use nl_punch.Prelude.{
  [], ℕ, ◌*◌, ◌∷◌, ◌++◌, List, Bytes, nat_eq, ltb, Bool, true, false, if◌then◌else◌, length, take,
  Option, none, some,
}

pub record Packet : Type 0 where
  pub payload : Bytes
  pub addr : ℕ

-- The channel's buffer, and the size of the buffer that `drain` reads into.
abbrev pub queue_size : ℕ
queue_size = 4096

abbrev pub datagram_size : ℕ
datagram_size = 64 * 1024

pub record BufferedPacketConn : Type 0 where
  pub queue : List Packet
  pub done : Bool

abbrev pub new_buffered : BufferedPacketConn
new_buffered = record { queue = []; done = false }

-- What `drain` reads of a datagram.
abbrev pub received : Packet → Packet
received p = record p { payload = take datagram_size p.payload }

-- One round of `drain`: a datagram, which is dropped if the queue is full, or the read that fails.
pub drain_one : BufferedPacketConn → Packet → BufferedPacketConn
drain_one b p =
    if ltb (length b.queue) queue_size then record b { queue = b.queue ++ received p ∷ [] } else b

abbrev drain_fails : BufferedPacketConn → BufferedPacketConn
drain_fails b = record b { done = true }

-- `ReadFrom` into a buffer of `n` bytes: it can take a packet whenever there is one; once `done` is
-- closed it can also return net.ErrClosed, which takes none.
pub read_from : ℕ → BufferedPacketConn → Option (Packet × BufferedPacketConn)
read_from n b = elim b.queue [
  | [] ↦ none
  | p ∷ ps ↦ some (record p { payload = take n p.payload }, record b { queue = ps })
]

-- What happens to the connection, in some order.
pub data Event : Type 0 where
  arrives : Packet → Event
  fails : Event
  reads : ℕ → Event

pub record Run : Type 0 where
  pub conn : BufferedPacketConn
  pub returned : List Packet

abbrev pub took : Run → Option (Packet × BufferedPacketConn) → Run
took r none = r
took r (some (p, b)) = record { conn = b; returned = r.returned ++ p ∷ [] }

-- Nothing arrives after the read has failed.
abbrev pub step : Run → Event → Run
step r (arrives p) = if r.conn.done then r else record r { conn = drain_one r.conn p }
step r fails = record r { conn = drain_fails r.conn }
step r (reads n) = took r (read_from n r.conn)

pub run : Run → List Event → Run
unfolding drain_one read_from
run r [] = r
run r (e ∷ es) = run (step r e) es

abbrev pub arrivals : List Event → List Packet
arrivals [] = []
arrivals (arrives p ∷ es) = p ∷ arrivals es
arrivals (fails ∷ es) = arrivals es
arrivals (reads n ∷ es) = arrivals es
