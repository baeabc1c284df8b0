-- ===== src/Transport/Packets/Fifo.antt =====
-- What `ReadFrom` of `bufferedPacketConn` (internal/transport/transport.go) returns, of what arrives.
use nl_punch.Prelude.{ℕ, ◌≤◌, [], ◌∷◌, ◌++◌, List, nat_eq, string_eq, length, take, ◌≡◌, ◌⊎◌}
use nl_punch.Transport.Packets.{Packet, queue_size, Run}

abbrev trim : ℕ → Packet → Packet
trim n p = record p { payload = take n p.payload }

-- The abstract view: a channel that can lose packets and cut off their ends, and keeps the order and
-- the addresses.
abbrev pub Lossy : List Packet → List Packet → Type 0
Lossy out [] = out ≡ []
Lossy out (p ∷ ins) =
    Lossy out ins ⊎ ((n : ℕ) × (rest : List Packet) × (out ≡ trim n p ∷ rest) × Lossy rest ins)

-- What has been read and what waits, of what has arrived.
record IsLossy (ins : List Packet) (r : Run) : Type 0 where
  pub bounded : length r.conn.queue ≤ queue_size
  pub ordered : Lossy (r.returned ++ r.conn.queue) ins
