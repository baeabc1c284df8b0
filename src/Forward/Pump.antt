-- ===== src/Forward/Pump.antt =====
-- The pump of internal/forward/forward.go between two ends: `writeStripes` on one side,
-- `readStripesToTCP` on the other.
pub mod Merge
pub mod Wire
pub mod Report
pub mod Sent
pub mod Channel
pub mod Halted
pub mod Prefix
pub mod EndToEnd
use nl_punch.Prelude.{[], ℕ, ◌+◌, ◌≤◌, ◌∷◌, List, Bytes, nat_eq, length, none, ◌≡◌}
use nl_punch.Stream.{IoError, Reader, Writer}
use nl_punch.Forward.Dispatch.{chunk_size}
use nl_punch.Forward.Reassembly.{StripeChunk, stripe_reader}

-- The other end of a connection: what was written arrives, and then the connection fails in its way.
abbrev pub received : IoError → Writer → Reader
received e w = record { rest = w.written; fault = e }

-- The readers of all stripes, from stripe `i` on.
unfoldable pub readers : (ℕ → IoError) → ℕ → List Writer → List (List StripeChunk)
readers fault i [] = []
readers fault i (w ∷ ws) = stripe_reader i (received (fault i) w) ∷ readers fault (i + 1) ws

-- A connection on which nothing has been written.
abbrev pub IsFresh : Writer → Type 0
IsFresh w = w.written ≡ []

-- What one `Read` into the buffer of `writeStripes` can return.
abbrev pub IsRead : Bytes → Type 0
IsRead p = length p ≤ chunk_size

abbrev pub IsUnbroken : Writer → Type 0
IsUnbroken w = w.room ≡ none
