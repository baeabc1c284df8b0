-- ===== src/Tests/Reassembly.antt =====
-- Three pieces in a wrong order, the second one twice and the last one never; and a stripe that
-- breaks.
use nl_punch.Prelude.{
  ℕ, ◌+◌, ◌%◌, ◌^◌, ◌≤◌, [], ◌∷◌, List, Bytes, nat_eq, string_eq, true, false, length, All, none,
  some, ◌≡◌, ◌≢◌, refl, arith,
}
use nl_punch.Stream.{Writer, sends, fits, put_uint}
use nl_punch.Forward.Chunk.{chunk_hdr}
use nl_punch.Forward.Chunk.Codec.{chunk_bytes}
use nl_punch.Forward.Dispatch.{write_stripes}
use nl_punch.Forward.Dispatch.Served.{payloads}
use nl_punch.Forward.Dispatch.Progress.{write_stripes_stalls}
use nl_punch.Forward.Reassembly.{StripeChunk, terminator, item, read_stripes_to_tcp}
use nl_punch.Forward.Reassembly.Step.{joined}
use nl_punch.Forward.Reassembly.Arrivals.{arrives, all_arrive, IsPiece, Closes}
use nl_punch.Forward.Reassembly.Delivery.{read_stripes_to_tcp_gapless}

abbrev text : ℕ → Bytes
text k = k ∷ (k + 1) ∷ []

abbrev fresh : Writer
fresh = record { written = []; room = none }

abbrev short : Writer
short = record { written = []; room = some 3 }

abbrev incoming : List StripeChunk
incoming =
    item 0 1 (1 ∷ 2 ∷ []) ∷ item 0 0 (0 ∷ 1 ∷ []) ∷ item 0 1 (1 ∷ 2 ∷ []) ∷ terminator 0 3 ∷ []

is_closed : Closes 1 0 incoming
is_closed = (λ e. cc, ((λ e. cc), ((λ e. cc), ((λ e. λ f. refl), tt))))

are_pieces : All (IsPiece text 3) incoming
are_pieces = (
  λ e. (refl, omega arith),
  ((λ e. (refl, omega arith)), ((λ e. (refl, omega arith)), ((λ e. cc), tt))),
)

are_both : All (IsPiece text 2) incoming
are_both = (
  λ e. (refl, omega arith),
  ((λ e. (refl, omega arith)), ((λ e. (refl, omega arith)), ((λ e. cc), tt))),
)

read_stripes_to_tcp_gapless_example :
    (m : ℕ) × (m ≤ 3)
    × (all_arrive m incoming ≡ true)
    × (arrives m incoming ≡ false)
    × ((read_stripes_to_tcp 1 incoming fresh 5).0 ≡ sends fresh (joined text m))
    × ((read_stripes_to_tcp 1 incoming fresh 5).1 ≡ (5 + length (joined text m)) % 2 ^ 64)
read_stripes_to_tcp_gapless_example =
    read_stripes_to_tcp_gapless text 3 fresh 5 (omega arith) 1 incoming (omega arith) refl is_closed
      are_pieces

all_come : all_arrive 2 incoming ≡ true
unfolding all_arrive arrives
all_come = refl

breaks : fits short.room (chunk_bytes 0 (1 ∷ [])) ≡ false
unfolding chunk_bytes chunk_hdr put_uint
breaks = refl

more : payloads ((2 ∷ []) ∷ []) ≢ []
unfolding payloads
more e = cc e

write_stripes_stalls_example :
    write_stripes ((1 ∷ []) ∷ (2 ∷ []) ∷ []) (0 ∷ 0 ∷ []) (short ∷ []) 0 ≡ none
write_stripes_stalls_example =
    write_stripes_stalls 1 [] ((2 ∷ []) ∷ []) (0 ∷ 0 ∷ []) short 0 breaks more
