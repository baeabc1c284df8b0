-- ===== src/Tests/Pump.antt =====
-- A connection of two stripes: the source gives two chunks, stripe 1 takes the first of them and
-- stripe 0 the second, and at the other end the second chunk is the first to come in.
use nl_punch.Prelude.{
  ℕ, ◌+◌, ◌%◌, ◌^◌, [], ◌∷◌, List, Bytes, nat_eq, string_eq, length, none, some, ◌≡◌, refl, arith,
}
use mathlib.Core.List.{flatten}
use nl_punch.Stream.{IoError, eof, Writer, read_full, write, put_uint, get_uint, get_uint_from}
use nl_punch.Forward.Chunk.{read_chunk, after_hdr, read_payload, write_chunk, chunk_hdr}
use nl_punch.Forward.Dispatch.{serve, send_to, read_loop, write_stripes, loop_state, streams_after}
use nl_punch.Forward.Reassembly.{
  StripeChunk, terminator, item, read_rounds, stripe_reader, read_stripes_to_tcp,
}
use nl_punch.Forward.Pump.{readers}
use nl_punch.Forward.Pump.Merge.{Merge, done, take_from}
use nl_punch.Forward.Pump.EndToEnd.{pump_exact}
use nl_punch.Forward.Pump.Prefix.{IsPrefixed, pump_prefix}

abbrev new_count : ℕ
new_count = 10

abbrev no_fault : ℕ → IoError
no_fault i = eof

abbrev fresh : Writer
fresh = record { written = []; room = none }

abbrev reads : List Bytes
reads = (1 ∷ 2 ∷ []) ∷ (3 ∷ []) ∷ [] ∷ []

abbrev picks : List ℕ
picks = 1 ∷ 0 ∷ []

abbrev streams : List Writer
streams = fresh ∷ fresh ∷ []

-- What the two stripes carry.
abbrev sent : List Writer
sent =
    record {
      written = 0 ∷ 0 ∷ 0 ∷ 1 ∷ 0 ∷ 0 ∷ 0 ∷ 1 ∷ 3 ∷ 0 ∷ 0 ∷ 0 ∷ 0 ∷ 0 ∷ 0 ∷ 0 ∷ 2 ∷ [];
      room = none;
    }
    ∷ record {
      written = 0 ∷ 0 ∷ 0 ∷ 2 ∷ 0 ∷ 0 ∷ 0 ∷ 0 ∷ 1 ∷ 2 ∷ 0 ∷ 0 ∷ 0 ∷ 0 ∷ 0 ∷ 0 ∷ 0 ∷ 2 ∷ [];
      room = none;
    }
    ∷ []

abbrev incoming : List StripeChunk
incoming = item 0 1 (3 ∷ []) ∷ terminator 0 2 ∷ item 1 0 (1 ∷ 2 ∷ []) ∷ terminator 1 2 ∷ []

is_sent : write_stripes reads picks streams 7 ≡ some (sent, 10)
unfolding write_stripes read_loop send_to serve write_chunk chunk_hdr write put_uint
is_sent = refl

is_incoming : Merge (readers no_fault 0 sent) incoming
unfolding readers stripe_reader read_rounds read_chunk after_hdr read_payload read_full get_uint
    get_uint_from
is_incoming =
    take_from 0 _ _ refl
      (take_from 0 _ _ refl (take_from 1 _ _ refl (take_from 1 _ _ refl (done (refl, (refl, tt))))))

-- The only stripe breaks after the first chunk. Its writer returns with the second one, and the third
-- is waited with for ever.
abbrev long_reads : List Bytes
long_reads = (1 ∷ 2 ∷ []) ∷ (3 ∷ []) ∷ (4 ∷ []) ∷ []

abbrev zeros : List ℕ
zeros = 0 ∷ 0 ∷ 0 ∷ []

abbrev broken : List Writer
broken = record { written = []; room = some 10 } ∷ []

abbrev one_item : List StripeChunk
one_item = item 0 0 (1 ∷ 2 ∷ []) ∷ terminator 0 0 ∷ []

waits_for_ever : write_stripes long_reads zeros broken 7 ≡ none
unfolding write_stripes read_loop send_to serve write_chunk chunk_hdr write put_uint
waits_for_ever = refl

is_cut_off : Merge (readers no_fault 0 (streams_after long_reads zeros broken 7)) one_item
unfolding streams_after loop_state write_stripes read_loop send_to serve write_chunk chunk_hdr write
    put_uint readers stripe_reader read_rounds read_chunk after_hdr read_payload read_full get_uint
    get_uint_from
is_cut_off = take_from 0 _ _ refl (take_from 0 _ _ refl (done (refl, tt)))

pump_prefix_example : IsPrefixed long_reads zeros broken 7 no_fault one_item fresh 0
pump_prefix_example =
    pump_prefix long_reads zeros broken 7 no_fault one_item fresh 0 (omega arith) (omega arith)
      (omega arith) (omega arith, (omega arith, (omega arith, tt))) (refl, tt) is_cut_off

pump_exact_example :
    (read_stripes_to_tcp 2 incoming fresh 40
      ≡ (record { written = flatten reads; room = none }, (40 + length (flatten reads)) % 2 ^ 64))
    × (new_count ≡ (7 + length (flatten reads)) % 2 ^ 64)
pump_exact_example =
    pump_exact reads picks streams sent 7 10 no_fault incoming fresh 40 (omega arith) (omega arith)
      (omega arith) (omega arith, (omega arith, (omega arith, tt))) (refl, (refl, tt))
      (refl, (refl, tt)) refl is_sent is_incoming
