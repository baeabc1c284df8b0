-- ===== src/Tests/Framing.antt =====
-- A header and a chunk on the wire.
use nl_punch.Prelude.{
  ◌<◌, [], ◌∷◌, ◌++◌, nat_eq, string_eq, length, take, All, none, some, ◌≡◌, refl, arith,
}
use nl_punch.Stream.{
  IoError, eof, ok, Reader, Writer, IsByte, read_full, put_uint, get_uint, get_uint_from,
}
use nl_punch.Forward.Chunk.{read_chunk, chunk_hdr, write_chunk}
use nl_punch.Forward.Chunk.Codec.{chunk_bytes, read_chunk-write_chunk, read_chunk_cut}
use nl_punch.Forward.Header.{
  StreamHeader, header_bytes, write_stream_header, read_stream_header, read_body, header_of,
  check_stripes,
}
use nl_punch.Forward.Header.Codec.{IsValid, read-write_stream_header}
use nl_punch.Forward.Header.Accepts.{read_stream_header-ok}

abbrev header : StreamHeader
header = record { tag = b'h' ∷ []; session_id = 258; stripe_idx = 0; num_stripes = 1 }

header-IsValid : IsValid header
header-IsValid = record {
  tag_bytes = (omega arith, tt);
  tag_nonempty = omega arith;
  tag_fits = omega arith;
  session_fits = omega arith;
  stripe_fits = omega arith;
  stripes_fit = omega arith;
  stripes_pos = omega arith;
}

abbrev conn : Writer
conn = record { written = []; room = none }

read-write_stream_header_example :
    (write_stream_header conn header ≡ (record conn { written = header_bytes header }, none))
    × (read_stream_header (record { rest = header_bytes header ++ 5 ∷ []; fault = eof })
        ≡ ok (header, record { rest = 5 ∷ []; fault = eof }))
read-write_stream_header_example =
    read-write_stream_header header (5 ∷ []) eof conn header-IsValid refl

abbrev inbound : Reader
inbound = record { rest = 1 ∷ b'h' ∷ 0 ∷ 0 ∷ 0 ∷ 0 ∷ 0 ∷ 0 ∷ 1 ∷ 2 ∷ 0 ∷ 1 ∷ 9 ∷ []; fault = eof }

abbrev behind : Reader
behind = record { rest = 9 ∷ []; fault = eof }

is_read : read_stream_header inbound ≡ ok (header, behind)
unfolding read_stream_header read_body read_full header_of check_stripes get_uint get_uint_from
is_read = refl

are_bytes : All IsByte inbound.rest
are_bytes = (
  omega arith,
  (
    omega arith,
    (
      omega arith,
      (
        omega arith,
        (
          omega arith,
          (
            omega arith,
            (
              omega arith,
              (
                omega arith,
                (omega arith, (omega arith, (omega arith, (omega arith, (omega arith, tt))))),
              ),
            ),
          ),
        ),
      ),
    ),
  ),
)

read_stream_header-ok_example :
    IsValid header × (inbound.rest ≡ header_bytes header ++ 9 ∷ []) × (eof ≡ inbound.fault)
read_stream_header-ok_example = read_stream_header-ok inbound header behind are_bytes is_read

abbrev fresh : Writer
fresh = record { written = []; room = none }

read_chunk-write_chunk_example :
    ((write_chunk fresh 1 (7 ∷ 8 ∷ [])).1 ≡ none)
    × (read_chunk
          (record { rest = (write_chunk fresh 1 (7 ∷ 8 ∷ [])).0.written ++ 5 ∷ []; fault = eof })
        ≡ record {
          seq = 1;
          payload = 7 ∷ 8 ∷ [];
          error = none;
          reader = record { rest = 5 ∷ []; fault = eof };
        })
read_chunk-write_chunk_example =
    read_chunk-write_chunk fresh 1 (7 ∷ 8 ∷ []) (5 ∷ []) eof refl refl (omega arith) (omega arith)

is_cut : 9 < length (chunk_bytes 1 (7 ∷ 8 ∷ []))
unfolding chunk_bytes chunk_hdr put_uint
is_cut = omega arith

read_chunk_cut_example :
    (x : IoError) × ((read_chunk
        (record { rest = take 9 (chunk_bytes 1 (7 ∷ 8 ∷ [])); fault = eof })).error
      ≡ some x)
read_chunk_cut_example = read_chunk_cut 9 1 (7 ∷ 8 ∷ []) eof (omega arith) (omega arith) is_cut
