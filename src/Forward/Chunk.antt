-- ===== src/Forward/Chunk.antt =====
-- The striping codec of internal/forward/forward.go: `readChunk` and `writeChunk`.
pub mod Codec
use nl_punch.Prelude.{
  [], ℕ, ◌^◌, ◌%◌, ◌++◌, Bytes, ltb, ◌==◌, if◌then◌else◌, length, take, drop, Option, none, some,
}
use nl_punch.Stream.{IoError, ok, err, Reader, Writer, read_full, write, put_uint, get_uint}

abbrev chunk_hdr_size : ℕ
chunk_hdr_size = 8

-- The results (seq, payload, err) of `readChunk`, and the stream behind them.
pub record ChunkRead : Type 0 where
  pub seq : ℕ
  pub payload : Bytes
  pub error : Option IoError
  pub reader : Reader

-- A read that fails has taken what was left of the stream.
abbrev drained : Reader → Reader
drained r = record r { rest = [] }

unfoldable pub read_payload : ℕ → ℕ → Reader → ChunkRead
read_payload seq n r = elim (read_full n r) [
  | ok (buf, r') ↦ record { seq = seq; payload = buf; error = none; reader = r' }
  | err e ↦ record { seq = seq; payload = []; error = some e; reader = drained r }
]

unfoldable pub after_hdr : Bytes → Reader → ChunkRead
unfolding read_payload
after_hdr hdr r =
    if get_uint (take 4 hdr) == 0
    then record { seq = get_uint (drop 4 hdr); payload = []; error = none; reader = r }
    else read_payload (get_uint (drop 4 hdr)) (get_uint (take 4 hdr)) r

unfoldable pub read_chunk : Reader → ChunkRead
unfolding after_hdr
read_chunk r = elim (read_full chunk_hdr_size r) [
  | ok (hdr, r') ↦ after_hdr hdr r'
  | err e ↦ record { seq = 0; payload = []; error = some e; reader = drained r }
]

unfoldable pub chunk_hdr : ℕ → Bytes → Bytes
chunk_hdr seq payload = put_uint 4 (length payload % 2 ^ 32) ++ put_uint 4 seq

-- After the first write: the payload follows, if it has a byte.
abbrev write_payload : Writer × Option IoError → Bytes → Writer × Option IoError
write_payload (w, some e) payload = (w, some e)
write_payload (w, none) payload = if ltb 0 (length payload) then write w payload else (w, none)

unfoldable pub write_chunk : Writer → ℕ → Bytes → Writer × Option IoError
write_chunk w seq payload = write_payload (write w (chunk_hdr seq payload)) payload
