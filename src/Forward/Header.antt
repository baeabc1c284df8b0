-- ===== src/Forward/Header.antt =====
-- The header framing of internal/forward/forward.go: `streamHeader`, `writeStreamHeader` and
-- `readStreamHeader`. A tag is the list of its bytes, and the integers are the values of their words.

pub mod Codec
pub mod Accepts
use nl_punch.Prelude.{
  [], ℕ, zero, suc, ◌%◌, ◌∷◌, ◌++◌, Bytes, ◌||◌, ltb, ◌==◌, if◌then◌else◌, length, take, Option,
  none, some, string_eq, nat_eq,
}
use nl_punch.Stream.{
  ◌>>=◌, IoError, Result, ok, err, Reader, Writer, read_full, write, put_uint, get_uint,
}

abbrev pub max_tag_len : ℕ
max_tag_len = 255

pub record StreamHeader : Type 0 where
  pub tag : Bytes
  pub session_id : ℕ
  pub stripe_idx : ℕ
  pub num_stripes : ℕ

pub data HeaderError : Type 0 where
  invalid_tag_length : ℕ → HeaderError
  zero_tag_length zero_stripe_count : HeaderError
  io : IoError → HeaderError

abbrev pub io_error : Option IoError → Option HeaderError
io_error none = none
io_error (some e) = some (io e)

abbrev pub from_io {ℓ} : {A : Type ℓ} → Result IoError A → Result HeaderError A
from_io (ok a) = ok a
from_io (err e) = err (io e)

-- The bytes that `writeStreamHeader` collects in `buf`.
pub header_bytes : StreamHeader → Bytes
header_bytes h =
    (length h.tag % 256)
    ∷ (h.tag ++ (put_uint 8 h.session_id ++ (h.stripe_idx ∷ h.num_stripes ∷ [])))

pub write_stream_header : Writer → StreamHeader → Writer × Option HeaderError
write_stream_header w h =
    if length h.tag == 0 || ltb max_tag_len (length h.tag)
    then (w, some (invalid_tag_length (length h.tag)))
    else let (w', e) = write w (header_bytes h) in (w', io_error e)

-- s[i], where the array is long enough
abbrev pub byte_at : ℕ → Bytes → ℕ
byte_at i [] = 0
byte_at zero (b ∷ s) = b
byte_at (suc i) (b ∷ s) = byte_at i s

-- The header that the tag bytes and the ten bytes of `meta` stand for.
unfoldable pub header_of : Bytes → Bytes → StreamHeader
header_of tag_buf meta = record {
  tag = tag_buf;
  session_id = get_uint (take 8 meta);
  stripe_idx = byte_at 8 meta;
  num_stripes = byte_at 9 meta;
}

unfoldable pub check_stripes : StreamHeader → Reader → Result HeaderError (StreamHeader × Reader)
check_stripes h r = if h.num_stripes == 0 then err zero_stripe_count else ok (h, r)

-- What follows the length byte `n`.
unfoldable pub read_body : ℕ → Reader → Result HeaderError (StreamHeader × Reader)
read_body n r = do
  (tag_buf, r') ← from_io (read_full n r)
  (meta, r'') ← from_io (read_full 10 r')
  check_stripes (header_of tag_buf meta) r''

unfoldable pub read_stream_header : Reader → Result HeaderError (StreamHeader × Reader)
read_stream_header r = do
  (len_buf, r') ← from_io (read_full 1 r)
  if byte_at 0 len_buf == 0 then err zero_tag_length else read_body (byte_at 0 len_buf) r'
