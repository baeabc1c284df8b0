-- ===== src/Forward/Header/Codec.antt =====
-- The header codec of internal/forward/forward.go, `writeStreamHeader` against `readStreamHeader`.
use Prim.Native.Nat.add
use nl_punch.Prelude.{
  ℕ, zero, suc, ◌+◌, ◌<◌, ◌≤◌, ◌^◌, ◌≡◌, ◌%◌, refl, ◌∙◌, [], ◌∷◌, ◌++◌, Bytes, ◌||◌, ltb, ◌==◌,
  length, ◌⊎◌, take_append, length-append, append_assoc, none, some, All, arith, Bool-cases, inl,
  inr,
}
use nl_punch.Stream.{
  IoError, ok, Reader, Writer, write, put_uint, IsByte, read_full_append, write_unbroken,
  length-put_uint, get_uint-put_uint,
}
use nl_punch.Forward.Header.{
  StreamHeader, max_tag_len, header_bytes, write_stream_header, read_stream_header, read_body,
  byte_at, io_error, invalid_tag_length, header_of, check_stripes,
}

-- The headers whose fields fit their places on the wire.
pub record IsValid (h : StreamHeader) : Type 0 where
  pub tag_bytes : All IsByte h.tag
  pub tag_nonempty : 0 < length h.tag
  pub tag_fits : length h.tag ≤ max_tag_len
  pub session_fits : h.session_id < 2 ^ 64
  pub stripe_fits : h.stripe_idx < 256
  pub stripes_fit : h.num_stripes < 256
  pub stripes_pos : 0 < h.num_stripes

abbrev pub meta_bytes : StreamHeader → Bytes
meta_bytes h = put_uint 8 h.session_id ++ (h.stripe_idx ∷ h.num_stripes ∷ [])

byte_at-append : (n k : ℕ) (s t : Bytes) → length s ≡ n → byte_at (n + k) (s ++ t) ≡ byte_at k t
byte_at-append zero k [] t e = rw (add.zero k)
byte_at-append zero k (b ∷ s) t e = absurd (omega arith)
byte_at-append (suc n) k [] t e = absurd (omega arith)
byte_at-append (suc n) k (b ∷ s) t e = rw (add.suc n k) (byte_at-append n k s t (omega arith))

length-meta_bytes : (h : StreamHeader) → length (meta_bytes h) ≡ 10
length-meta_bytes h = omega (
  arith,
  length-append (put_uint 8 h.session_id) (h.stripe_idx ∷ h.num_stripes ∷ []),
  length-put_uint 8 h.session_id,
)

header_of-meta_bytes :
    (h : StreamHeader) → h.session_id < 2 ^ 64 → header_of h.tag (meta_bytes h) ≡ h
unfolding header_of
header_of-meta_bytes h fits =
    let len : length (put_uint 8 h.session_id) ≡ 8 = length-put_uint 8 h.session_id in
    let last : Bytes = h.stripe_idx ∷ h.num_stripes ∷ [] in
    ground (
      arith,
      take_append 8 (put_uint 8 h.session_id) last len,
      get_uint-put_uint 8 h.session_id fits,
      byte_at-append 8 0 (put_uint 8 h.session_id) last len,
      byte_at-append 8 1 (put_uint 8 h.session_id) last len,
    )

check_stripes_pos :
    (h : StreamHeader) (r : Reader) → 0 < h.num_stripes → check_stripes h r ≡ ok (h, r)
unfolding check_stripes
check_stripes_pos h r pos = ground arith

read_body-header_bytes :
    (h : StreamHeader) (rest : Bytes) (e : IoError)
    → IsValid h
    → read_body (length h.tag) (record { rest = h.tag ++ (meta_bytes h ++ rest); fault = e })
      ≡ ok (h, record { rest = rest; fault = e })
unfolding read_body
read_body-header_bytes h rest e v =
    rw
      (
        read_full_append (length h.tag) h.tag (meta_bytes h ++ rest) e refl,
        read_full_append 10 (meta_bytes h) rest e (length-meta_bytes h),
        header_of-meta_bytes h v.session_fits,
      )
      (check_stripes_pos h _ v.stripes_pos)

read_stream_header-cons :
    (n : ℕ) (s : Bytes) (e : IoError)
    → 0 < n
    → read_stream_header (record { rest = n ∷ s; fault = e })
      ≡ read_body n (record { rest = s; fault = e })
unfolding read_stream_header
read_stream_header-cons n s e h = rw (read_full_append 1 (n ∷ []) s e refl) (ground arith)

read_stream_header-header_bytes :
    (h : StreamHeader) (rest : Bytes) (e : IoError)
    → IsValid h
    → read_stream_header (record { rest = header_bytes h ++ rest; fault = e })
      ≡ ok (h, record { rest = rest; fault = e })
unfolding header_bytes
read_stream_header-header_bytes h rest e v =
    let exact : length h.tag % 256 ≡ length h.tag = omega arith in
    rw (exact, append_assoc h.tag (meta_bytes h) rest)
      (read_stream_header-cons (length h.tag) (h.tag ++ (meta_bytes h ++ rest)) e v.tag_nonempty
        ∙ read_body-header_bytes h rest e v)

-- What `writeStreamHeader` puts on a connection that does not break, `readStreamHeader` reads back,
-- whatever follows it: every valid header makes the trip and nothing behind it is consumed.
pub read-write_stream_header :
    (h : StreamHeader) (rest : Bytes) (e : IoError) (w : Writer)
    → IsValid h
    → w.room ≡ none
    → (write_stream_header w h ≡ (record w { written = w.written ++ header_bytes h }, none))
      × (read_stream_header (record { rest = header_bytes h ++ rest; fault = e })
          ≡ ok (h, record { rest = rest; fault = e }))
unfolding write_stream_header
read-write_stream_header h rest e w v free = (
  ground (arith, write_unbroken w (header_bytes h) free),
  read_stream_header-header_bytes h rest e v,
)

-- `writeStreamHeader` refuses the tags of no byte or of more than 255, and writes nothing then; any
-- other tag it writes, and the connection alone decides the result.
write_stream_header_cases :
    (h : StreamHeader) (w : Writer)
    → ((0 < length h.tag)
        × (length h.tag ≤ max_tag_len)
        × (write_stream_header w h
            ≡ ((write w (header_bytes h)).0, io_error (write w (header_bytes h)).1)))
      ⊎ (((length h.tag ≡ 0) ⊎ (max_tag_len < length h.tag))
          × (write_stream_header w h ≡ (w, some (invalid_tag_length (length h.tag)))))
unfolding write_stream_header
write_stream_header_cases h w =
    elim (Bool-cases (length h.tag == 0 || ltb max_tag_len (length h.tag))) [
      | inl bad ↦ inr (ground arith, rw bad)
      | inr fine ↦ inl (ground arith, ground arith, rw fine)
    ]
