-- ===== src/Forward/Chunk/Codec.antt =====
-- The chunk codec of internal/forward/forward.go, `writeChunk` against `readChunk`, on connections
-- that may break in the middle of a chunk.
use nl_punch.Prelude.{
  ℕ, suc, ◌+◌, ◌-◌, ◌<◌, ◌^◌, ◌%◌, ◌≡◌, refl, ap, ◌∙◌, [], ◌∷◌, ◌++◌, Bytes, ltb, ◌==◌,
  if◌then◌else◌, length, take, drop, Option, none, some, true, false, arith, Bool-cases, inl, inr,
  append_assoc, length-append, take_all, take_append, drop_append, length-take, leb,
}
use nl_punch.Stream.{
  IoError, broken, ok, err, Reader, Writer, read_full, write, put_uint, get_uint, length-put_uint,
  get_uint-put_uint, read_full_append, read_full_short, short_read, sends, fits, shrink,
  write-sends, sends-sends, sends_after_refusal, sends-nil, fits-nil, take-append,
}
use nl_punch.Forward.Chunk.{
  read_payload, after_hdr, read_chunk, chunk_hdr, write_payload, write_chunk,
}

-- A chunk on the wire.
unfoldable pub chunk_bytes : ℕ → Bytes → Bytes
chunk_bytes seq payload = chunk_hdr seq payload ++ payload

fits_append : (o : Option ℕ) (p q : Bytes) → fits o p ≡ false → fits o (p ++ q) ≡ false
fits_append none p q h = h
fits_append (some k) p q h = ground (arith, length-append p q)

fits_rest : (o : Option ℕ) (p q : Bytes) → fits o p ≡ true → fits o (p ++ q) ≡ fits (shrink o p) q
fits_rest none p q h = refl
fits_rest (some k) p q h = ground (arith, length-append p q)

second_write :
    (w : Writer) (p : Bytes)
    → (if ltb 0 (length p) then write w p else (w, none))
      ≡ (sends w p, (if fits w.room p then none else some broken))
second_write w [] = rw (sends-nil w, fits-nil w.room)
second_write w (b ∷ p) =
    let some_byte : ltb 0 (suc (length p)) ≡ true = ground arith in
    rw some_byte (write-sends w (b ∷ p))

write_payload-sends :
    (w : Writer) (h p : Bytes)
    → write_payload (write w h) p
      ≡ (sends w (h ++ p), (if fits w.room (h ++ p) then none else some broken))
unfolding sends
write_payload-sends w h p = elim (Bool-cases (fits w.room h)) [
  | inl fit ↦
      rw (write-sends w h, fit, fits_rest w.room h p fit, ← sends-sends w h p)
        (second_write (sends w h) p)
  | inr over ↦ rw (
    write-sends w h,
    over,
    fits_append w.room h p over,
    ← sends-sends w h p,
    sends_after_refusal w h p over,
  )
]

-- Both writes of `writeChunk` together put the chunk on the wire as far as the connection takes it,
-- and the error tells whether it took all.
pub write_chunk-sends :
    (w : Writer) (seq : ℕ) (payload : Bytes)
    → write_chunk w seq payload ≡ (
      sends w (chunk_bytes seq payload),
      (if fits w.room (chunk_bytes seq payload) then none else some broken),
    )
unfolding write_chunk chunk_bytes
write_chunk-sends w seq payload = write_payload-sends w (chunk_hdr seq payload) payload

length-chunk_hdr : (seq : ℕ) (p : Bytes) → length (chunk_hdr seq p) ≡ 8
unfolding chunk_hdr
length-chunk_hdr seq p = omega (
  arith,
  length-append (put_uint 4 (length p % 2 ^ 32)) (put_uint 4 seq),
  length-put_uint 4 (length p % 2 ^ 32),
  length-put_uint 4 seq,
)

pub length-chunk_bytes : (seq : ℕ) (p : Bytes) → length (chunk_bytes seq p) ≡ 8 + length p
unfolding chunk_bytes
length-chunk_bytes seq p = omega (arith, length-append (chunk_hdr seq p) p, length-chunk_hdr seq p)

hdr_length :
    (seq : ℕ) (p : Bytes) → length p < 2 ^ 32 → get_uint (take 4 (chunk_hdr seq p)) ≡ length p
unfolding chunk_hdr
hdr_length seq p h =
    let exact : length p % 2 ^ 32 ≡ length p = omega arith in
    rw
      (exact, take_append 4 (put_uint 4 (length p)) (put_uint 4 seq) (length-put_uint 4 (length p)))
      (get_uint-put_uint 4 (length p) h)

hdr_seq : (seq : ℕ) (p : Bytes) → seq < 2 ^ 32 → get_uint (drop 4 (chunk_hdr seq p)) ≡ seq
unfolding chunk_hdr
hdr_seq seq p h =
    rw
      (drop_append 4 (put_uint 4 (length p % 2 ^ 32)) (put_uint 4 seq)
        (length-put_uint 4 (length p % 2 ^ 32)))
      (get_uint-put_uint 4 seq h)

after_hdr-chunk_hdr :
    (seq : ℕ) (p : Bytes) (r : Reader)
    → seq < 2 ^ 32
    → length p < 2 ^ 32
    → after_hdr (chunk_hdr seq p) r ≡ (
        if length p == 0
        then record { seq = seq; payload = []; error = none; reader = r }
        else read_payload seq (length p) r)
unfolding after_hdr
after_hdr-chunk_hdr seq p r hs hp = rw (hdr_seq seq p hs, hdr_length seq p hp)

else_lem {ℓ} : {A : Type ℓ} (n : ℕ) (x y : A) → 0 < n → (if n == 0 then x else y) ≡ y
else_lem n x y pos = let e : n == 0 ≡ false = ground arith in rw e

read_payload-ok :
    (seq n : ℕ) (r : Reader) (s : Bytes) (r' : Reader)
    → read_full n r ≡ ok (s, r')
    → read_payload seq n r ≡ record { seq = seq; payload = s; error = none; reader = r' }
unfolding read_payload
read_payload-ok seq n r s r' e = rw (e, read_payload)

read_payload-err :
    (seq n : ℕ) (r : Reader) {e : IoError}
    → read_full n r ≡ err e
    → (read_payload seq n r).error ≡ some e
unfolding read_payload
read_payload-err seq n r h = rw (h, read_payload)

read_chunk-ok :
    (r : Reader) (hdr : Bytes) (r' : Reader)
    → read_full 8 r ≡ ok (hdr, r')
    → read_chunk r ≡ after_hdr hdr r'
unfolding read_chunk
read_chunk-ok r hdr r' e = rw (e, read_chunk)

read_chunk-err : (r : Reader) {e : IoError} → read_full 8 r ≡ err e → (read_chunk r).error ≡ some e
unfolding read_chunk
read_chunk-err r h = rw (h, read_chunk)

nonempty_after_hdr :
    (seq : ℕ) (p rest : Bytes) (e : IoError)
    → seq < 2 ^ 32
    → length p < 2 ^ 32
    → after_hdr (chunk_hdr seq p) (record { rest = p ++ rest; fault = e })
      ≡ record { seq = seq; payload = p; error = none; reader = record { rest = rest; fault = e } }
nonempty_after_hdr seq [] rest e hs hp =
    rw (after_hdr-chunk_hdr seq [] (record { rest = rest; fault = e }) hs hp)
nonempty_after_hdr seq (b ∷ p) rest e hs hp =
    after_hdr-chunk_hdr seq (b ∷ p) (record { rest = b ∷ (p ++ rest); fault = e }) hs hp
    ∙ else_lem (suc (length p)) _ _ (omega arith)
    ∙ read_payload-ok seq (suc (length p)) (record { rest = b ∷ (p ++ rest); fault = e }) (b ∷ p) _
        (read_full_append (suc (length p)) (b ∷ p) rest e refl)

-- What `readChunk` makes of a chunk on the wire.
pub read_chunk-chunk_bytes :
    (seq : ℕ) (p rest : Bytes) (e : IoError)
    → seq < 2 ^ 32
    → length p < 2 ^ 32
    → read_chunk (record { rest = chunk_bytes seq p ++ rest; fault = e })
      ≡ record { seq = seq; payload = p; error = none; reader = record { rest = rest; fault = e } }
unfolding chunk_bytes
read_chunk-chunk_bytes seq p rest e hs hp = rw (append_assoc (chunk_hdr seq p) p rest) (
    read_chunk-ok _ (chunk_hdr seq p) _
      (read_full_append 8 (chunk_hdr seq p) (p ++ rest) e (length-chunk_hdr seq p))
    ∙ nonempty_after_hdr seq p rest e hs hp)

-- On a connection that does not break and has carried nothing, `writeChunk` goes well, and `readChunk`
-- reads back what it has put there, the sequence number and the payload, heartbeats and terminators
-- included, and consumes nothing behind it: for a seq and a length of 32 bits.
pub read_chunk-write_chunk :
    (w : Writer) (seq : ℕ) (p rest : Bytes) (e : IoError)
    → w.written ≡ []
    → w.room ≡ none
    → seq < 2 ^ 32
    → length p < 2 ^ 32
    → ((write_chunk w seq p).1 ≡ none)
      × (read_chunk (record { rest = (write_chunk w seq p).0.written ++ rest; fault = e })
          ≡ record {
            seq = seq;
            payload = p;
            error = none;
            reader = record { rest = rest; fault = e };
          })
unfolding sends
read_chunk-write_chunk w seq p rest e blank whole hs hp =
    rw (write_chunk-sends w seq p, blank, whole) (refl, read_chunk-chunk_bytes seq p rest e hs hp)

take_past_hdr :
    (j k seq : ℕ) (p : Bytes)
    → k ≡ 8 + j
    → take k (chunk_hdr seq p ++ p) ≡ chunk_hdr seq p ++ take j p
take_past_hdr j k seq p e =
    let len = length-chunk_hdr seq p in
    let left : k - length (chunk_hdr seq p) ≡ j = omega (arith, len) in
    rw (take-append k (chunk_hdr seq p) p, take_all k (chunk_hdr seq p) (omega (arith, len)), left)

-- The cut comes `j` bytes into the payload.
cut_payload :
    (j k seq : ℕ) (p : Bytes) (e : IoError)
    → seq < 2 ^ 32
    → length p < 2 ^ 32
    → k ≡ 8 + j
    → j < length p
    → (x : IoError) × ((read_chunk
          (record { rest = take k (chunk_hdr seq p ++ p); fault = e })).error
        ≡ some x)
cut_payload j k seq p e hs hp split inside =
    let r : Reader = record { rest = take j p; fault = e } in
    let short = read_full_short (length p) (take j p) e (ground (arith, length-take j p)) in
    let header =
      read_chunk-ok _ (chunk_hdr seq p) r
        (read_full_append 8 (chunk_hdr seq p) (take j p) e (length-chunk_hdr seq p)) in
    let body = header ∙ after_hdr-chunk_hdr seq p r hs hp ∙ else_lem (length p) _ _ (omega arith) in
    (
      short_read (take j p) e,
      rw (take_past_hdr j k seq p split)
          (ap (λ c. c.error) body ∙ read_payload-err seq (length p) r short),
    )

-- A chunk that is cut off before its end is read as an error, never as a shorter chunk: for a seq
-- and a length of 32 bits.
pub read_chunk_cut :
    (k seq : ℕ) (p : Bytes) (e : IoError)
    → seq < 2 ^ 32
    → length p < 2 ^ 32
    → k < length (chunk_bytes seq p)
    → (x : IoError) × ((read_chunk (record { rest = take k (chunk_bytes seq p); fault = e })).error
        ≡ some x)
unfolding chunk_bytes
read_chunk_cut k seq p e hs hp cut = elim (Bool-cases (leb 8 k)) [
  | inr early ↦ (
    short_read (take k (chunk_hdr seq p ++ p)) e,
    read_chunk-err _ (
        read_full_short 8 (take k (chunk_hdr seq p ++ p)) e
          (ground (arith, length-take k (chunk_hdr seq p ++ p)))),
  )
  | inl late ↦
      cut_payload (k - 8) k seq p e hs hp (ground arith)
        (ground (arith, length-append (chunk_hdr seq p) p, length-chunk_hdr seq p))
]
