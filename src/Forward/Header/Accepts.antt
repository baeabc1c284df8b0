-- ===== src/Forward/Header/Accepts.antt =====
-- `readStreamHeader` of internal/forward/forward.go: what it accepts.
use Prim.Native.Nat.add
use mathlib.Core.Path.{subst₂}
use nl_punch.Prelude.{
  append_assoc, ℕ, zero, suc, ◌+◌, ◌<◌, ◌≤◌, ◌≡◌, ◌%◌, refl, sym, ◌∙◌, ap, [], ◌∷◌, ◌++◌, Bytes,
  ◌==◌, if◌then◌else◌, length, length-take, take, append_assoc, All, All-append_parts, All-take,
  arith,
}
use nl_punch.Stream.{
  IoError, Result, ok, err, Reader, read_full, IsByte, >>=-eq-ok, read_full-ok, put_uint-get_uint,
  get_uint-lt,
}
use nl_punch.Forward.Header.{
  StreamHeader, max_tag_len, header_bytes, read_stream_header, read_body, byte_at, zero_tag_length,
  header_of, check_stripes, from_io,
}
use nl_punch.Forward.Header.Codec.{IsValid, meta_bytes}

check_stripes-ok :
    (h : StreamHeader) (r : Reader) {h' : StreamHeader} {r' : Reader}
    → check_stripes h r ≡ ok (h', r')
    → (h ≡ h') × (r ≡ r') × (0 < h.num_stripes)
unfolding check_stripes
check_stripes-ok h r e = ground arith

from_io-ok {ℓ} : {A : Type ℓ} (m : Result IoError A) {a : A} → from_io m ≡ ok a → m ≡ ok a
from_io-ok (ok a) h = ground arith
from_io-ok (err e) h = cc

-- The last two bytes of a list of `n + 2`.
last_two :
    (n : ℕ) (s : Bytes) → length s ≡ n + 2 → s ≡ take n s ++ (byte_at n s ∷ byte_at (n + 1) s ∷ [])
last_two zero (a ∷ b ∷ []) h = refl
last_two zero (a ∷ b ∷ c ∷ s) h = absurd (omega arith)
last_two zero (a ∷ []) h = absurd (omega arith)
last_two zero [] h = absurd (omega arith)
last_two (suc n) [] h = absurd (omega arith)
last_two (suc n) (a ∷ s) h = rw (add.suc n 1) (ap (λ t. a ∷ t) (last_two n s (omega arith)))

byte_at-IsByte : (n : ℕ) (s : Bytes) → All IsByte s → byte_at n s < 256
byte_at-IsByte n [] h = omega arith
byte_at-IsByte zero (b ∷ s) h = h.0
byte_at-IsByte (suc n) (b ∷ s) h = byte_at-IsByte n s h.1

meta_bytes-header_of :
    (tag meta : Bytes) → length meta ≡ 10 → All IsByte meta → meta_bytes (header_of tag meta) ≡ meta
unfolding header_of
meta_bytes-header_of tag meta len bytes =
    rw
      (put_uint-get_uint 8 (take 8 meta) (All-take IsByte 8 meta bytes)
        (omega (arith, length-take 8 meta)))
      (sym (last_two 8 meta len))

-- What an accepted header and its source look like; `n` is the length byte.
record Accepts (n : ℕ) (r : Reader) (h : StreamHeader) (r' : Reader) : Type 0 where
  valid : IsValid h
  tag_length : length h.tag ≡ n
  source : r.rest ≡ h.tag ++ (meta_bytes h ++ r'.rest)
  fault_kept : r'.fault ≡ r.fault

body_fields :
    (n : ℕ) (tag meta : Bytes) (r r₁ r₂ : Reader)
    → 0 < n
    → n < 256
    → All IsByte r.rest
    → read_full n r ≡ ok (tag, r₁)
    → read_full 10 r₁ ≡ ok (meta, r₂)
    → 0 < (header_of tag meta).num_stripes
    → Accepts n r (header_of tag meta) r₂
unfolding header_of
body_fields n tag meta r r₁ r₂ pos fits bytes e₁ e₂ stripes =
    let (split₁, len₁, fault₁) = read_full-ok n r tag r₁ e₁ in
    let (split₂, len₂, fault₂) = read_full-ok 10 r₁ meta r₂ e₂ in
    let (tag_bytes, rest₁) = All-append_parts IsByte tag r₁.rest (rw split₁ at bytes) in
    let (bytes₂, rest₂) = All-append_parts IsByte meta r₂.rest (rw split₂ at rest₁) in
    record {
      valid = record {
        tag_bytes = tag_bytes;
        tag_nonempty = omega arith;
        tag_fits = omega arith;
        session_fits =
            get_uint-lt 8 (take 8 meta) (All-take IsByte 8 meta bytes₂)
              (omega (arith, length-take 8 meta));
        stripe_fits = byte_at-IsByte 8 meta bytes₂;
        stripes_fit = byte_at-IsByte 9 meta bytes₂;
        stripes_pos = stripes;
      };
      tag_length = len₁;
      source =
          split₁
          ∙ ap (λ s. tag ++ s)
              (split₂ ∙ ap (λ s. s ++ r₂.rest) (sym (meta_bytes-header_of tag meta len₂ bytes₂)));
      fault_kept = fault₂ ∙ fault₁;
    }

read_body-ok :
    (n : ℕ) (r : Reader) (h : StreamHeader) (r' : Reader)
    → 0 < n
    → n < 256
    → All IsByte r.rest
    → read_body n r ≡ ok (h, r')
    → Accepts n r h r'
unfolding read_body
read_body-ok n r h r' pos fits bytes e =
    let ((tag, r₁), e₁, f₁) = >>=-eq-ok (from_io (read_full n r)) _ e in
    let ((meta, r₂), e₂, f₂) = >>=-eq-ok (from_io (read_full 10 r₁)) _ f₁ in
    let (same, left, stripes) = check_stripes-ok (header_of tag meta) r₂ f₂ in
    subst₂ (λ a b. Accepts n r a b) same left
      (body_fields n tag meta r r₁ r₂ pos fits bytes (from_io-ok _ e₁) (from_io-ok _ e₂) stripes)

header_bytes_parts :
    (h : StreamHeader)
    → length h.tag ≤ max_tag_len
    → header_bytes h ≡ length h.tag ∷ (h.tag ++ meta_bytes h)
unfolding header_bytes
header_bytes_parts h fits = let exact : length h.tag % 256 ≡ length h.tag = omega arith in rw exact

header_bytes-append :
    (n : ℕ) (h : StreamHeader) (rest : Bytes)
    → length h.tag ≡ n
    → length h.tag ≤ max_tag_len
    → n ∷ (h.tag ++ (meta_bytes h ++ rest)) ≡ header_bytes h ++ rest
header_bytes-append n h rest e fits =
    rw (header_bytes_parts h fits, ← e, append_assoc h.tag (meta_bytes h) rest)

singleton_lem : (s : Bytes) → length s ≡ 1 → s ≡ byte_at 0 s ∷ []
singleton_lem [] e = absurd (omega arith)
singleton_lem (b ∷ []) e = refl
singleton_lem (b ∷ c ∷ s) e = absurd (omega arith)

nonzero-ok :
    (n : ℕ) (r : Reader) (h : StreamHeader) (r' : Reader)
    → (if n == 0 then err zero_tag_length else read_body n r) ≡ ok (h, r')
    → (0 < n) × (read_body n r ≡ ok (h, r'))
nonzero-ok n r h r' e = ground arith

-- `readStreamHeader` accepts nothing but what `writeStreamHeader` can have written: if it returns a
-- header, the header is valid, the bytes that it took are that header's encoding, and the rest of
-- the stream is left as it was.
pub read_stream_header-ok :
    (r : Reader) (h : StreamHeader) (r' : Reader)
    → All IsByte r.rest
    → read_stream_header r ≡ ok (h, r')
    → IsValid h × (r.rest ≡ header_bytes h ++ r'.rest) × (r'.fault ≡ r.fault)
unfolding read_stream_header
read_stream_header-ok r h r' bytes e =
    let ((len_buf, r₁), e₁, f₁) = >>=-eq-ok (from_io (read_full 1 r)) _ e in
    let (split, len, fault) = read_full-ok 1 r len_buf r₁ (from_io-ok _ e₁) in
    let (len_bytes, rest) = All-append_parts IsByte len_buf r₁.rest (rw split at bytes) in
    let (pos, body) = nonzero-ok (byte_at 0 len_buf) r₁ h r' f₁ in
    let a =
      read_body-ok (byte_at 0 len_buf) r₁ h r' pos (byte_at-IsByte 0 len_buf len_bytes) rest body in
    let source : r.rest ≡ byte_at 0 len_buf ∷ r₁.rest =
      split ∙ ap (λ s. s ++ r₁.rest) (singleton_lem len_buf len) in
    let encoded =
      source
      ∙ ap (λ s. byte_at 0 len_buf ∷ s) a.source
      ∙ header_bytes-append (byte_at 0 len_buf) h r'.rest a.tag_length a.valid.tag_fits in
    (a.valid, encoded, a.fault_kept ∙ fault)

-- The last check of `readStreamHeader`, on a stream of any bytes.
pub read_stream_header-stripes :
    (r : Reader) {h : StreamHeader} {r' : Reader}
    → read_stream_header r ≡ ok (h, r')
    → 0 < h.num_stripes
unfolding read_stream_header read_body
read_stream_header-stripes r {h} {r'} e =
    let ((len_buf, r₁), _, f₁) = >>=-eq-ok (from_io (read_full 1 r)) _ e in
    let (_, body) = nonzero-ok (byte_at 0 len_buf) r₁ h r' f₁ in
    let ((tag, r₂), _, f₂) = >>=-eq-ok (from_io (read_full (byte_at 0 len_buf) r₁)) _ body in
    let ((meta, r₃), _, f₃) = >>=-eq-ok (from_io (read_full 10 r₂)) _ f₂ in
    let (same, _, stripes) = check_stripes-ok (header_of tag meta) r₃ f₃ in
    rw (ap (λ x. x.num_stripes) same) at stripes
