-- ===== src/Forward/Pump/Wire.antt =====
-- What one stripe carries, and what its reader makes of it (internal/forward/forward.go): chunks
-- with their numbers, then the end marker, as far as the connection took them.
use nl_punch.Prelude.{
  ℕ, zero, suc, ◌^◌, ◌<◌, [], ◌∷◌, ◌++◌, List, map, append_assoc, append-nil, Bytes, nat_eq,
  string_eq, Bool, true, false, length, take, length-append, All, Option, none, some, ◌≡◌, ◌≢◌,
  refl, ap, ◌∙◌, arith, Bool-cases, inl, inr,
}
use nl_punch.Stream.{clip-append, clip-fits, clip_refused, IoError, Reader, clip, shrink, fits}
use nl_punch.Forward.Chunk.{read_chunk}
use nl_punch.Forward.Chunk.Codec.{
  chunk_bytes, length-chunk_bytes, read_chunk-chunk_bytes, read_chunk_cut,
}
use nl_punch.Forward.Reassembly.{StripeChunk, item, terminator, on_read, read_rounds, stripe_reader}

-- Numbered payloads.
abbrev pub Items : Type 0
Items = List (ℕ × Bytes)

unfoldable pub wire : Items → Bytes
wire [] = []
wire ((k, p) ∷ xs) = chunk_bytes k p ++ wire xs

-- A payload that `writeStripes` sends: a number and a length that fit 32 bits, and some byte.
abbrev pub IsSendable : ℕ × Bytes → Type 0
IsSendable (k, p) = (k < 2 ^ 32) × (length p < 2 ^ 32) × (p ≢ [])

abbrev pub to_item : ℕ → ℕ × Bytes → StripeChunk
to_item i (k, p) = item i k p

-- The reader of stripe `i` reports a beginning of the items, all of them if `whole`, and ends.
pub record Reports (i : ℕ) (xs : Items) (whole : Bool) (cs : List StripeChunk) : Type 0 where
  pub upto : ℕ
  pub last_seq : ℕ
  pub reported : cs ≡ map (to_item i) (take upto xs) ++ terminator i last_seq ∷ []
  pub all : whole ≡ true → take upto xs ≡ xs

on_read_error :
    (i seq : ℕ) (p : Bytes) (e : IoError) (rest : List StripeChunk)
    → on_read i seq p (some e) rest ≡ terminator i 0 ∷ []
on_read_error i seq [] e rest = refl
on_read_error i seq (b ∷ p) e rest = refl

-- A round that meets an error ends the stripe.
round_error :
    (fuel i : ℕ) (r : Reader) {e : IoError}
    → (read_chunk r).error ≡ some e
    → read_rounds (suc fuel) i r ≡ terminator i 0 ∷ []
unfolding read_rounds
round_error fuel i r {e} h = rw h (
    on_read_error i (read_chunk r).seq (read_chunk r).payload e
      (read_rounds fuel i (read_chunk r).reader))

round_item :
    (fuel i k : ℕ) (p rest : Bytes) (e : IoError)
    → IsSendable (k, p)
    → read_rounds (suc fuel) i (record { rest = chunk_bytes k p ++ rest; fault = e })
      ≡ item i k p ∷ read_rounds fuel i (record { rest = rest; fault = e })
unfolding read_rounds
round_item fuel i k [] rest e s = absurd (s.2 refl)
round_item fuel i k (b ∷ p) rest e s = rw (read_chunk-chunk_bytes k (b ∷ p) rest e s.0 s.1)

round_end :
    (fuel i k : ℕ) (rest : Bytes) (e : IoError)
    → k < 2 ^ 32
    → read_rounds (suc fuel) i (record { rest = chunk_bytes k [] ++ rest; fault = e })
      ≡ terminator i k ∷ []
unfolding read_rounds
round_end fuel i k rest e s = rw (read_chunk-chunk_bytes k [] rest e s (omega arith))

cut_error :
    (o : Option ℕ) (k : ℕ) (p : Bytes) (e : IoError)
    → k < 2 ^ 32
    → length p < 2 ^ 32
    → fits o (chunk_bytes k p) ≡ false
    → (x : IoError) × ((read_chunk (record { rest = clip o (chunk_bytes k p); fault = e })).error
        ≡ some x)
cut_error none k p e hk hp h = cc
cut_error (some n) k p e hk hp h = read_chunk_cut n k p e hk hp (ground arith)

abbrev pub is_none {ℓ} : {A : Type ℓ} → Option A → Bool
is_none none = true
is_none (some a) = false

is_none-shrink : (o : Option ℕ) (p : Bytes) → is_none (shrink o p) ≡ is_none o
is_none-shrink none p = refl
is_none-shrink (some k) p = refl

fits_unless : (o : Option ℕ) (p : Bytes) → fits o p ≡ false → is_none o ≡ false
fits_unless none p h = cc
fits_unless (some k) p h = refl

clip_first :
    (o : Option ℕ) (j : ℕ) (p s t : Bytes)
    → fits o (chunk_bytes j p) ≡ true
    → clip o ((chunk_bytes j p ++ s) ++ t)
      ≡ chunk_bytes j p ++ clip (shrink o (chunk_bytes j p)) (s ++ t)
clip_first o j p s t fit = rw (
  append_assoc (chunk_bytes j p) s t,
  clip-append o (chunk_bytes j p) (s ++ t),
  clip-fits o (chunk_bytes j p) fit,
)

Reports-cons :
    (i j : ℕ) (p : Bytes) (xs : Items) (whole : Bool) (cs cs' : List StripeChunk)
    → cs' ≡ item i j p ∷ cs
    → Reports i xs whole cs
    → Reports i ((j, p) ∷ xs) whole cs'
Reports-cons i j p xs whole cs cs' e r = record {
  upto = suc r.upto;
  last_seq = r.last_seq;
  reported = e ∙ ap (λ t. item i j p ∷ t) r.reported;
  all = λ w. ap (λ t. (j, p) ∷ t) (r.all w);
}

-- The reader of a stripe on which the items and the end marker were written, as far as it took them.
read_rounds-Reports :
    (fuel i : ℕ) (xs : Items) (k : ℕ) (o : Option ℕ) (e : IoError)
    → k < 2 ^ 32
    → All IsSendable xs
    → length (clip o (wire xs ++ chunk_bytes k [])) < fuel
    → Reports i xs
        (is_none o)
        (read_rounds fuel i (record { rest = clip o (wire xs ++ chunk_bytes k []); fault = e }))
unfolding wire
read_rounds-Reports zero i xs k o e hk hs enough = elim enough [ ]
read_rounds-Reports (suc fuel) i [] k o e hk hs enough =
    elim (Bool-cases (fits o (chunk_bytes k []))) [
      | inl fit ↦ record {
        upto = 0;
        last_seq = k;
        reported =
            rw (clip-fits o (chunk_bytes k []) fit, ← append-nil (chunk_bytes k []))
              (round_end fuel i k [] e hk);
        all = λ _. refl;
      }
      | inr over ↦
          let (x, h) = cut_error o k [] e hk (omega arith) over in
          record { upto = 0; last_seq = 0; reported = round_error fuel i _ h; all = λ _. refl }
    ]
read_rounds-Reports (suc fuel) i ((j, p) ∷ xs) k o e hk hs enough =
    elim (Bool-cases (fits o (chunk_bytes j p))) [
      | inl fit ↦
          let o' = shrink o (chunk_bytes j p) in
          let rest = clip o' (wire xs ++ chunk_bytes k []) in
          let split = clip_first o j p (wire xs) (chunk_bytes k []) fit in
          let shorter : length rest < fuel = omega (
            arith,
            ap length split,
            length-append (chunk_bytes j p) rest,
            length-chunk_bytes j p,
          ) in
          rw split (
            Reports-cons i j p xs (is_none o) _ _ (round_item fuel i j p rest e hs.0) (
              rw (is_none-shrink o (chunk_bytes j p)) at
                (read_rounds-Reports fuel i xs k o' e hk hs.1 shorter)))
      | inr over ↦
          let (x, h) = cut_error o j p e hs.0.0 hs.0.1 over in
          record {
            upto = 0;
            last_seq = 0;
            reported =
                rw
                  (
                    append_assoc (chunk_bytes j p) (wire xs) (chunk_bytes k []),
                    clip_refused o (chunk_bytes j p) (wire xs ++ chunk_bytes k []) over,
                  )
                  (round_error fuel i _ h);
            all = λ all. cc (all, fits_unless o (chunk_bytes j p) over);
          }
    ]

-- What the reader of stripe `i` reports of a fresh connection that carried the items and the end
-- marker.
pub stripe_reader-Reports :
    (i : ℕ) (xs : Items) (k : ℕ) (o : Option ℕ) (e : IoError)
    → k < 2 ^ 32
    → All IsSendable xs
    → Reports i xs
        (is_none o)
        (stripe_reader i (record { rest = clip o (wire xs ++ chunk_bytes k []); fault = e }))
unfolding stripe_reader
stripe_reader-Reports i xs k o e hk hs =
    read_rounds-Reports (suc (length (clip o (wire xs ++ chunk_bytes k [])))) i xs k o e hk hs
      (omega arith)
