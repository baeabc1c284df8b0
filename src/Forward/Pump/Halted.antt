-- ===== src/Forward/Pump/Halted.antt =====
-- Where the loop of `writeStripes` (internal/forward/forward.go) waits for a writer, and what the readers
-- at the other end report of the stripes then.
use native.Mathlib.Nat.{zero-add}
use nl_punch.Prelude.{
  ℕ, zero, suc, false, ◌^◌, ◌<◌, [], ◌∷◌, ◌++◌, List, map, Bytes, nat_eq, string_eq, length,
  length-map, get_elem?, get_elem?-lt, get_elem?-map, get_elem?-some, take, take_append, All,
  All-get_elem?, Bool, Option, none, some, some-injective, ◌≡◌, refl, sym, ap, ◌∙◌, arith,
  Option-cases, inl, inr,
}
use nl_punch.Stream.{IoError, Writer, sends, clip}
use nl_punch.Forward.Chunk.Codec.{chunk_bytes}
use nl_punch.Forward.Reassembly.{StripeChunk}
use nl_punch.Forward.Dispatch.{open_side, send_to, Dispatch, sent_one, read_loop, loop_state}
use nl_punch.Forward.Dispatch.Served.{
  payloads, stripe_items, payloads-IsPayload, read_loop-payloads, read_loop-Served,
}
use nl_punch.Forward.Dispatch.Items.{stripe_items-IsSendable}
use nl_punch.Forward.Pump.{readers, IsFresh, IsRead}
use nl_punch.Forward.Pump.Wire.{wire, Reports, stripe_reader-Reports}
use nl_punch.Forward.Pump.Channel.{length-payloads-le, payloads-IsShort}
use nl_punch.Forward.Pump.Sent.{get_elem?-readers}

-- A loop that waits has come to the end of some of its reads.
pub record Halts (reads : List Bytes) (picks : List ℕ) (d : Dispatch) : Type 0 where
  pub done_reads : List Bytes
  pub left_reads : List Bytes
  pub split : done_reads ++ left_reads ≡ reads
  pub done : read_loop done_reads picks d ≡ some (loop_state reads picks d)

pub read_loop-Halts :
    (reads : List Bytes) (picks : List ℕ) (d : Dispatch)
    → read_loop reads picks d ≡ none
    → Halts reads picks d
unfolding read_loop loop_state
read_loop-Halts [] picks d h = cc h
read_loop-Halts ([] ∷ reads) picks d h =
    let ih = read_loop-Halts reads picks d h in
    record {
      done_reads = [] ∷ ih.done_reads;
      left_reads = ih.left_reads;
      split = ap (λ r. [] ∷ r) ih.split;
      done = ih.done;
    }
read_loop-Halts ((b ∷ p) ∷ reads) [] d h = record {
  done_reads = [];
  left_reads = (b ∷ p) ∷ reads;
  split = refl;
  done = refl;
}
read_loop-Halts ((b ∷ p) ∷ reads) (i ∷ picks) d h =
    elim (Option-cases (send_to i d.seq (b ∷ p) d.sides)) [
      | inl refused ↦ record {
        done_reads = [];
        left_reads = (b ∷ p) ∷ reads;
        split = refl;
        done = rw (refused, loop_state) refl;
      }
      | inr (sides, sent) ↦
          let ih =
            read_loop-Halts reads picks (sent_one (b ∷ p) d sides) (rw (sent, read_loop) at h) in
          record {
            done_reads = (b ∷ p) ∷ ih.done_reads;
            left_reads = ih.left_reads;
            split = ap (λ r. (b ∷ p) ∷ r) ih.split;
            done = rw (sent, read_loop, loop_state) ih.done;
          }
    ]

-- What was written without an end marker is what a stripe takes that breaks before the marker.
clip_before : (o : Option ℕ) (s t : Bytes) → (n : ℕ) × (clip o s ≡ clip (some n) (s ++ t))
clip_before none s t = (length s, sym (take_append (length s) s t refl))
clip_before (some k) s t = (length (take k s), sym (take_taken k s t))
  where
    take_taken : (k : ℕ) (s t : Bytes) → take (length (take k s)) (s ++ t) ≡ take k s
    take_taken zero s t = refl
    take_taken (suc k) [] t = refl
    take_taken (suc k) (b ∷ s) t = ap (λ r. b ∷ r) (take_taken k s t)

abbrev pub start : List Writer → ℕ → Dispatch
start streams c = record { sides = map open_side streams; seq = 0; counter = c }

module _ (reads : List Bytes) (picks : List ℕ) (streams : List Writer) (c : ℕ)
    (fault : ℕ → IoError) where
  -- The reader of each stripe, once the loop has come through these reads.
  pub halted-Reports :
      (d : Dispatch)
      → length reads < 2 ^ 32
      → c < 2 ^ 64
      → All IsRead reads
      → All IsFresh streams
      → read_loop reads picks (start streams c) ≡ some d
      → (length (map (λ s. s.conn) d.sides) ≡ length streams)
        × ((i : ℕ) (q : List StripeChunk)
            → get_elem? (readers fault 0 (map (λ s. s.conn) d.sides)) i ≡ some q
            → (whole : Bool) × Reports i (stripe_items i 0 (payloads reads) picks) whole q)
  unfolding sends
  halted-Reports d small fit sizes fresh e =
      let ps = payloads reads in
      let few = length-payloads-le reads in
      let v =
        read_loop-Served ps picks (start streams c) d (payloads-IsPayload reads)
          (omega (arith, few)) fit (sym (read_loop-payloads reads picks (start streams c)) ∙ e) in
      let conns = map (λ s. s.conn) d.sides in
      let many : length conns ≡ length streams =
        length-map (λ s. s.conn) d.sides ∙ v.same_stripes ∙ length-map open_side streams in
      (
        many,
        λ i q at.
            let (w, at_w, report) = get_elem?-readers fault 0 conns i at in
            let inside = get_elem?-lt conns i at_w in
            let (w₀, at₀) = get_elem?-some streams i (omega (arith, inside, many)) in
            let (s, side, conn) =
              v.carried i (open_side w₀) (get_elem?-map open_side streams i at₀) in
            let xs = stripe_items i 0 ps picks in
            let same : w ≡ s.conn =
              some-injective _ _ (sym at_w ∙ get_elem?-map (λ s. s.conn) d.sides i side) in
            let blank = All-get_elem? IsFresh streams i fresh at₀ in
            let (n, cut) = clip_before w₀.room (wire xs) (chunk_bytes 0 []) in
            let bytes : w.written ≡ clip (some n) (wire xs ++ chunk_bytes 0 []) =
              ap (λ x. x.written) (same ∙ conn)
              ∙ ap (λ b. b ++ clip w₀.room (wire xs)) blank
              ∙ cut in
            (
              false,
              rw (report, bytes, zero-add i)
                  (stripe_reader-Reports i xs 0 (some n) (fault i) (omega arith) (
                    stripe_items-IsSendable i 0 ps picks (omega (arith, few))
                      (payloads-IsPayload reads) (payloads-IsShort reads sizes))),
            ),
      )
