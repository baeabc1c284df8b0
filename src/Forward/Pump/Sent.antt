-- ===== src/Forward/Pump/Sent.antt =====
-- What the stripes carry when `writeStripes` (internal/forward/forward.go) has returned, and what
-- their readers report.
use mathlib.Core.List.{flatten}
use native.Mathlib.Nat.{zero-add}
use nl_punch.Prelude.{
  ℕ, zero, suc, ◌+◌, ◌%◌, ◌^◌, ◌<◌, [], ◌∷◌, ◌++◌, List, map, Bytes, nat_eq, string_eq, true,
  length, get_elem?, get_elem?-lt, All, All-get_elem?, get_elem?-some, get_elem?-map, length-map,
  some, some-injective, ◌≡◌, refl, sym, ap, ◌∙◌, arith, Option-cases, inl, inr,
}
use nl_punch.Stream.{IoError, Writer, sends, sends-sends, clip}
use nl_punch.Forward.Chunk.Codec.{chunk_bytes, write_chunk-sends}
use nl_punch.Forward.Reassembly.{StripeChunk, stripe_reader}
use nl_punch.Forward.Dispatch.{Side, open_side, Dispatch, read_loop, end_marker, write_stripes}
use nl_punch.Forward.Dispatch.Served.{
  payloads, stripe_items, payloads-IsPayload, read_loop-payloads, Served, read_loop-Served,
}
use nl_punch.Forward.Dispatch.Items.{IsShort, stripe_items-IsSendable, has, dealt}
use nl_punch.Forward.Pump.Wire.{wire, Reports, stripe_reader-Reports, is_none}
use nl_punch.Forward.Pump.{received, readers, IsFresh}

pub get_elem?-readers :
    (fault : ℕ → IoError) (i : ℕ) (ws : List Writer) (j : ℕ) {q : List StripeChunk}
    → get_elem? (readers fault i ws) j ≡ some q
    → (w : Writer) × (get_elem? ws j ≡ some w)
      × (q ≡ stripe_reader (i + j) (received (fault (i + j)) w))
unfolding readers
get_elem?-readers fault i [] j e = cc
get_elem?-readers fault i (w ∷ ws) zero {q} e =
    let h : i + 0 ≡ i = omega arith in (w, refl, rw h (sym (some-injective _ _ e)))
get_elem?-readers fault i (w ∷ ws) (suc j) e =
    let h : i + suc j ≡ i + 1 + j = omega arith in rw h (get_elem?-readers fault (i + 1) ws j e)

pub length-readers :
    (fault : ℕ → IoError) (i : ℕ) (ws : List Writer) → length (readers fault i ws) ≡ length ws
unfolding readers
length-readers fault i [] = refl
length-readers fault i (w ∷ ws) = ap suc (length-readers fault (i + 1) ws)

-- How `writeStripes` comes back.
write_stripes-some :
    (reads : List Bytes) (picks : List ℕ) (streams ws : List Writer) (c c' : ℕ)
    → write_stripes reads picks streams c ≡ some (ws, c')
    → (d : Dispatch) × (read_loop reads picks
          (record { sides = map open_side streams; seq = 0; counter = c })
        ≡ some d)
      × (map (end_marker d.seq) d.sides ≡ ws)
      × (d.counter ≡ c')
unfolding write_stripes
write_stripes-some reads picks streams ws c c' h =
    elim (Option-cases
      (read_loop reads picks (record { sides = map open_side streams; seq = 0; counter = c }))) [
        | inl blocked ↦ cc (rw (blocked, write_stripes) at h)
        | inr (d, e) ↦
            let both = some-injective _ _ (rw (e, write_stripes) at h) in
            (d, e, ap (λ o. o.0) both, ap (λ o. o.1) both)
      ]

end_marker-sends : (seq : ℕ) (s : Side) → end_marker seq s ≡ sends s.conn (chunk_bytes seq [])
end_marker-sends seq s = ap (λ o. o.0) (write_chunk-sends s.conn seq [])

-- The stripe `i` at the end, from what it had carried before the end marker.
closing :
    (seq i : ℕ) (sides : List Side) (w w₀ : Writer) (s : Side) (carried : Bytes)
    → get_elem? (map (end_marker seq) sides) i ≡ some w
    → get_elem? sides i ≡ some s
    → s.conn ≡ sends w₀ carried
    → w ≡ sends w₀ (carried ++ chunk_bytes seq [])
closing seq i sides w w₀ s carried at side conn =
    some-injective _ _ (sym at ∙ get_elem?-map (end_marker seq) sides i side)
    ∙ end_marker-sends seq s
    ∙ ap (λ x. sends x (chunk_bytes seq [])) conn
    ∙ sends-sends w₀ carried (chunk_bytes seq [])

carried_end :
    (ps : List Bytes) (picks : List ℕ) (streams : List Writer) (c : ℕ) (d : Dispatch)
    → Served ps picks (record { sides = map open_side streams; seq = 0; counter = c }) d
    → d.seq ≡ length ps
    → (i : ℕ) (w : Writer) → get_elem? (map (end_marker d.seq) d.sides) i ≡ some w
    → (w₀ : Writer) × (get_elem? streams i ≡ some w₀)
      × (w ≡ sends w₀ (wire (stripe_items i 0 ps picks) ++ chunk_bytes (length ps) []))
carried_end ps picks streams c d v last i w at =
    let inside : i < length streams = omega (
      arith,
      get_elem?-lt (map (end_marker d.seq) d.sides) i at,
      length-map (end_marker d.seq) d.sides,
      v.same_stripes,
      length-map open_side streams,
    ) in
    let (w₀, at₀) = get_elem?-some streams i inside in
    let (s, side, conn) = v.carried i (open_side w₀) (get_elem?-map open_side streams i at₀) in
    let sent = wire (stripe_items i 0 ps picks) in
    (
      w₀,
      at₀,
      closing d.seq i d.sides w w₀ s sent at side conn
          ∙ ap (λ k. sends w₀ (sent ++ chunk_bytes k [])) last,
    )

module _ (reads : List Bytes) (picks : List ℕ) (streams ws : List Writer) (c c' : ℕ)
    (fault : ℕ → IoError) where
  -- What every stripe carried and its reader reports, once `writeStripes` has returned.
  pub record Sent : Type 0 where
    pub counted : c' ≡ (c + length (flatten (payloads reads))) % 2 ^ 64
    pub stripes : length ws ≡ length streams
    pub dealt_all :
        (k : ℕ)
        → k < length (payloads reads)
        → (i : ℕ) × (i < length streams) × (has k (stripe_items i 0 (payloads reads) picks) ≡ true)
    pub carried :
        (i : ℕ) (w : Writer)
        → get_elem? ws i ≡ some w
        → (w₀ : Writer) × (get_elem? streams i ≡ some w₀)
          × (w
              ≡ sends w₀ (
                  wire (stripe_items i 0 (payloads reads) picks)
                  ++ chunk_bytes (length (payloads reads)) []))

  pub write_stripes-Sent :
      length (payloads reads) < 2 ^ 32
      → c < 2 ^ 64
      → write_stripes reads picks streams c ≡ some (ws, c')
      → Sent
  write_stripes-Sent small fit e =
      let ps = payloads reads in
      let d₀ : Dispatch = record { sides = map open_side streams; seq = 0; counter = c } in
      let (d, back, sides, count) = write_stripes-some reads picks streams ws c c' e in
      let loop = sym (read_loop-payloads reads picks d₀) ∙ back in
      let v = read_loop-Served ps picks d₀ d (payloads-IsPayload reads) (omega arith) fit loop in
      let many = length-map open_side streams in
      let last : d.seq ≡ length ps = omega (arith, v.next) in
      record {
        counted = sym count ∙ v.counted;
        stripes =
            ap length (sym sides) ∙ length-map (end_marker d.seq) d.sides ∙ v.same_stripes ∙ many;
        dealt_all = λ k range.
            let (i, below, found) = dealt ps picks d₀ d 0 k (payloads-IsPayload reads) loop range in
            let here : 0 + k ≡ k = omega arith in (i, rw many at below, rw here at found);
        carried = λ i w at.
            carried_end ps picks streams c d v last i w (ap (λ s. get_elem? s i) sides ∙ at);
      }

  -- What the reader of each stripe reports then.
  pub queue-Reports :
      length (payloads reads) < 2 ^ 32
      → All IsFresh streams
      → All IsShort (payloads reads)
      → Sent
      → (i : ℕ) (q : List StripeChunk) → get_elem? (readers fault 0 ws) i ≡ some q
      → (w₀ : Writer) × (get_elem? streams i ≡ some w₀)
        × Reports i (stripe_items i 0 (payloads reads) picks) (is_none w₀.room) q
  unfolding sends
  queue-Reports small fresh short s i q at =
      let ps = payloads reads in
      let xs = stripe_items i 0 ps picks in
      let (w, at_w, report) = get_elem?-readers fault 0 ws i at in
      let (w₀, at₀, sent) = s.carried i w at_w in
      let blank = All-get_elem? IsFresh streams i fresh at₀ in
      let bytes : w.written ≡ clip w₀.room (wire xs ++ chunk_bytes (length ps) []) =
        ap (λ x. x.written) sent
        ∙ ap (λ b. b ++ clip w₀.room (wire xs ++ chunk_bytes (length ps) [])) blank in
      (
        w₀,
        at₀,
        rw (report, bytes, zero-add i)
            (stripe_reader-Reports i xs (length ps) w₀.room (fault i) small (
              stripe_items-IsSendable i 0 ps picks (omega arith) (payloads-IsPayload reads) short)),
      )
