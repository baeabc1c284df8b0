-- ===== src/Forward/Pump/EndToEnd.antt =====
-- One direction of a tunnelled connection (internal/forward/forward.go): `writeStripes` at one end,
-- `readStripesToTCP` at the other, over stripes that may break and readers in any interleaving.
use mathlib.Core.List.{flatten}
use nl_punch.Prelude.{
  ℕ, zero, suc, ◌+◌, ◌%◌, ◌^◌, ◌<◌, [], ◌∷◌, ◌++◌, List, Bytes, nat_eq, string_eq, true, length,
  get_elem?, All, All-get_elem?, get_elem?-some, some, some-injective, ◌≡◌, ap, ◌∙◌, arith,
}
use nl_punch.Stream.{IoError, Writer, sends, sends_unbroken}
use nl_punch.Forward.Reassembly.{StripeChunk, read_stripes_to_tcp}
use nl_punch.Forward.Reassembly.Arrivals.{arrives, all_arrive, all_arrive_below}
use nl_punch.Forward.Reassembly.Delivery.{read_stripes_to_tcp_whole}
use nl_punch.Forward.Dispatch.{write_stripes}
use nl_punch.Forward.Dispatch.Served.{payloads}
use nl_punch.Forward.Dispatch.Items.{piece, joined-piece}
use nl_punch.Forward.Pump.{readers, IsFresh, IsRead, IsUnbroken}
use nl_punch.Forward.Pump.Merge.{Merge, any_arrives, Merge-arrives}
use nl_punch.Forward.Pump.Wire.{is_none}
use nl_punch.Forward.Pump.Report.{report-arrives}
use nl_punch.Forward.Pump.Channel.{
  flatten-payloads, length-payloads-le, payloads-IsShort, Channel, report-Channel,
}
use nl_punch.Forward.Pump.Sent.{length-readers, Sent, write_stripes-Sent, queue-Reports}

any_arrives_from :
    (k : ℕ) (qs : List (List StripeChunk)) (i : ℕ) {q : List StripeChunk}
    → get_elem? qs i ≡ some q
    → arrives k q ≡ true
    → any_arrives k qs ≡ true
any_arrives_from k [] i e h = cc
any_arrives_from k (p ∷ qs) zero {q} e h = let same : p ≡ q = some-injective _ _ e in rw (same, h)
any_arrives_from k (p ∷ qs) (suc i) e h = let rest = any_arrives_from k qs i e h in ground arith

module _ (reads : List Bytes) (picks : List ℕ) (streams ws : List Writer) (c c' : ℕ)
    (fault : ℕ → IoError) (cs : List StripeChunk) (dst : Writer) (total : ℕ) where
  Sent-Channel :
      length reads < 2 ^ 32
      → All IsRead reads
      → All IsFresh streams
      → Sent reads picks streams ws c c' fault
      → Merge (readers fault 0 ws) cs
      → Channel reads picks (length streams) cs
  Sent-Channel small sizes fresh s m =
      let report =
        queue-Reports reads picks streams ws c c' fault (omega (arith, length-payloads-le reads))
          fresh (payloads-IsShort reads sizes) s in
      report-Channel reads picks (length streams) cs (readers fault 0 ws) small
        (length-readers fault 0 ws ∙ s.stripes)
        (λ i q at. let (w₀, _, r) = report i q at in (is_none w₀.room, r)) m

  every_delivered :
      length reads < 2 ^ 32
      → All IsRead reads
      → All IsFresh streams
      → All IsUnbroken streams
      → Sent reads picks streams ws c c' fault
      → Merge (readers fault 0 ws) cs
      → all_arrive (length (payloads reads)) cs ≡ true
  every_delivered small sizes fresh whole s m =
      all_arrive_below (length (payloads reads)) cs λ k range.
        let (i, inside, found) = s.dealt_all k range in
        let (q, at) =
          get_elem?-some (readers fault 0 ws) i
            (omega (arith, length-readers fault 0 ws, s.stripes)) in
        let (w₀, at₀, r) =
          queue-Reports reads picks streams ws c c' fault (omega (arith, length-payloads-le reads))
            fresh (payloads-IsShort reads sizes) s i q at in
        let unbroken = All-get_elem? IsUnbroken streams i whole at₀ in
        Merge-arrives k m
        ∙ any_arrives_from k (readers fault 0 ws) i at
            (report-arrives i _ _ q r k (ap is_none unbroken) found)

  -- If no stripe breaks and the destination does not, it gets exactly what the source gave, and
  -- both byte counters grow by its length. This is for fewer than 2 ^ 32 reads of at most 64 KiB
  -- each, over streams that have carried nothing yet, and for every schedule on which
  -- `writeStripes` returns.
  pub pump_exact :
      length reads < 2 ^ 32
      → c < 2 ^ 64
      → total < 2 ^ 64
      → All IsRead reads
      → All IsFresh streams
      → All IsUnbroken streams
      → IsUnbroken dst
      → write_stripes reads picks streams c ≡ some (ws, c')
      → Merge (readers fault 0 ws) cs
      → (read_stripes_to_tcp (length streams) cs dst total ≡ (
        record dst { written = dst.written ++ flatten reads },
        (total + length (flatten reads)) % 2 ^ 64,
      ))
        × (c' ≡ (c + length (flatten reads)) % 2 ^ 64)
  pump_exact small fit fit' sizes fresh whole unbroken e m =
      let ps = payloads reads in
      let few : length ps < 2 ^ 32 = omega (arith, length-payloads-le reads) in
      let sent = write_stripes-Sent reads picks streams ws c c' fault few fit e in
      let ch = Sent-Channel small sizes fresh sent m in
      let text = joined-piece ps ∙ flatten-payloads reads in
      let result =
        read_stripes_to_tcp_whole (piece ps) (length ps) dst total few (length streams) cs fit'
          unbroken ch.closes ch.pieces (every_delivered small sizes fresh whole sent m) in
      (
        result
            ∙ ap (λ s. (sends dst s, (total + length s) % 2 ^ 64)) text
            ∙ ap (λ w. (w, (total + length (flatten reads)) % 2 ^ 64))
                (sends_unbroken dst (flatten reads) unbroken),
        rw (← flatten-payloads reads) sent.counted,
      )
