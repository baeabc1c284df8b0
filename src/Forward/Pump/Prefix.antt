-- ===== src/Forward/Pump/Prefix.antt =====
-- What comes through when stripes of `writeStripes` (internal/forward/forward.go) break, also where it
-- waits for a writer for ever.
use mathlib.Core.List.{flatten}
use nl_punch.Prelude.{
  ℕ, ◌^◌, ◌<◌, [], ◌∷◌, ◌++◌, List, append_assoc, map, Bytes, nat_eq, string_eq, length,
  length-append, All-append_parts, All, none, some, ◌≡◌, refl, sym, ap, ◌∙◌, arith, Option-cases,
  inl, inr,
}
use nl_punch.Stream.{IoError, Writer, sends}
use nl_punch.Forward.Reassembly.{StripeChunk, read_stripes_to_tcp}
use nl_punch.Forward.Dispatch.{read_loop, write_stripes, loop_state, streams_after}
use nl_punch.Forward.Dispatch.Served.{payloads}
use nl_punch.Forward.Pump.{readers, IsFresh, IsRead}
use nl_punch.Forward.Pump.Merge.{Merge}
use nl_punch.Forward.Pump.Wire.{is_none}
use nl_punch.Forward.Pump.Channel.{
  length-payloads-le, payloads-IsShort, report-Channel, Channel-prefix,
}
use nl_punch.Forward.Pump.Sent.{length-readers, write_stripes-Sent, queue-Reports}
use nl_punch.Forward.Pump.Halted.{read_loop-Halts, start, halted-Reports}

flatten-append : (xs ys : List Bytes) → flatten (xs ++ ys) ≡ flatten xs ++ flatten ys
unfolding flatten
flatten-append [] ys = refl
flatten-append (x ∷ xs) ys =
    ap (λ t. x ++ t) (flatten-append xs ys) ∙ sym (append_assoc x (flatten xs) (flatten ys))

module _ (reads : List Bytes) (picks : List ℕ) (streams : List Writer) (c : ℕ)
    (fault : ℕ → IoError) where
  write_stripes-none :
      write_stripes reads picks streams c ≡ none → read_loop reads picks (start streams c) ≡ none
  unfolding write_stripes
  write_stripes-none h = elim (Option-cases (read_loop reads picks (start streams c))) [
    | inl stuck ↦ stuck
    | inr (d, e) ↦ cc (rw (e, write_stripes) at h)
  ]

  returned_lem :
      (ws : List Writer) (c' : ℕ)
      → write_stripes reads picks streams c ≡ some (ws, c')
      → streams_after reads picks streams c ≡ ws
  unfolding streams_after
  returned_lem ws c' e = rw (e, streams_after)

  halted_lem :
      write_stripes reads picks streams c ≡ none
      → streams_after reads picks streams c
        ≡ map (λ s. s.conn) (loop_state reads picks (start streams c)).sides
  unfolding streams_after
  halted_lem e = rw (e, streams_after)

module _ (reads : List Bytes) (picks : List ℕ) (streams : List Writer) (c : ℕ) (fault : ℕ → IoError)
    (cs : List StripeChunk) (dst : Writer) (total : ℕ) where
  -- The destination has a beginning of what the source gave.
  abbrev pub IsPrefixed : Type 0
  IsPrefixed =
      (s t : Bytes) × (s ++ t ≡ flatten reads)
      × ((read_stripes_to_tcp (length streams) cs dst total).0 ≡ sends dst s)

  module _ (small : length reads < 2 ^ 32) (fit : c < 2 ^ 64) (fit' : total < 2 ^ 64)
      (sizes : All IsRead reads) (fresh : All IsFresh streams) where
    returned_prefix :
        (ws : List Writer) (c' : ℕ)
        → write_stripes reads picks streams c ≡ some (ws, c')
        → Merge (readers fault 0 ws) cs
        → IsPrefixed
    returned_prefix ws c' e m =
        let few : length (payloads reads) < 2 ^ 32 = omega (arith, length-payloads-le reads) in
        let sent = write_stripes-Sent reads picks streams ws c c' fault few fit e in
        let report =
          queue-Reports reads picks streams ws c c' fault few fresh (payloads-IsShort reads sizes)
            sent in
        Channel-prefix reads picks (length streams) cs dst total small fit' (
          report-Channel reads picks (length streams) cs (readers fault 0 ws) small
            (length-readers fault 0 ws ∙ sent.stripes)
            (λ i q at. let (w₀, _, r) = report i q at in (is_none w₀.room, r)) m)

    halted_prefix :
        read_loop reads picks (start streams c) ≡ none
        → Merge
            (readers fault 0 (map (λ s. s.conn) (loop_state reads picks (start streams c)).sides))
            cs
        → IsPrefixed
    halted_prefix stuck m =
        let h = read_loop-Halts reads picks (start streams c) stuck in
        let d = loop_state reads picks (start streams c) in
        let shorter : length h.done_reads < 2 ^ 32 =
          omega (arith, ap length h.split, length-append h.done_reads h.left_reads) in
        let (many, report) =
          halted-Reports h.done_reads picks streams c fault d shorter fit
            (All-append_parts IsRead h.done_reads h.left_reads (rw h.split sizes)).0 fresh h.done in
        let conns = map (λ s. s.conn) d.sides in
        let (s, t, split, got) =
          Channel-prefix h.done_reads picks (length streams) cs dst total shorter fit' (
            report-Channel h.done_reads picks (length streams) cs (readers fault 0 conns) shorter
              (length-readers fault 0 conns ∙ many) report m) in
        (
          s,
          t ++ flatten h.left_reads,
          sym (append_assoc s t (flatten h.left_reads))
              ∙ ap (λ x. x ++ flatten h.left_reads) split
              ∙ sym (flatten-append h.done_reads h.left_reads)
              ∙ ap flatten h.split,
          got,
        )

  -- Whatever breaks, and whether `writeStripes` returns or waits for a writer for ever, the
  -- destination gets a beginning of what the source gave: however the writers share the chunks out,
  -- wherever a stripe or the destination breaks, and in whatever order the readers report, no byte
  -- is changed, invented, repeated or moved. This is for fewer than 2 ^ 32 reads of at most 64 KiB
  -- each, over streams that have carried nothing yet.
  pub pump_prefix :
      length reads < 2 ^ 32
      → c < 2 ^ 64
      → total < 2 ^ 64
      → All IsRead reads
      → All IsFresh streams
      → Merge (readers fault 0 (streams_after reads picks streams c)) cs
      → IsPrefixed
  pump_prefix small fit fit' sizes fresh m =
      elim (Option-cases (write_stripes reads picks streams c)) [
        | inr ((ws, c'), e) ↦
            returned_prefix small fit fit' sizes fresh ws c' e
              (rw (returned_lem reads picks streams c fault ws c' e) at m)
        | inl e ↦
            halted_prefix small fit fit' sizes fresh
              (write_stripes-none reads picks streams c fault e)
              (rw (halted_lem reads picks streams c fault e) at m)
      ]
