-- ===== src/Forward/Tunnel/Exact.antt =====
-- What a client sends into a listener (internal/forward/forward.go) is what the service gets.
use mathlib.Core.List.{flatten}
use nl_punch.Prelude.{
  ℕ, ◌+◌, ◌%◌, ◌^◌, ◌<◌, ◌≤◌, [], ◌∷◌, ◌++◌, List, append-nil, Bytes, nat_eq, string_eq, Bool, true,
  length, All, none, some, ◌≡◌, refl, sym, ap, ◌∙◌, arith,
}
use nl_punch.Prelude.Dict.{Dict}
use nl_punch.Stream.{eof, Writer}
use nl_punch.Forward.Header.{header_bytes, read_stream_header}
use nl_punch.Forward.Header.Codec.{read-write_stream_header}
use nl_punch.Forward.Dispatch.{write_stripes}
use nl_punch.Forward.Dispatch.Progress.{write_stripes_total}
use nl_punch.Forward.Reassembly.{StripeChunk, stripe_reader, read_stripes_to_tcp}
use nl_punch.Forward.Pump.{received, readers, IsRead, IsUnbroken}
use nl_punch.Forward.Pump.Merge.{Merge, done, take_from}
use nl_punch.Forward.Pump.Channel.{length-payloads-le}
use nl_punch.Forward.Pump.EndToEnd.{pump_exact}
use nl_punch.Forward.Pump.Sent.{write_stripes-Sent}
use nl_punch.Forward.Listener.{session_of, stripe_header, accept_conn, pumping}
use nl_punch.Forward.Listener.Reaches.{first_header-IsValid, accept_conn-fresh}
use nl_punch.Forward.Listener.Sequence.{Inbound, IsInbound, first_sent, handle-arrival}
use nl_punch.Forward.Router.{new_accept_router, handle, dial_group, pumps}
use nl_punch.Forward.Tunnel.{pump_opened, pump_stream}
use nl_punch.Forward.Tunnel.Prefixed.{after, write_stripes-after}

-- The only reader is heard in its own order.
Merge-single : (q : List StripeChunk) → Merge (q ∷ []) q
Merge-single [] = done (refl, tt)
Merge-single (c ∷ q) = take_from 0 c q refl (Merge-single q)

single : (ws : List Writer) → length ws ≡ 1 → (w : Writer) × (ws ≡ w ∷ [])
single [] h = absurd (omega (arith, h))
single (w ∷ []) h = (w, refl)
single (w ∷ v ∷ ws) h = absurd (omega (arith, h))

write_stripes-length :
    (reads : List Bytes) (picks : List ℕ) (streams ws : List Writer) (c c' : ℕ)
    → length reads < 2 ^ 32
    → c < 2 ^ 64
    → write_stripes reads picks streams c ≡ some (ws, c')
    → length ws ≡ length streams
write_stripes-length reads picks streams ws c c' few fit e =
    (write_stripes-Sent reads picks streams ws c c' (λ i. eof)
      (omega (arith, length-payloads-le reads)) fit e).stripes

abbrev fresh : Writer
fresh = record { written = []; room = none }

abbrev header_of_conn : Inbound → Bytes
header_of_conn c = header_bytes (stripe_header c.name (session_of c.random) 1 0)

-- The connection `c` is through, with the bytes of `reads`: `w` is its stream at the end, and `n` the
-- counter of the listener.
pub record IsTunnelled (ports : ℕ → Bool) (dials : Dict Bytes ℕ) (c : Inbound) (reads : List Bytes)
    (picks : List ℕ) (counter total : ℕ) (dst w : Writer) (n : ℕ) : Type 0 where
  pub pumped :
      pump_opened reads picks counter (accept_conn c.name c.random c.opens) ≡ some (w ∷ [], n)
  pub dialed :
      handle ports (new_accept_router dials) c.stream (received c.fault w)
      ≡ (new_accept_router dials, pumps c.port (some c.stream ∷ []))
  pub delivered :
      pump_stream (read_stream_header (received c.fault w)) dst total
      ≡ some (
        record dst { written = dst.written ++ flatten reads },
        (total + length (flatten reads)) % 2 ^ 64,
      )
  pub counted : n ≡ (counter + length (flatten reads)) % 2 ^ 64

module _ (dials : Dict Bytes ℕ) (c : Inbound) (v : IsInbound dials c) where
  accept_conn-header :
      accept_conn c.name c.random c.opens ≡ pumping (after (header_of_conn c) fresh ∷ [])
  accept_conn-header =
      let h = stripe_header c.name (session_of c.random) 1 0 in
      let valid = first_header-IsValid c.name c.random v.tag v.small in
      let (written, read) = read-write_stream_header h [] c.fault fresh valid refl in
      accept_conn-fresh c.name c.random c.opens fresh v.opened written
      ∙ ap (λ s. pumping (record fresh { written = s } ∷ [])) (sym (append-nil (header_of_conn c)))

  -- The router at the other end of the stream.
  handle-received :
      (ports : ℕ → Bool) (w : Writer)
      → handle ports
          (new_accept_router dials)
          c.stream
          (received c.fault (after (header_of_conn c) w))
        ≡ (new_accept_router dials, dial_group ports c.port (some c.stream ∷ []))
  handle-received ports w =
      let c' : Inbound = record c { later = w.written } in
      let v' : IsInbound dials c' = record {
        tag = v.tag;
        small = v.small;
        opened = v.opened;
        known = v.known;
      } in
      let sent : first_sent (accept_conn c.name c.random c.opens) ≡ header_of_conn c =
        ap first_sent accept_conn-header ∙ append-nil (header_of_conn c) in
      ap
        (λ s.
          handle ports (new_accept_router dials) c.stream
            (record { rest = s ++ w.written; fault = c.fault }))
        (sym sent)
      ∙ handle-arrival ports dials c' v'

  pump_stream-received :
      (w dst : Writer) (total : ℕ)
      → pump_stream (read_stream_header (received c.fault (after (header_of_conn c) w))) dst total
        ≡ some (read_stripes_to_tcp 1 (stripe_reader 0 (received c.fault w)) dst total)
  pump_stream-received w dst total =
      let h = stripe_header c.name (session_of c.random) 1 0 in
      let valid = first_header-IsValid c.name c.random v.tag v.small in
      let (written, read) = read-write_stream_header h w.written c.fault fresh valid refl in
      ap (λ o. pump_stream o dst total) read

  -- `writeStripes` on the fresh stream behind its header.
  pump_opened-after :
      (reads : List Bytes) (picks : List ℕ) (counter n : ℕ) (w : Writer)
      → write_stripes reads picks (fresh ∷ []) counter ≡ some (w ∷ [], n)
      → pump_opened reads picks counter (accept_conn c.name c.random c.opens)
        ≡ some (after (header_of_conn c) w ∷ [], n)
  pump_opened-after reads picks counter n w e =
      ap (pump_opened reads picks counter) accept_conn-header
      ∙ write_stripes-after (header_of_conn c) reads picks (fresh ∷ []) (w ∷ []) counter n e

  -- A client connects to a listener and sends bytes, and the service that the other peer dials for
  -- its name gets exactly these bytes: the listener's pump ends, the router reads the header and
  -- dials the port of the name with the stream, and its pump writes what the client sent and counts
  -- it, as the listener does. The stream, the dial and the connection to the service hold; there are
  -- fewer than 2 ^ 32 reads, of at most 64 KiB each.
  pub tunnel_exact :
      (ports : ℕ → Bool) (reads : List Bytes) (picks : List ℕ) (counter total : ℕ) (dst : Writer)
      → ports c.port ≡ true
      → length reads < 2 ^ 32
      → counter < 2 ^ 64
      → total < 2 ^ 64
      → All IsRead reads
      → All (λ i. i < 1) picks
      → length reads ≤ length picks
      → IsUnbroken dst
      → (w : Writer) × (n : ℕ) × IsTunnelled ports dials c reads picks counter total dst w n
  unfolding readers
  tunnel_exact ports reads picks counter total dst up few fit fit' sizes valid enough whole =
      let (ws, n, e) =
        write_stripes_total reads picks (fresh ∷ []) counter (refl, tt) valid enough in
      let faults = λ (i : ℕ). c.fault in
      let (w, alone) =
        single ws (write_stripes-length reads picks (fresh ∷ []) ws counter n few fit e) in
      let e' = e ∙ ap (λ vs. some (vs, n)) alone in
      let (exact, counted) =
        pump_exact reads picks (fresh ∷ []) (w ∷ []) counter n faults
          (stripe_reader 0 (received c.fault w)) dst total few fit fit' sizes (refl, tt) (refl, tt)
          whole e' (Merge-single (stripe_reader 0 (received c.fault w))) in
      (
        after (header_of_conn c) w,
        n,
        record {
          pumped = pump_opened-after reads picks counter n w e';
          dialed = handle-received ports w ∙ ap (λ o. (new_accept_router dials, o)) (rw up);
          delivered = pump_stream-received w dst total ∙ ap some exact;
          counted = counted;
        },
      )
