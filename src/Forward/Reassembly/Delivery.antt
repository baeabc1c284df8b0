-- ===== src/Forward/Reassembly/Delivery.antt =====
-- `readStripesToTCP` of internal/forward/forward.go as a whole: what reaches the destination when
-- the numbered pieces of a text arrive in any order.
use nl_punch.Prelude.{
  ℕ, ◌+◌, ◌%◌, ◌^◌, ◌<◌, ◌≤◌, [], ◌∷◌, List, Bytes, nat_eq, string_eq, ◌==◌, ==_iff, lt→ltb, ◌||◌,
  Bool, true, false, if◌then◌else◌, length, All, none, or_assoc, or_left_comm, ◌≡◌, refl, sym, ap,
  ◌∙◌, arith, Bool-cases, inl, inr,
}
use nl_punch.Prelude.Dict.{lookup}
use nl_punch.Stream.{Writer, sends, sends-nil}
use nl_punch.Forward.Reassembly.{
  Assembly, StripeChunk, receive, receive_loop, drain_all, then_drain, start, read_stripes_to_tcp,
}
use nl_punch.Forward.Reassembly.Step.{
  joined, arrived, IsSettled, Inv, Ends, Ends-then, Ends-weaken, Drained, drain_all-Ends, Received,
  receive-Ends,
}
use nl_punch.Forward.Reassembly.Arrivals.{
  arrives, all_arrive, IsPiece, Closes, or_nothing, all_arrive_below, reaches_end, arrives_eof,
  arrives_item, receive_loop_eof, receive_loop_item, Closes-eof, Closes-item,
}

module _ (f : ℕ → Bytes) (n : ℕ) (dst₀ : Writer) (counter₀ : ℕ) (small : n < 2 ^ 32) where
  -- After the loop: what has arrived is what had, and the data chunks of `cs`.
  abbrev Looped : List StripeChunk → Assembly → Assembly → Type 0
  Looped cs a a' = IsSettled a' × ((k : ℕ) → arrived a' k ≡ (arrives k cs || arrived a k))

  ended-Inv :
      (a : Assembly)
      → Inv f n dst₀ counter₀ a
      → Inv f n dst₀ counter₀ (record a { eofs = a.eofs + 1 })
  ended-Inv a v = record {
    in_range = v.in_range;
    sent = v.sent;
    counted = v.counted;
    held = v.held;
  }

  after_eof :
      (streams : ℕ) (c : StripeChunk) (cs : List StripeChunk) (a : Assembly)
      → Inv f n dst₀ counter₀ a
      → IsSettled a
      → c.eof ≡ true
      → (a.eofs + 1 ≡ streams → cs ≡ []) × Closes streams (a.eofs + 1) cs
      → (Closes streams (a.eofs + 1) cs
          → Ends f n dst₀ counter₀
              (Looped cs (record a { eofs = a.eofs + 1 }))
              (receive_loop streams cs (record a { eofs = a.eofs + 1 })))
      → Ends f n dst₀ counter₀ (Looped (c ∷ cs) a) (
          if a.eofs + 1 == streams
          then (record a { eofs = a.eofs + 1 }, true)
          else receive_loop streams cs (record a { eofs = a.eofs + 1 }))
  unfolding arrives arrived
  after_eof streams c cs a v settled ended (last, more) ih =
      elim (Bool-cases (a.eofs + 1 == streams)) [
        | inl all ↦ rw all (
          ended-Inv a v,
          (
            settled,
            λ k. rw (
              arrives_eof k c cs ended,
              ap (arrives k) (last ((==_iff (a.eofs + 1) streams).0 all)),
            ),
          ),
        )
        | inr some_left ↦ rw some_left (
            Ends-weaken f n dst₀ counter₀ (Looped cs (record a { eofs = a.eofs + 1 }))
              (Looped (c ∷ cs) a) (receive_loop streams cs (record a { eofs = a.eofs + 1 }))
              (ih more) λ x l. (l.0, λ k. rw (arrives_eof k c cs ended) (l.1 k)))
      ]

  receive_loop-Ends :
      (streams : ℕ) (cs : List StripeChunk) (a : Assembly)
      → Inv f n dst₀ counter₀ a
      → IsSettled a
      → Closes streams a.eofs cs
      → All (IsPiece f n) cs
      → Ends f n dst₀ counter₀ (Looped cs a) (receive_loop streams cs a)
  unfolding receive_loop arrives
  receive_loop-Ends streams [] a v settled closes pieces = (v, (settled, λ k. refl))
  receive_loop-Ends streams (c ∷ cs) a v settled closes pieces = elim (Bool-cases c.eof) [
    | inl ended ↦ rw (receive_loop_eof streams c cs a ended) (
        after_eof streams c cs a v settled ended (Closes-eof streams a.eofs c cs ended closes)
          (λ more.
            receive_loop-Ends streams cs (record a { eofs = a.eofs + 1 }) (ended-Inv a v) settled
              more pieces.1))
    | inr data_chunk ↦
        let (piece, below) = pieces.0 data_chunk in
        rw (receive_loop_item streams c cs a data_chunk) (
          Ends-then f n dst₀ counter₀ (Received f n dst₀ counter₀ small c.seq a) (Looped (c ∷ cs) a)
            (receive_loop streams cs) (receive c a)
            (receive-Ends f n dst₀ counter₀ small c a v settled below piece)
            λ a' v' r.
              Ends-weaken f n dst₀ counter₀ (Looped cs a') (Looped (c ∷ cs) a)
                (receive_loop streams cs a')
                (receive_loop-Ends streams cs a' v' r.0
                  (rw r.2 (Closes-item streams a.eofs c cs data_chunk closes)) pieces.1)
                λ x l. (
                  l.0,
                  λ k.
                      l.1 k
                      ∙ rw (arrives_item k c cs data_chunk, r.1 k)
                          (or_left_comm (arrives k cs) (c.seq == k) (arrived a k)
                            ∙ sym (or_assoc (c.seq == k) (arrives k cs) (arrived a k))),
                ))
  ]

  -- After the whole call: the buffer has been drained once more.
  abbrev Finished : List StripeChunk → Assembly → Type 0
  Finished cs a = IsSettled a × ((k : ℕ) → arrived a k ≡ arrives k cs)

  start-Inv : counter₀ < 2 ^ 64 → Inv f n dst₀ counter₀ (start dst₀ counter₀)
  unfolding joined lookup
  start-Inv fit = record {
    in_range = omega arith;
    sent = sym (sends-nil dst₀);
    counted = omega arith;
    held = λ k p h. cc h;
  }

  finish-Ends :
      (streams : ℕ) (cs : List StripeChunk)
      → counter₀ < 2 ^ 64
      → Closes streams 0 cs
      → All (IsPiece f n) cs
      → Ends f n dst₀ counter₀
          (Finished cs)
          (then_drain (receive_loop streams cs (start dst₀ counter₀)))
  unfolding arrived lookup
  finish-Ends streams cs fit closes pieces =
      let a₀ : Assembly = start dst₀ counter₀ in
      Ends-then f n dst₀ counter₀ (Looped cs a₀) (Finished cs) drain_all
        (receive_loop streams cs a₀)
        (receive_loop-Ends streams cs a₀ (start-Inv fit) refl closes pieces)
        λ a v l.
          Ends-weaken f n dst₀ counter₀ (Drained f n dst₀ counter₀ small a) (Finished cs)
            (drain_all a) (drain_all-Ends f n dst₀ counter₀ small a v)
            λ x d. (d.0, λ k. d.1 k ∙ l.1 k ∙ or_nothing (arrives k cs) k)

  -- What the gapless beginning of the text is: the first piece that is missing ends it.
  record Gapless (cs : List StripeChunk) (a : Assembly) : Type 0 where
    below : all_arrive a.next_seq cs ≡ true
    missing : arrives a.next_seq cs ≡ false

  Finished-Gapless : (cs : List StripeChunk) (a : Assembly) → Finished cs a → Gapless cs a
  unfolding arrived
  Finished-Gapless cs a (settled, same) = record {
    below = all_arrive_below a.next_seq cs λ k lt. sym (same k) ∙ rw (lt→ltb k a.next_seq lt);
    missing = sym (same a.next_seq) ∙ rw settled (ground arith);
  }

  Ends-prefix :
      (cs : List StripeChunk) (o : Assembly × Bool)
      → Ends f n dst₀ counter₀ (Finished cs) o
      → (m : ℕ) × (m ≤ n) × (o.0.dst ≡ sends dst₀ (joined f m))
  Ends-prefix cs (a, true) (v, _) = (a.next_seq, v.in_range, v.sent)
  Ends-prefix cs (a, false) s = (s.upto, s.upto_range, s.sent)

  Ends-unbroken :
      (cs : List StripeChunk) (o : Assembly × Bool)
      → dst₀.room ≡ none
      → Ends f n dst₀ counter₀ (Finished cs) o
      → Inv f n dst₀ counter₀ o.0 × Gapless cs o.0
  Ends-unbroken cs (a, true) whole (v, done) = (v, Finished-Gapless cs a done)
  Ends-unbroken cs (a, false) whole s = absurd (s.breaks whole)

  -- However the pieces are ordered, repeated or missing, and wherever the destination breaks, the
  -- bytes that it gets are a beginning of the text, as far as the destination takes it. The text has
  -- fewer than 2 ^ 32 pieces, and nothing comes behind the last end marker.
  pub read_stripes_to_tcp_prefix :
      (streams : ℕ) (cs : List StripeChunk)
      → counter₀ < 2 ^ 64
      → Closes streams 0 cs
      → All (IsPiece f n) cs
      → (m : ℕ) × (m ≤ n)
        × ((read_stripes_to_tcp streams cs dst₀ counter₀).0 ≡ sends dst₀ (joined f m))
  unfolding read_stripes_to_tcp
  read_stripes_to_tcp_prefix streams cs fit closes pieces =
      Ends-prefix cs _ (finish-Ends streams cs fit closes pieces)

  -- A destination that does not break gets exactly the pieces below the first one that never
  -- arrives, in order, and the counter grows by their length. The text has fewer than 2 ^ 32
  -- pieces, and nothing comes behind the last end marker.
  pub read_stripes_to_tcp_gapless :
      (streams : ℕ) (cs : List StripeChunk)
      → counter₀ < 2 ^ 64
      → dst₀.room ≡ none
      → Closes streams 0 cs
      → All (IsPiece f n) cs
      → (m : ℕ) × (m ≤ n)
        × (all_arrive m cs ≡ true)
        × (arrives m cs ≡ false)
        × ((read_stripes_to_tcp streams cs dst₀ counter₀).0 ≡ sends dst₀ (joined f m))
        × ((read_stripes_to_tcp streams cs dst₀ counter₀).1
            ≡ (counter₀ + length (joined f m)) % 2 ^ 64)
  unfolding read_stripes_to_tcp
  read_stripes_to_tcp_gapless streams cs fit whole closes pieces =
      let (v, g) = Ends-unbroken cs _ whole (finish-Ends streams cs fit closes pieces) in
      (_, v.in_range, g.below, g.missing, v.sent, v.counted)

  -- If every one of fewer than 2 ^ 32 pieces arrives, at least once and in any order, ahead of the
  -- last end marker, and the destination does not break, it gets the whole text.
  pub read_stripes_to_tcp_whole :
      (streams : ℕ) (cs : List StripeChunk)
      → counter₀ < 2 ^ 64
      → dst₀.room ≡ none
      → Closes streams 0 cs
      → All (IsPiece f n) cs
      → all_arrive n cs ≡ true
      → read_stripes_to_tcp streams cs dst₀ counter₀
        ≡ (sends dst₀ (joined f n), (counter₀ + length (joined f n)) % 2 ^ 64)
  read_stripes_to_tcp_whole streams cs fit whole closes pieces all =
      let (m, range, below, missing, sent, counted) =
        read_stripes_to_tcp_gapless streams cs fit whole closes pieces in
      let e = reaches_end m n cs range all missing in rw (← e) (λ i. (sent i, counted i))
