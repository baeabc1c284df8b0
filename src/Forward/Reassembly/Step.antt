-- ===== src/Forward/Reassembly/Step.antt =====
-- One step of `readStripesToTCP` (internal/forward/forward.go): a delivery, a drain, a received
-- chunk. The chunks that arrive are numbered pieces `f 0`, `f 1`, … of one text, `n` of them.
use native.Mathlib.Numerals.{add-one}
use nl_punch.Prelude.{
  ℕ, zero, suc, ◌+◌, ◌%◌, ◌^◌, ◌<◌, ◌≤◌, [], ◌++◌, Bytes, nat_eq, string_eq, ◌==◌, ==_iff, ltb,
  ◌||◌, Bool, true, false, if◌then◌else◌, length, length-append, Option, none, some, ◌≡◌, ◌≢◌, refl,
  sym, ap, ◌∙◌, arith, Option-cases, Bool-cases, inl, inr,
}
use nl_punch.Prelude.Dict.{lookup, insert, delete, lookup-delete, lookup-insert, length-delete-lt}
use nl_punch.Stream.{Writer, sends, fits, shrink, write-sends, sends-sends}
use nl_punch.Forward.Reassembly.{Assembly, StripeChunk, deliver, drain, drain_all, receive}

-- The first `m` pieces, joined.
unfoldable pub joined : (ℕ → Bytes) → ℕ → Bytes
joined f zero = []
joined f (suc m) = joined f m ++ f m

abbrev is_some {ℓ} : {A : Type ℓ} → Option A → Bool
is_some none = false
is_some (some a) = true

-- Piece `k` has been delivered or waits in the reorder buffer.
unfoldable pub arrived : Assembly → ℕ → Bool
arrived a k = ltb k a.next_seq || is_some (lookup k a.pending)

-- The reorder buffer does not hold the piece that is due.
abbrev pub IsSettled : Assembly → Type 0
IsSettled a = lookup a.next_seq a.pending ≡ none

room_shrink : (o : Option ℕ) (p q : Bytes) → fits (shrink o p) q ≡ false → o ≢ none
room_shrink none p q h e = cc
room_shrink (some k) p q h e = cc

module _ (f : ℕ → Bytes) (n : ℕ) (dst₀ : Writer) (counter₀ : ℕ) where
  -- The pieces below `next_seq` are on the destination, in order, as far as it takes them.
  pub record Inv (a : Assembly) : Type 0 where
    pub in_range : a.next_seq ≤ n
    pub sent : a.dst ≡ sends dst₀ (joined f a.next_seq)
    pub counted : a.counter ≡ (counter₀ + length (joined f a.next_seq)) % 2 ^ 64
    pub held : (k : ℕ) (p : Bytes) → lookup k a.pending ≡ some p → (p ≡ f k) × (k < n)

  -- A write has failed: the destination has a beginning of the text, and it is one that breaks.
  pub record Stopped (a : Assembly) : Type 0 where
    pub upto : ℕ
    pub upto_range : upto ≤ n
    pub sent : a.dst ≡ sends dst₀ (joined f upto)
    pub breaks : dst₀.room ≢ none

  room_refuses : (q p : Bytes) → fits (sends dst₀ q).room p ≡ false → dst₀.room ≢ none
  unfolding sends
  room_refuses q p h = room_shrink dst₀.room q p h

  -- What holds after a call that returned this: `Q` only if it went well.
  abbrev pub Ends : (Assembly → Type 0) → Assembly × Bool → Type 0
  Ends Q (a, true) = Inv a × Q a
  Ends Q (a, false) = Stopped a

  -- The next call is made only if this one went well.
  pub Ends-then :
      (Q R : Assembly → Type 0) (next : Assembly → Assembly × Bool) (o : Assembly × Bool)
      → Ends Q o
      → ((a : Assembly) → Inv a → Q a → Ends R (next a))
      → Ends R (if o.1 then next o.0 else (o.0, false))
  Ends-then Q R next (a, true) h k = k a h.0 h.1
  Ends-then Q R next (a, false) h k = h

  pub Ends-weaken :
      (Q R : Assembly → Type 0) (o : Assembly × Bool)
      → Ends Q o
      → ((a : Assembly) → Q a → R a)
      → Ends R o
  Ends-weaken Q R (a, true) h k = (h.0, k a h.1)
  Ends-weaken Q R (a, false) h k = h

  module _ (small : n < 2 ^ 32) where
    -- After a delivery.
    abbrev Advanced : Assembly → Assembly → Type 0
    Advanced a a' = (a'.next_seq ≡ a.next_seq + 1) × (a'.pending ≡ a.pending) × (a'.eofs ≡ a.eofs)

    joined-step : (p : Bytes) (m : ℕ) → p ≡ f m → joined f (m + 1) ≡ joined f m ++ p
    unfolding joined
    joined-step p m e = rw (add-one m, e)

    next_sent :
        (p : Bytes) (a : Assembly)
        → Inv a
        → p ≡ f a.next_seq
        → sends a.dst p ≡ sends dst₀ (joined f (a.next_seq + 1))
    next_sent p a v e =
        ap (λ w. sends w p) v.sent
        ∙ sends-sends dst₀ (joined f a.next_seq) p
        ∙ ap (sends dst₀) (sym (joined-step p a.next_seq e))

    next_counted :
        (p : Bytes) (a : Assembly)
        → Inv a
        → p ≡ f a.next_seq
        → (a.counter + length p) % 2 ^ 64 ≡ (counter₀ + length (joined f (a.next_seq + 1))) % 2 ^ 64
    next_counted p a v e =
        rw (joined-step p a.next_seq e)
          (omega (arith, v.counted, length-append (joined f a.next_seq) p))

    deliver-Ends :
        (p : Bytes) (a : Assembly)
        → Inv a
        → a.next_seq < n
        → p ≡ f a.next_seq
        → Ends (Advanced a) (deliver p a)
    unfolding deliver
    deliver-Ends p a v due e = elim (Bool-cases (fits a.dst.room p)) [
      | inl fit ↦
          let exact : (a.next_seq + 1) % 2 ^ 32 ≡ a.next_seq + 1 = omega arith in
          rw (write-sends a.dst p, fit, exact)
            (
              record {
                in_range = omega arith;
                sent = next_sent p a v e;
                counted = next_counted p a v e;
                held = v.held;
              },
              (refl, refl, refl),
            )
      | inr over ↦
          rw (write-sends a.dst p, over)
            (record {
              upto = a.next_seq + 1;
              upto_range = omega arith;
              sent = next_sent p a v e;
              breaks = room_refuses _ p (rw v.sent at over);
            })
    ]

    -- After a drain: the buffer is settled, and what has arrived is what had arrived.
    abbrev pub Drained : Assembly → Assembly → Type 0
    Drained a a' = IsSettled a' × ((k : ℕ) → arrived a' k ≡ arrived a k) × (a'.eofs ≡ a.eofs)

    without_due-Inv :
        (a : Assembly) → Inv a → Inv (record a { pending = delete a.next_seq a.pending })
    without_due-Inv a v = record {
      in_range = v.in_range;
      sent = v.sent;
      counted = v.counted;
      held = λ k p h. v.held k p (ground (arith, lookup-delete a.next_seq k a.pending, h));
    }

    arrived_advance :
        (a a' : Assembly) {p : Bytes}
        → lookup a.next_seq a.pending ≡ some p
        → Advanced (record a { pending = delete a.next_seq a.pending }) a'
        → (k : ℕ) → arrived a' k ≡ arrived a k
    unfolding arrived
    arrived_advance a a' {p} due (next, rest, _) k =
        rw (next, rest, lookup-delete a.next_seq k a.pending)
          (elim (Bool-cases (a.next_seq == k)) [
            | inl hit ↦
                let due' : lookup k a.pending ≡ some p = rw ((==_iff a.next_seq k).0 hit) at due in
                ground (arith, due')
            | inr miss ↦ ground arith
          ])

    drain-Ends :
        (fuel : ℕ) (a : Assembly)
        → length a.pending < fuel
        → Inv a
        → Ends (Drained a) (drain fuel a)
    unfolding drain
    drain-Ends zero a enough v = absurd (omega arith)
    drain-Ends (suc fuel) a enough v = elim (Option-cases (lookup a.next_seq a.pending)) [
      | inl missing ↦ rw (missing, drain) (v, (missing, (λ k. refl), refl))
      | inr (p, due) ↦
          let a₁ : Assembly = record a { pending = delete a.next_seq a.pending } in
          let (piece, below) = v.held a.next_seq p due in
          rw (due, drain)
            (Ends-then (Advanced a₁) (Drained a) (drain fuel) (deliver p a₁)
              (deliver-Ends p a₁ (without_due-Inv a v) below piece)
              λ a' v' adv.
                Ends-weaken (Drained a') (Drained a) (drain fuel a')
                  (drain-Ends fuel a'
                    (omega (arith, ap length adv.1, length-delete-lt a.next_seq a.pending due)) v')
                  λ x d. (d.0, (λ k. d.1 k ∙ arrived_advance a a' due adv k), d.2 ∙ adv.2))
    ]

    pub drain_all-Ends : (a : Assembly) → Inv a → Ends (Drained a) (drain_all a)
    unfolding drain_all
    drain_all-Ends a v = drain-Ends (suc (length a.pending)) a (omega arith) v

    -- After a data chunk: one more piece has arrived.
    abbrev pub Received : ℕ → Assembly → Assembly → Type 0
    Received seq a a' =
        IsSettled a' × ((k : ℕ) → arrived a' k ≡ (seq == k || arrived a k)) × (a'.eofs ≡ a.eofs)

    inserted-Inv :
        (seq : ℕ) (p : Bytes) (a : Assembly)
        → Inv a
        → seq < n
        → p ≡ f seq
        → Inv (record a { pending = insert seq p a.pending })
    inserted-Inv seq p a v below piece = record {
      in_range = v.in_range;
      sent = v.sent;
      counted = v.counted;
      held = λ k q h. elim (Bool-cases (seq == k)) [
        | inl hit ↦
            let e : seq ≡ k = (==_iff seq k).0 hit in
            ground (arith, lookup-insert seq k p a.pending, ap f e)
        | inr miss ↦ v.held k q (ground (arith, lookup-insert seq k p a.pending))
      ];
    }

    early-Received :
        (seq : ℕ) (p : Bytes) (a : Assembly)
        → IsSettled a
        → seq == a.next_seq ≡ false
        → Received seq a (record a { pending = insert seq p a.pending })
    unfolding arrived
    early-Received seq p a settled early = (
      ground (arith, lookup-insert seq a.next_seq p a.pending),
      (λ k. rw (lookup-insert seq k p a.pending) (ground arith)),
      refl,
    )

    due-Received :
        (seq : ℕ) (a a' a'' : Assembly)
        → seq ≡ a.next_seq
        → Advanced a a'
        → Drained a' a''
        → Received seq a a''
    unfolding arrived
    due-Received seq a a' a'' due adv d =
        (d.0, (λ k. d.1 k ∙ rw (adv.0, adv.1, due) (ground arith)), d.2 ∙ adv.2)

    pub receive-Ends :
        (c : StripeChunk) (a : Assembly)
        → Inv a
        → IsSettled a
        → c.seq < n
        → c.payload ≡ f c.seq
        → Ends (Received c.seq a) (receive c a)
    unfolding receive
    receive-Ends c a v settled below piece = elim (Bool-cases (c.seq == a.next_seq)) [
      | inr early ↦ rw early (
        inserted-Inv c.seq c.payload a v below piece,
        early-Received c.seq c.payload a settled early,
      )
      | inl due ↦
          let e : c.seq ≡ a.next_seq = (==_iff c.seq a.next_seq).0 due in
          rw due (
            Ends-then (Advanced a) (Received c.seq a) drain_all (deliver c.payload a)
              (deliver-Ends c.payload a v (omega arith) (piece ∙ ap f e))
              λ a' v' adv.
                Ends-weaken (Drained a') (Received c.seq a) (drain_all a') (drain_all-Ends a' v')
                  λ x d. due-Received c.seq a a' x e adv d)
    ]
