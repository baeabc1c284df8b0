-- ===== src/Forward/Dispatch/Items.antt =====
-- The numbered chunks that `writeStripes` (internal/forward/forward.go) deals out, stripe by stripe.
use mathlib.Core.List.{flatten}
use nl_punch.Prelude.{
  ℕ, zero, suc, ◌+◌, ◌^◌, ◌<◌, ◌≤◌, [], ◌∷◌, ◌++◌, List, append_assoc, append-nil, Bytes, nat_eq,
  string_eq, ◌==◌, ==_iff, ◌||◌, Bool, true, false, if◌then◌else◌, length, length-set, get_elem?-lt,
  All, some, ◌≡◌, refl, sym, ap, ◌∙◌, arith, Bool-cases, inl, inr,
}
use nl_punch.Forward.Reassembly.Step.{joined}
use nl_punch.Forward.Pump.Wire.{Items, IsSendable}
use nl_punch.Forward.Dispatch.{Dispatch, sent_one, read_loop, serve}
use nl_punch.Forward.Dispatch.Served.{stripe_items, IsPayload, send_to-some, round-some}

-- The payload with number `k`.
pub piece : List Bytes → ℕ → Bytes
piece [] k = []
piece (p ∷ ps) zero = p
piece (p ∷ ps) (suc k) = piece ps k

-- A payload whose length fits the chunk header.
abbrev pub IsShort : Bytes → Type 0
IsShort p = length p < 2 ^ 32

abbrev pub IsItem : (ℕ → Bytes) → ℕ → ℕ × Bytes → Type 0
IsItem f n (k, p) = (p ≡ f k) × (k < n)

joined-piece_cons :
    (p : Bytes) (ps : List Bytes) (m : ℕ)
    → joined (piece (p ∷ ps)) (suc m) ≡ p ++ joined (piece ps) m
unfolding joined piece
joined-piece_cons p ps zero = rw append-nil
joined-piece_cons p ps (suc m) =
    rw (joined-piece_cons p ps m) (append_assoc p (joined (piece ps) m) (piece ps m))

-- The pieces are the text.
pub joined-piece : (ps : List Bytes) → joined (piece ps) (length ps) ≡ flatten ps
unfolding flatten joined
joined-piece [] = refl
joined-piece (p ∷ ps) = joined-piece_cons p ps (length ps) ∙ ap (λ t. p ++ t) (joined-piece ps)

-- The first pieces are a beginning of the text.
pub joined_prefix : (f : ℕ → Bytes) (m n : ℕ) → m ≤ n → (t : Bytes) × (joined f m ++ t ≡ joined f n)
unfolding joined
joined_prefix f m zero h = let e : m ≡ 0 = omega arith in ([], rw e)
joined_prefix f m (suc n) h = elim (Bool-cases (m == suc n)) [
  | inl all ↦ ([], rw ((==_iff m (suc n)).0 all) (append-nil (joined f (suc n))))
  | inr fewer ↦
      let (t, e) = joined_prefix f m n (ground arith) in
      (t ++ f n, sym (append_assoc (joined f m) t (f n)) ∙ ap (λ s. s ++ f n) e)
]

pub stripe_items-IsSendable :
    (i seq : ℕ) (ps : List Bytes) (picks : List ℕ)
    → seq + length ps < 2 ^ 32
    → All IsPayload ps
    → All IsShort ps
    → All IsSendable (stripe_items i seq ps picks)
unfolding stripe_items
stripe_items-IsSendable i seq [] picks small h short = tt
stripe_items-IsSendable i seq (p ∷ ps) [] small h short = tt
stripe_items-IsSendable i seq (p ∷ ps) (j ∷ picks) small h short =
    let rest = stripe_items-IsSendable i (seq + 1) ps picks (omega arith) h.1 short.1 in
    elim (Bool-cases (j == i)) [
      | inl hit ↦ rw hit ((omega arith, short.0, h.0), rest)
      | inr miss ↦ rw miss rest
    ]

pub stripe_items-IsItem :
    (f : ℕ → Bytes) (n i seq : ℕ) (ps : List Bytes) (picks : List ℕ)
    → seq + length ps ≤ n
    → ((k : ℕ) → f (seq + k) ≡ piece ps k)
    → All (IsItem f n) (stripe_items i seq ps picks)
unfolding stripe_items piece
stripe_items-IsItem f n i seq [] picks range h = tt
stripe_items-IsItem f n i seq (p ∷ ps) [] range h = tt
stripe_items-IsItem f n i seq (p ∷ ps) (j ∷ picks) range h =
    let rest =
      stripe_items-IsItem f n i (seq + 1) ps picks (omega arith)
        (λ k. let e : seq + 1 + k ≡ seq + suc k = omega arith in rw e (h (suc k))) in
    let first : p ≡ f seq = let e : seq + 0 ≡ seq = omega arith in rw e at (sym (h 0)) in
    elim (Bool-cases (j == i)) [
      | inl hit ↦ rw hit ((first, omega arith), rest)
      | inr miss ↦ rw miss rest
    ]

unfoldable pub has : ℕ → Items → Bool
has k [] = false
has k ((j, p) ∷ xs) = j == k || has k xs

has-if :
    (k seq i j : ℕ) (p : Bytes) (xs : Items)
    → has k xs ≡ true
    → has k (if j == i then (seq, p) ∷ xs else xs) ≡ true
unfolding has
has-if k seq i j p xs h = ground arith

has_first :
    (seq j : ℕ) (p : Bytes) (xs : Items)
    → has (seq + 0) (if j == j then (seq, p) ∷ xs else xs) ≡ true
unfolding has
has_first seq j p xs = ground arith

shift_seq : (seq k : ℕ) → seq + suc k ≡ seq + 1 + k
shift_seq seq k = omega arith

-- If the loop comes back, each payload has been dealt to some stripe.
pub dealt :
    (ps : List Bytes) (picks : List ℕ) (d d' : Dispatch) (seq k : ℕ)
    → All IsPayload ps
    → read_loop ps picks d ≡ some d'
    → k < length ps
    → (i : ℕ) × (i < length d.sides) × (has (seq + k) (stripe_items i seq ps picks) ≡ true)
unfolding stripe_items has read_loop
dealt [] picks d d' seq k h e range = elim range [ ]
dealt ([] ∷ ps) picks d d' seq k h e range = absurd (h.0 refl)
dealt ((b ∷ p) ∷ ps) [] d d' seq k h e range = cc
dealt ((b ∷ p) ∷ ps) (j ∷ picks) d d' seq zero h e range =
    let (sides, sent, rest) = round-some b p ps j picks d e in
    let (s, at, running, same) = send_to-some j d.seq (b ∷ p) d.sides sent in
    (j, get_elem?-lt d.sides j at, has_first seq j (b ∷ p) (stripe_items j (seq + 1) ps picks))
dealt ((b ∷ p) ∷ ps) (j ∷ picks) d d' seq (suc k) h e range =
    let (sides, sent, rest) = round-some b p ps j picks d e in
    let (s, at, running, same) = send_to-some j d.seq (b ∷ p) d.sides sent in
    let (i, below, found) =
      dealt ps picks (sent_one (b ∷ p) d sides) d' (seq + 1) k h.1 rest (omega arith) in
    (
      i,
      rw (← ap length same, length-set d.sides j (serve d.seq (b ∷ p) s)) at below,
      rw (shift_seq seq k) (has-if (seq + 1 + k) seq i j (b ∷ p) _ found),
    )
