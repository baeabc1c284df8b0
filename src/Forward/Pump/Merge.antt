-- ===== src/Forward/Pump/Merge.antt =====
-- The channel `in` of `readStripesToTCP` (internal/forward/forward.go): the readers of all stripes
-- send on it, and it delivers some interleaving of what they send.
use nl_punch.Prelude.{
  ℕ, zero, suc, ◌+◌, ◌≤◌, [], ◌∷◌, List, nat_eq, string_eq, ◌==◌, ◌&&◌, ◌||◌, not, Bool, true,
  false, if◌then◌else◌, length, get_elem?, set, length-set, All, All-get_elem?, All-set, some,
  some-injective, or_assoc, or_left_comm, ◌≡◌, ◌≢◌, refl, sym, ◌∙◌, arith, Bool-cases, inl, inr,
}
use nl_punch.Forward.Reassembly.{StripeChunk}
use nl_punch.Forward.Reassembly.Arrivals.{arrives, Closes}

-- `cs` is an interleaving of the queues.
pub data Merge : List (List StripeChunk) → List StripeChunk → Type 0 where
  done : {qs : List (List StripeChunk)} → All (λ q. q ≡ []) qs → Merge qs []
  take_from :
      {qs : List (List StripeChunk)} {cs : List StripeChunk} (i : ℕ) (c : StripeChunk)
      (q : List StripeChunk)
      → get_elem? qs i ≡ some (c ∷ q)
      → Merge (set qs i q) cs
      → Merge qs (c ∷ cs)

-- What one reader sends: data chunks, and one end marker behind them.
abbrev pub IsStripe : List StripeChunk → Type 0
IsStripe [] = Unit
IsStripe (c ∷ q) = (c.eof ≡ true → q ≡ []) × (c.eof ≡ false → q ≢ []) × IsStripe q

abbrev pub any_arrives : ℕ → List (List StripeChunk) → Bool
any_arrives k [] = false
any_arrives k (q ∷ qs) = arrives k q || any_arrives k qs

-- How many readers are through.
abbrev is_empty : List StripeChunk → ℕ
is_empty [] = 1
is_empty (c ∷ q) = 0

abbrev pub ended : List (List StripeChunk) → ℕ
ended [] = 0
ended (q ∷ qs) = is_empty q + ended qs

pub Merge-All :
    (P : StripeChunk → Type 0) {qs : List (List StripeChunk)} {cs : List StripeChunk}
    → Merge qs cs
    → All (All P) qs
    → All P cs
Merge-All P (done empty) h = tt
Merge-All P (take_from {qs} i c q e m) h =
    let here = All-get_elem? (All P) qs i h e in
    (here.0, Merge-All P m (All-set (All P) qs i q h here.1))

any_arrives-set :
    (k : ℕ) (qs : List (List StripeChunk)) (i : ℕ) (c : StripeChunk) (q : List StripeChunk)
    → get_elem? qs i ≡ some (c ∷ q)
    → any_arrives k qs ≡ ((not c.eof && c.seq == k) || any_arrives k (set qs i q))
unfolding arrives
any_arrives-set k [] i c q e = cc
any_arrives-set k (p ∷ qs) zero c q e =
    let h : p ≡ c ∷ q = some-injective _ _ e in
    rw h (or_assoc (not c.eof && c.seq == k) (arrives k q) (any_arrives k qs))
any_arrives-set k (p ∷ qs) (suc i) c q e =
    rw (any_arrives-set k qs i c q e)
      (or_left_comm (arrives k p) (not c.eof && c.seq == k) (any_arrives k (set qs i q)))

any_arrives_empty :
    (k : ℕ) (qs : List (List StripeChunk)) → All (λ q. q ≡ []) qs → any_arrives k qs ≡ false
unfolding arrives
any_arrives_empty k [] h = refl
any_arrives_empty k (q ∷ qs) h = rw (h.0) (any_arrives_empty k qs h.1)

-- The channel loses nothing and makes nothing up.
pub Merge-arrives :
    {qs : List (List StripeChunk)} {cs : List StripeChunk} (k : ℕ)
    → Merge qs cs
    → arrives k cs ≡ any_arrives k qs
unfolding arrives
Merge-arrives {qs} k (done empty) = sym (any_arrives_empty k qs empty)
Merge-arrives {qs} k (take_from i c q e m) = rw (any_arrives-set k qs i c q e, Merge-arrives k m)

ended-le : (qs : List (List StripeChunk)) → ended qs ≤ length qs
ended-le [] = omega arith
ended-le ([] ∷ qs) = omega (arith, ended-le qs)
ended-le ((c ∷ q) ∷ qs) = omega (arith, ended-le qs)

-- If all readers are through, the channel is closed.
All-ended : (qs : List (List StripeChunk)) → ended qs ≡ length qs → All (λ q. q ≡ []) qs
All-ended [] h = tt
All-ended ([] ∷ qs) h = (refl, All-ended qs (omega arith))
All-ended ((c ∷ q) ∷ qs) h = absurd (omega (arith, ended-le qs))

Merge-ended :
    {qs : List (List StripeChunk)} {cs : List StripeChunk}
    → Merge qs cs
    → All (λ q. q ≡ []) qs
    → cs ≡ []
Merge-ended (done _) h = refl
Merge-ended (take_from {qs} i c q e m) h = cc (All-get_elem? (λ q. q ≡ []) qs i h e)

ended-set_last :
    (qs : List (List StripeChunk)) (i : ℕ) (c : StripeChunk)
    → get_elem? qs i ≡ some (c ∷ [])
    → ended (set qs i []) ≡ ended qs + 1
ended-set_last [] i c e = cc
ended-set_last (p ∷ qs) zero c e = let h : p ≡ c ∷ [] = some-injective _ _ e in rw h (omega arith)
ended-set_last (p ∷ qs) (suc i) c e = omega (arith, ended-set_last qs i c e)

ended-set_more :
    (qs : List (List StripeChunk)) (i : ℕ) (c d : StripeChunk) (q : List StripeChunk)
    → get_elem? qs i ≡ some (c ∷ d ∷ q)
    → ended (set qs i (d ∷ q)) ≡ ended qs
ended-set_more [] i c d q e = cc
ended-set_more (p ∷ qs) zero c d q e = let h : p ≡ c ∷ d ∷ q = some-injective _ _ e in rw h
ended-set_more (p ∷ qs) (suc i) c d q e = omega (arith, ended-set_more qs i c d q e)

ended-set :
    (qs : List (List StripeChunk)) (i : ℕ) (c : StripeChunk) (q : List StripeChunk)
    → get_elem? qs i ≡ some (c ∷ q)
    → IsStripe (c ∷ q)
    → ended (set qs i q) ≡ (if c.eof then ended qs + 1 else ended qs)
ended-set qs i c [] e (_, more, _) = elim (Bool-cases c.eof) [
  | inl last ↦ rw last (ended-set_last qs i c e)
  | inr going ↦ absurd (more going refl)
]
ended-set qs i c (d ∷ q) e (last, _, _) = elim (Bool-cases c.eof) [
  | inl end ↦ cc (last end)
  | inr going ↦ rw going (ended-set_more qs i c d q e)
]

-- Nothing comes behind the last end marker.
pub Merge-Closes :
    {qs : List (List StripeChunk)} {cs : List StripeChunk} (streams e : ℕ)
    → Merge qs cs
    → length qs ≡ streams
    → ended qs ≡ e
    → All IsStripe qs
    → Closes streams e cs
Merge-Closes streams e (done empty) len count h = tt
Merge-Closes streams e (take_from {qs} i c q here m) len count h =
    let stripe = All-get_elem? IsStripe qs i h here in
    let rest = All-set IsStripe qs i q h stripe.2 in
    let kept : length (set qs i q) ≡ streams = length-set qs i q ∙ len in
    let step = ended-set qs i c q here stripe in
    (
      (λ last full. Merge-ended m (All-ended (set qs i q) (step ∙ rw last (omega arith)))),
      Merge-Closes streams (if c.eof then e + 1 else e) m kept (step ∙ rw count) rest,
    )
