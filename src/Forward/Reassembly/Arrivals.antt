-- ===== src/Forward/Reassembly/Arrivals.antt =====
-- What the main loop of `readStripesToTCP` (internal/forward/forward.go) is given, chunk by chunk.
use nl_punch.Prelude.{
  ℕ, zero, suc, ◌+◌, ◌<◌, ◌≤◌, [], ◌∷◌, List, Bytes, nat_eq, string_eq, ◌==◌, ==_iff, ltb, ◌&&◌,
  ◌||◌, not, Bool, true, false, if◌then◌else◌, ◌≡◌, refl, arith, Bool-cases, inl, inr,
}
use nl_punch.Forward.Reassembly.{Assembly, StripeChunk, receive, receive_loop}

-- A data chunk with number `k` comes in.
unfoldable pub arrives : ℕ → List StripeChunk → Bool
arrives k [] = false
arrives k (c ∷ cs) = (not c.eof && c.seq == k) || arrives k cs

-- Each of the first `m` pieces comes in.
unfoldable pub all_arrive : ℕ → List StripeChunk → Bool
all_arrive zero cs = true
all_arrive (suc m) cs = arrives m cs && all_arrive m cs

-- Each data chunk is one of the `n` pieces.
abbrev pub IsPiece : (ℕ → Bytes) → ℕ → StripeChunk → Type 0
IsPiece f n c = (c.eof ≡ false) → (c.payload ≡ f c.seq) × (c.seq < n)

-- Nothing comes behind the last of the end markers, one for each stripe; `e` have come before.
abbrev pub Closes : ℕ → ℕ → List StripeChunk → Type 0
Closes streams e [] = Unit
Closes streams e (c ∷ cs) =
    ((c.eof ≡ true) → e + 1 ≡ streams → cs ≡ []) × Closes streams (if c.eof then e + 1 else e) cs

pub or_nothing : (x : Bool) (k : ℕ) → (x || (ltb k 0 || false)) ≡ x
or_nothing x k = ground arith

pub all_arrive_below :
    (m : ℕ) (cs : List StripeChunk)
    → ((k : ℕ) → k < m → arrives k cs ≡ true)
    → all_arrive m cs ≡ true
unfolding all_arrive
all_arrive_below zero cs h = refl
all_arrive_below (suc m) cs h =
    rw (h m (omega arith), all_arrive_below m cs (λ k lt. h k (omega arith)))

arrives_of_all :
    (m : ℕ) (cs : List StripeChunk) (k : ℕ) → all_arrive m cs ≡ true → k < m → arrives k cs ≡ true
unfolding all_arrive
arrives_of_all zero cs k h lt = absurd (omega arith)
arrives_of_all (suc m) cs k h lt = elim (Bool-cases (k == m)) [
  | inl last ↦ rw ((==_iff k m).0 last) (ground arith)
  | inr before ↦ arrives_of_all m cs k (ground arith) (ground arith)
]

pub reaches_end :
    (m n : ℕ) (cs : List StripeChunk)
    → m ≤ n
    → all_arrive n cs ≡ true
    → arrives m cs ≡ false
    → m ≡ n
reaches_end m n cs range all missing = grind (arith, arrives_of_all n cs m)

pub arrives_eof :
    (k : ℕ) (c : StripeChunk) (cs : List StripeChunk)
    → c.eof ≡ true
    → arrives k (c ∷ cs) ≡ arrives k cs
unfolding arrives
arrives_eof k c cs e = ground arith

pub arrives_item :
    (k : ℕ) (c : StripeChunk) (cs : List StripeChunk)
    → c.eof ≡ false
    → arrives k (c ∷ cs) ≡ (c.seq == k || arrives k cs)
unfolding arrives
arrives_item k c cs e = ground arith

pub receive_loop_eof :
    (streams : ℕ) (c : StripeChunk) (cs : List StripeChunk) (a : Assembly)
    → c.eof ≡ true
    → receive_loop streams (c ∷ cs) a ≡ (
        if a.eofs + 1 == streams
        then (record a { eofs = a.eofs + 1 }, true)
        else receive_loop streams cs (record a { eofs = a.eofs + 1 }))
unfolding receive_loop
receive_loop_eof streams c cs a e = rw e

pub receive_loop_item :
    (streams : ℕ) (c : StripeChunk) (cs : List StripeChunk) (a : Assembly)
    → c.eof ≡ false
    → receive_loop streams (c ∷ cs) a ≡ (
        if (receive c a).1
        then receive_loop streams cs (receive c a).0
        else ((receive c a).0, false))
unfolding receive_loop
receive_loop_item streams c cs a e = rw e

pub Closes-eof :
    (streams e : ℕ) (c : StripeChunk) (cs : List StripeChunk)
    → c.eof ≡ true
    → Closes streams e (c ∷ cs)
    → (e + 1 ≡ streams → cs ≡ []) × Closes streams (e + 1) cs
Closes-eof streams e c cs h (last, rest) = (last h, rw h at rest)

pub Closes-item :
    (streams e : ℕ) (c : StripeChunk) (cs : List StripeChunk)
    → c.eof ≡ false
    → Closes streams e (c ∷ cs)
    → Closes streams e cs
Closes-item streams e c cs h (last, rest) = rw h at rest
