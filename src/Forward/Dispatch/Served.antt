-- ===== src/Forward/Dispatch/Served.antt =====
-- What `writeStripes` (internal/forward/forward.go) has written on each stripe when it returns.
use mathlib.Core.List.{flatten}
use nl_punch.Prelude.{
  ℕ, suc, ◌+◌, ◌%◌, ◌^◌, ◌<◌, [], ◌∷◌, ◌++◌, List, Bytes, nat_eq, string_eq, ◌==◌, ==_iff, true,
  if◌then◌else◌, length, get_elem?, set, length-append, length-set, get_elem?-set_self,
  get_elem?-set_ne, get_elem?-lt, All, Option, none, some, some-injective, ◌≡◌, ◌≢◌, refl, sym, ap,
  ◌∙◌, arith, Option-cases, Bool-cases, inl, inr,
}
use nl_punch.Stream.{IoError, Writer, sends, sends-sends, sends-nil}
use nl_punch.Forward.Chunk.{write_chunk}
use nl_punch.Forward.Chunk.Codec.{chunk_bytes, write_chunk-sends}
use nl_punch.Forward.Pump.Wire.{Items, wire}
use nl_punch.Forward.Dispatch.{Side, written_side, serve, send_to, Dispatch, sent_one, read_loop}

-- The reads that returned some byte.
unfoldable pub payloads : List Bytes → List Bytes
payloads [] = []
payloads ([] ∷ reads) = payloads reads
payloads ((b ∷ p) ∷ reads) = (b ∷ p) ∷ payloads reads

-- The chunks that the picks give to stripe `i`, numbered from `seq`.
unfoldable pub stripe_items : ℕ → ℕ → List Bytes → List ℕ → Items
stripe_items i seq [] picks = []
stripe_items i seq (p ∷ ps) [] = []
stripe_items i seq (p ∷ ps) (j ∷ picks) =
    let rest = stripe_items i (seq + 1) ps picks in if j == i then (seq, p) ∷ rest else rest

abbrev pub IsPayload : Bytes → Type 0
IsPayload p = p ≢ []

pub payloads-IsPayload : (reads : List Bytes) → All IsPayload (payloads reads)
unfolding payloads
payloads-IsPayload [] = tt
payloads-IsPayload ([] ∷ reads) = payloads-IsPayload reads
payloads-IsPayload ((b ∷ p) ∷ reads) = ((λ e. cc), payloads-IsPayload reads)

-- Empty reads change nothing.
pub read_loop-payloads :
    (reads : List Bytes) (picks : List ℕ) (d : Dispatch)
    → read_loop reads picks d ≡ read_loop (payloads reads) picks d
unfolding read_loop payloads
read_loop-payloads [] picks d = refl
read_loop-payloads ([] ∷ reads) picks d = read_loop-payloads reads picks d
read_loop-payloads ((b ∷ p) ∷ reads) [] d = refl
read_loop-payloads ((b ∷ p) ∷ reads) (i ∷ picks) d = λ t. elim (send_to i d.seq (b ∷ p) d.sides) [
  | none ↦ none
  | some sides ↦ read_loop-payloads reads picks (sent_one (b ∷ p) d sides) t
]

written_side-conn : (o : Writer × Option IoError) → (written_side o).conn ≡ o.0
written_side-conn (w, none) = refl
written_side-conn (w, some e) = refl

serve-conn :
    (seq : ℕ) (p : Bytes) (s : Side) → (serve seq p s).conn ≡ sends s.conn (chunk_bytes seq p)
unfolding serve
serve-conn seq p s =
    written_side-conn (write_chunk s.conn seq p) ∙ ap (λ o. o.0) (write_chunk-sends s.conn seq p)

running_lem :
    (s : Side) (next : List Side) {sides' : List Side}
    → (if s.alive then some next else none) ≡ some sides'
    → (s.alive ≡ true) × (next ≡ sides')
running_lem s next h = ground arith

-- A chunk is sent to a stripe that exists and whose writer runs.
pub send_to-some :
    (i seq : ℕ) (p : Bytes) (sides : List Side) {sides' : List Side}
    → send_to i seq p sides ≡ some sides'
    → (s : Side) × (get_elem? sides i ≡ some s)
      × (s.alive ≡ true)
      × (set sides i (serve seq p s) ≡ sides')
unfolding send_to
send_to-some i seq p sides h = elim (Option-cases (get_elem? sides i)) [
  | inl missing ↦ cc (rw (missing, send_to) at h)
  | inr (s, e) ↦
      let (running, same) = running_lem s (set sides i (serve seq p s)) (rw (e, send_to) at h) in
      (s, e, running, same)
]

-- One round of the loop that comes back.
pub round-some :
    (b : ℕ) (p : Bytes) (reads : List Bytes) (i : ℕ) (picks : List ℕ) (d : Dispatch) {d' : Dispatch}
    → read_loop ((b ∷ p) ∷ reads) (i ∷ picks) d ≡ some d'
    → (sides : List Side) × (send_to i d.seq (b ∷ p) d.sides ≡ some sides)
      × (read_loop reads picks (sent_one (b ∷ p) d sides) ≡ some d')
unfolding read_loop
round-some b p reads i picks d h = elim (Option-cases (send_to i d.seq (b ∷ p) d.sides)) [
  | inl blocked ↦ cc (rw (blocked, read_loop) at h)
  | inr (sides, e) ↦ (sides, e, rw (e, read_loop) at h)
]

-- How the loop leaves its variables: each stripe has carried its items.
pub record Served (ps : List Bytes) (picks : List ℕ) (d d' : Dispatch) : Type 0 where
  pub next : d'.seq ≡ d.seq + length ps
  pub counted : d'.counter ≡ (d.counter + length (flatten ps)) % 2 ^ 64
  pub same_stripes : length d'.sides ≡ length d.sides
  pub carried :
      (i : ℕ) (s : Side)
      → get_elem? d.sides i ≡ some s
      → (s' : Side) × (get_elem? d'.sides i ≡ some s')
        × (s'.conn ≡ sends s.conn (wire (stripe_items i d.seq ps picks)))

-- What stripe `i` carries after a round that gave the chunk to stripe `j`.
carried_step :
    (p : Bytes) (ps : List Bytes) (j : ℕ) (picks : List ℕ) (d d' : Dispatch) (s : Side)
    → get_elem? d.sides j ≡ some s
    → Served ps picks (sent_one p d (set d.sides j (serve d.seq p s))) d'
    → (d.seq + 1) % 2 ^ 32 ≡ d.seq + 1
    → (i : ℕ) (s' : Side) → get_elem? d.sides i ≡ some s'
    → (s'' : Side) × (get_elem? d'.sides i ≡ some s'')
      × (s''.conn ≡ sends s'.conn (wire (stripe_items i d.seq (p ∷ ps) (j ∷ picks))))
unfolding stripe_items wire
carried_step p ps j picks d d' s at v exact i s' at' = elim (Bool-cases (j == i)) [
  | inl hit ↦
      let e : j ≡ i = (==_iff j i).0 hit in
      let same : s ≡ s' = some-injective _ _ (sym at ∙ ap (get_elem? d.sides) e ∙ at') in
      let moved : get_elem? (set d.sides j (serve d.seq p s)) i ≡ some (serve d.seq p s) =
        rw (← e) (get_elem?-set_self d.sides j (serve d.seq p s) (get_elem?-lt d.sides j at)) in
      let (s'', at'', conn) = v.carried i (serve d.seq p s) moved in
      (
        s'',
        at'',
        conn
            ∙ rw (hit, exact, serve-conn d.seq p s, same)
                (sends-sends s'.conn (chunk_bytes d.seq p)
                  (wire (stripe_items i (d.seq + 1) ps picks))),
      )
  | inr miss ↦
      let apart : j ≢ i = λ e. cc (sym miss, (==_iff j i).1 e) in
      let (s'', at'', conn) =
        v.carried i s' (get_elem?-set_ne d.sides (serve d.seq p s) apart ∙ at') in
      (s'', at'', conn ∙ rw (miss, exact))
]

counted_step :
    (c₀ c : ℕ) (p rest : Bytes)
    → c ≡ ((c₀ + length p) % 2 ^ 64 + length rest) % 2 ^ 64
    → c ≡ (c₀ + length (p ++ rest)) % 2 ^ 64
counted_step c₀ c p rest e = omega (arith, length-append p rest)

step-Served :
    (p : Bytes) (ps : List Bytes) (j : ℕ) (picks : List ℕ) (d d' : Dispatch) (s : Side)
    → get_elem? d.sides j ≡ some s
    → d.seq + suc (length ps) < 2 ^ 32
    → Served ps picks (sent_one p d (set d.sides j (serve d.seq p s))) d'
    → Served (p ∷ ps) (j ∷ picks) d d'
unfolding flatten
step-Served p ps j picks d d' s at small v =
    let exact : (d.seq + 1) % 2 ^ 32 ≡ d.seq + 1 = omega arith in
    record {
      next = omega (arith, v.next);
      counted = counted_step d.counter d'.counter p (flatten ps) v.counted;
      same_stripes = v.same_stripes ∙ length-set d.sides j (serve d.seq p s);
      carried = carried_step p ps j picks d d' s at v exact;
    }

pub read_loop-Served :
    (ps : List Bytes) (picks : List ℕ) (d d' : Dispatch)
    → All IsPayload ps
    → d.seq + length ps < 2 ^ 32
    → d.counter < 2 ^ 64
    → read_loop ps picks d ≡ some d'
    → Served ps picks d d'
unfolding read_loop stripe_items wire flatten
read_loop-Served [] picks d d' h small fit e = rw (← some-injective _ _ e) (record {
  next = omega arith;
  counted = omega arith;
  same_stripes = refl;
  carried = λ i s at. (s, at, sym (sends-nil s.conn));
})
read_loop-Served ([] ∷ ps) picks d d' h small fit e = absurd (h.0 refl)
read_loop-Served ((b ∷ p) ∷ ps) [] d d' h small fit e = cc
read_loop-Served ((b ∷ p) ∷ ps) (j ∷ picks) d d' h small fit e =
    let (sides, sent, rest) = round-some b p ps j picks d e in
    let (s, at, running, same) = send_to-some j d.seq (b ∷ p) d.sides sent in
    step-Served (b ∷ p) ps j picks d d' s at small (
      read_loop-Served ps picks (sent_one (b ∷ p) d (set d.sides j (serve d.seq (b ∷ p) s))) d' h.1
        (omega arith) (omega arith) (rw same rest))
