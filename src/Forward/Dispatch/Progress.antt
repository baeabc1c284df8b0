-- ===== src/Forward/Dispatch/Progress.antt =====
-- When `writeStripes` (internal/forward/forward.go) returns, and when it waits for ever.
use nl_punch.Prelude.{
  ℕ, zero, suc, ◌<◌, ◌≤◌, [], ◌∷◌, List, map, Bytes, nat_eq, string_eq, true, false, length,
  get_elem?, set, length-set, All, All-get_elem?, All-set, get_elem?-some, length-map, none, some,
  ◌≡◌, ◌≢◌, ◌⊎◌, refl, ap, ◌∙◌, arith, Option-cases, Bool-cases, inl, inr,
}
use nl_punch.Stream.{Writer, sends, fits, shrink}
use nl_punch.Forward.Chunk.Codec.{chunk_bytes, write_chunk-sends}
use nl_punch.Forward.Dispatch.Served.{payloads}
use nl_punch.Forward.Dispatch.{
  Side, open_side, written_side, serve, send_to, Dispatch, sent_one, read_loop, end_marker,
  write_stripes,
}

-- A stripe whose writer runs, on a connection that does not break.
abbrev IsRunning : Side → Type 0
IsRunning s = (s.alive ≡ true) × (s.conn.room ≡ none)

-- A stripe whose writer has returned.
abbrev IsStopped : Side → Type 0
IsStopped s = s.alive ≡ false

serve-IsRunning : (seq : ℕ) (p : Bytes) (s : Side) → IsRunning s → IsRunning (serve seq p s)
unfolding serve sends
serve-IsRunning seq p s (up, whole) =
    rw (write_chunk-sends s.conn seq p, whole, written_side)
      (
        refl,
        ap (λ o. o.0.room) (write_chunk-sends s.conn seq p)
            ∙ ap (λ o. shrink o (chunk_bytes seq p)) whole,
      )

send_to-IsRunning :
    (i seq : ℕ) (p : Bytes) (sides : List Side)
    → All IsRunning sides
    → i < length sides
    → (sides' : List Side) × (send_to i seq p sides ≡ some sides')
      × (All IsRunning sides')
      × (length sides' ≡ length sides)
unfolding send_to
send_to-IsRunning i seq p sides h inside =
    let (s, at) = get_elem?-some sides i inside in
    let running = All-get_elem? IsRunning sides i h at in
    (
      set sides i (serve seq p s),
      rw (at, send_to, running.0),
      All-set IsRunning sides i (serve seq p s) h (serve-IsRunning seq p s running),
      length-set sides i (serve seq p s),
    )

read_loop_total :
    (reads : List Bytes) (picks : List ℕ) (d : Dispatch)
    → All IsRunning d.sides
    → All (λ i. i < length d.sides) picks
    → length reads ≤ length picks
    → (d' : Dispatch) × (read_loop reads picks d ≡ some d')
unfolding read_loop
read_loop_total [] picks d h valid enough = (d, refl)
read_loop_total ([] ∷ reads) picks d h valid enough =
    read_loop_total reads picks d h valid (omega arith)
read_loop_total ((b ∷ p) ∷ reads) [] d h valid enough = absurd (omega arith)
read_loop_total ((b ∷ p) ∷ reads) (i ∷ picks) d h valid enough =
    let (sides, e, h', len) = send_to-IsRunning i d.seq (b ∷ p) d.sides h valid.0 in
    let (d', rest) =
      read_loop_total reads picks (sent_one (b ∷ p) d sides) h' (rw len valid.1) (omega arith) in
    (d', rw (e, read_loop) rest)

open-IsRunning :
    (streams : List Writer)
    → All (λ w. w.room ≡ none) streams
    → All IsRunning (map open_side streams)
open-IsRunning [] h = tt
open-IsRunning (w ∷ ws) h = ((refl, h.0), open-IsRunning ws h.1)

-- Over stripes that do not break, `writeStripes` returns for every way to share the chunks out
-- among the stripes that there are.
pub write_stripes_total :
    (reads : List Bytes) (picks : List ℕ) (streams : List Writer) (c : ℕ)
    → All (λ w. w.room ≡ none) streams
    → All (λ i. i < length streams) picks
    → length reads ≤ length picks
    → (ws : List Writer) × (c' : ℕ) × (write_stripes reads picks streams c ≡ some (ws, c'))
unfolding write_stripes
write_stripes_total reads picks streams c whole valid enough =
    let (d, e) =
      read_loop_total reads picks (record { sides = map open_side streams; seq = 0; counter = c })
        (open-IsRunning streams whole) (rw (length-map open_side streams) valid) enough in
    (map (end_marker d.seq) d.sides, d.counter, rw (e, write_stripes))

send_to_stopped :
    (i seq : ℕ) (p : Bytes) (sides : List Side) → All IsStopped sides → send_to i seq p sides ≡ none
unfolding send_to
send_to_stopped i seq p sides h = elim (Option-cases (get_elem? sides i)) [
  | inl missing ↦ rw (missing, send_to)
  | inr (s, at) ↦ rw (at, send_to, All-get_elem? IsStopped sides i h at)
]

-- No picks help once every writer has returned and a chunk is left.
read_loop_stalled :
    (reads : List Bytes) (picks : List ℕ) (d : Dispatch)
    → All IsStopped d.sides
    → payloads reads ≢ []
    → read_loop reads picks d ≡ none
unfolding read_loop payloads
read_loop_stalled [] picks d h left = absurd (left refl)
read_loop_stalled ([] ∷ reads) picks d h left = read_loop_stalled reads picks d h left
read_loop_stalled ((b ∷ p) ∷ reads) [] d h left = refl
read_loop_stalled ((b ∷ p) ∷ reads) (i ∷ picks) d h left =
    rw (send_to_stopped i d.seq (b ∷ p) d.sides h, read_loop)

serve_refused :
    (seq : ℕ) (p : Bytes) (s : Side)
    → fits s.conn.room (chunk_bytes seq p) ≡ false
    → IsStopped (serve seq p s)
unfolding serve
serve_refused seq p s over = rw (write_chunk-sends s.conn seq p, over)

send_to_only :
    (i seq : ℕ) (p : Bytes) (s : Side)
    → fits s.conn.room (chunk_bytes seq p) ≡ false
    → (send_to i seq p (s ∷ []) ≡ none)
      ⊎ ((sides : List Side) × (send_to i seq p (s ∷ []) ≡ some sides) × All IsStopped sides)
unfolding send_to
send_to_only zero seq p s over = elim (Bool-cases s.alive) [
  | inl up ↦ inr (serve seq p s ∷ [], rw up, (serve_refused seq p s over, tt))
  | inr down ↦ inl (rw down)
]
send_to_only (suc i) seq p s over = inl refl

-- If the only stripe breaks in the first chunk and the source gives another byte after it,
-- `writeStripes` waits for a writer for ever, however the chunks are offered.
pub write_stripes_stalls :
    (b : ℕ) (first : Bytes) (later : List Bytes) (picks : List ℕ) (w : Writer) (c : ℕ)
    → fits w.room (chunk_bytes 0 (b ∷ first)) ≡ false
    → payloads later ≢ []
    → write_stripes ((b ∷ first) ∷ later) picks (w ∷ []) c ≡ none
unfolding write_stripes read_loop send_to
write_stripes_stalls b first later [] w c over left = refl
write_stripes_stalls b first later (i ∷ picks) w c over left =
    elim (send_to_only i 0 (b ∷ first) (open_side w) over) [
      | inl refused ↦ rw (refused, read_loop)
      | inr (sides, sent, down) ↦
          let d : Dispatch = record { sides = open_side w ∷ []; seq = 0; counter = c } in
          rw (sent, read_loop)
            (rw (read_loop_stalled later picks (sent_one (b ∷ first) d sides) down left))
    ]
