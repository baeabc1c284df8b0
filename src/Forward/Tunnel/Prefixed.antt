-- ===== src/Forward/Tunnel/Prefixed.antt =====
-- `writeStripes` of internal/forward/forward.go on streams that have carried something before: the
-- header of the listener.
use nl_punch.Prelude.{
  ℕ, zero, suc, [], ◌∷◌, ◌++◌, List, map, append_assoc, Bytes, nat_eq, string_eq, if◌then◌else◌,
  get_elem?, set, Option, none, some, some-injective, ◌≡◌, refl, sym, ap, ◌∙◌, Option-cases,
  Bool-cases, inl, inr,
}
use nl_punch.Stream.{IoError, broken, Writer, sends, fits}
use nl_punch.Forward.Chunk.{write_chunk}
use nl_punch.Forward.Chunk.Codec.{chunk_bytes, write_chunk-sends}
use nl_punch.Forward.Dispatch.{
  Side, open_side, written_side, serve, send_to, Dispatch, sent_one, read_loop, end_marker,
  write_stripes,
}

abbrev map_some {ℓ κ} : {A : Type ℓ} {B : Type κ} → (A → B) → Option A → Option B
map_some f none = none
map_some f (some a) = some (f a)

get_elem?-map_all {ℓ κ} :
    {A : Type ℓ} {B : Type κ} (f : A → B) (xs : List A) (i : ℕ)
    → get_elem? (map f xs) i ≡ map_some f (get_elem? xs i)
get_elem?-map_all f [] i = refl
get_elem?-map_all f (x ∷ xs) zero = refl
get_elem?-map_all f (x ∷ xs) (suc i) = get_elem?-map_all f xs i

map-set {ℓ κ} :
    {A : Type ℓ} {B : Type κ} (f : A → B) (xs : List A) (i : ℕ) (a : A)
    → map f (set xs i a) ≡ set (map f xs) i (f a)
map-set f [] i a = refl
map-set f (x ∷ xs) zero a = refl
map-set f (x ∷ xs) (suc i) a = ap (λ ys. f x ∷ ys) (map-set f xs i a)

module _ (h : Bytes) where
  -- The stream, with `h` before what it has carried.
  abbrev pub after : Writer → Writer
  after w = record w { written = h ++ w.written }

  abbrev after_side : Side → Side
  after_side s = record s { conn = after s.conn }

  abbrev after_all : Dispatch → Dispatch
  after_all d = record d { sides = map after_side d.sides }

  sends-after : (w : Writer) (s : Bytes) → sends (after w) s ≡ after (sends w s)
  unfolding sends
  sends-after w s = rw (append_assoc h w.written _)

  write_chunk-after :
      (w : Writer) (seq : ℕ) (p : Bytes)
      → write_chunk (after w) seq p ≡ (after (write_chunk w seq p).0, (write_chunk w seq p).1)
  write_chunk-after w seq p =
      write_chunk-sends (after w) seq p
      ∙ ap (λ v. (v, (if fits w.room (chunk_bytes seq p) then none else some broken)))
          (sends-after w (chunk_bytes seq p))
      ∙ ap (λ o. (after o.0, o.1)) (sym (write_chunk-sends w seq p))

  written_side-after :
      (o : Writer × Option IoError) → written_side (after o.0, o.1) ≡ after_side (written_side o)
  written_side-after (w, none) = refl
  written_side-after (w, some e) = refl

  serve-after :
      (seq : ℕ) (p : Bytes) (s : Side) → serve seq p (after_side s) ≡ after_side (serve seq p s)
  unfolding serve
  serve-after seq p s =
      ap written_side (write_chunk-after s.conn seq p)
      ∙ written_side-after (write_chunk s.conn seq p)

  abbrev after_sent : Option (List Side) → Option (List Side)
  after_sent = map_some (map after_side)

  send_to-after :
      (i seq : ℕ) (p : Bytes) (sides : List Side)
      → send_to i seq p (map after_side sides) ≡ after_sent (send_to i seq p sides)
  unfolding send_to
  send_to-after i seq p sides = elim (Option-cases (get_elem? sides i)) [
    | inl missing ↦ rw (send_to, get_elem?-map_all after_side sides i, missing) refl
    | inr (s, at) ↦ elim (Bool-cases s.alive) [
      | inl running ↦
          rw
            (
              send_to,
              get_elem?-map_all after_side sides i,
              at,
              running,
              serve-after seq p s,
              map-set after_side sides i (serve seq p s),
            )
            refl
      | inr stopped ↦ rw (send_to, get_elem?-map_all after_side sides i, at, stopped) refl
    ]
  ]

  abbrev after_loop : Option Dispatch → Option Dispatch
  after_loop = map_some after_all

  read_loop-after :
      (reads : List Bytes) (picks : List ℕ) (d : Dispatch)
      → read_loop reads picks (after_all d) ≡ after_loop (read_loop reads picks d)
  unfolding read_loop
  read_loop-after [] picks d = refl
  read_loop-after ([] ∷ reads) picks d = read_loop-after reads picks d
  read_loop-after ((b ∷ p) ∷ reads) [] d = refl
  read_loop-after ((b ∷ p) ∷ reads) (i ∷ picks) d =
      elim (Option-cases (send_to i d.seq (b ∷ p) d.sides)) [
        | inl blocked ↦ rw (read_loop, send_to-after i d.seq (b ∷ p) d.sides, blocked)
        | inr (sides, sent) ↦
            rw (read_loop, send_to-after i d.seq (b ∷ p) d.sides, sent)
              (read_loop-after reads picks (sent_one (b ∷ p) d sides))
      ]

  end_marker-after : (seq : ℕ) (s : Side) → end_marker seq (after_side s) ≡ after (end_marker seq s)
  end_marker-after seq s = ap (λ o. o.0) (write_chunk-after s.conn seq [])

  end_markers-after :
      (seq : ℕ) (sides : List Side)
      → map (end_marker seq) (map after_side sides) ≡ map after (map (end_marker seq) sides)
  end_markers-after seq [] = refl
  end_markers-after seq (s ∷ sides) = rw (end_marker-after seq s, end_markers-after seq sides) refl

  open_sides-after :
      (ws : List Writer) → map open_side (map after ws) ≡ map after_side (map open_side ws)
  open_sides-after [] = refl
  open_sides-after (w ∷ ws) = ap (λ ss. open_side (after w) ∷ ss) (open_sides-after ws)

  -- What the streams have carried before makes no difference.
  pub write_stripes-after :
      (reads : List Bytes) (picks : List ℕ) (streams ws : List Writer) (c c' : ℕ)
      → write_stripes reads picks streams c ≡ some (ws, c')
      → write_stripes reads picks (map after streams) c ≡ some (map after ws, c')
  unfolding write_stripes
  write_stripes-after reads picks streams ws c c' e =
      let d₀ : Dispatch = record { sides = map open_side streams; seq = 0; counter = c } in
      elim (Option-cases (read_loop reads picks d₀)) [
        | inl blocked ↦ cc (rw (write_stripes, blocked) at e)
        | inr (d, back) ↦
            let same = some-injective _ _ (rw (write_stripes, back) at e) in
            rw
              (
                write_stripes,
                open_sides-after streams,
                read_loop-after reads picks d₀,
                back,
                end_markers-after d.seq d.sides,
              )
              (ap (λ o. some (map after o.0, o.1)) same)
      ]
