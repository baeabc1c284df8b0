-- ===== src/Forward/Dispatch.antt =====
-- `writeStripes` of internal/forward/forward.go. The source is the list of what its `Read` calls
-- return, the last of them the one that comes with an error. The order in which the writer
-- goroutines take chunks from the unbuffered channel is a list of picks, the stripe for each chunk.
pub mod Served
pub mod Progress
pub mod Items
use nl_punch.Prelude.{
  [], ℕ, ◌+◌, ◌*◌, ◌%◌, ◌^◌, ◌∷◌, List, map, Bytes, nat_eq, Bool, true, false, if◌then◌else◌,
  length, get_elem?, set, Option, none, some,
}
use nl_punch.Stream.{IoError, Writer}
use nl_punch.Forward.Chunk.{write_chunk}

abbrev pub chunk_size : ℕ
chunk_size = 64 * 1024

-- A stripe, with its writer goroutine: it returns after a failed write.
pub record Side : Type 0 where
  pub conn : Writer
  pub alive : Bool

abbrev pub open_side : Writer → Side
open_side w = record { conn = w; alive = true }

abbrev pub written_side : Writer × Option IoError → Side
written_side (w, none) = record { conn = w; alive = true }
written_side (w, some e) = record { conn = w; alive = false }

unfoldable pub serve : ℕ → Bytes → Side → Side
serve seq payload s = written_side (write_chunk s.conn seq payload)

-- dispatch <- chunk{seq, payload}, received by the writer of stripe `i`. There is no such step if
-- that stripe does not exist or its writer has returned.
unfoldable pub send_to : ℕ → ℕ → Bytes → List Side → Option (List Side)
unfolding serve
send_to i seq payload sides = elim (get_elem? sides i) [
  | none ↦ none
  | some s ↦ if s.alive then some (set sides i (serve seq payload s)) else none
]

-- The variables of the reading loop.
pub record Dispatch : Type 0 where
  pub sides : List Side
  pub seq : ℕ
  pub counter : ℕ

abbrev pub sent_one : Bytes → Dispatch → List Side → Dispatch
sent_one payload d sides = record {
  sides = sides;
  seq = (d.seq + 1) % 2 ^ 32;
  counter = (d.counter + length payload) % 2 ^ 64;
}

-- The reading loop. `none`: the loop waits for a writer that never comes.
unfoldable pub read_loop : List Bytes → List ℕ → Dispatch → Option Dispatch
read_loop [] picks d = some d
read_loop ([] ∷ reads) picks d = read_loop reads picks d
read_loop ((b ∷ p) ∷ reads) [] d = none
read_loop ((b ∷ p) ∷ reads) (i ∷ picks) d = elim (send_to i d.seq (b ∷ p) d.sides) [
  | none ↦ none
  | some sides ↦ read_loop reads picks (sent_one (b ∷ p) d sides)
]

-- The end marker, on every stream, whatever became of its writer; its error is ignored.
abbrev pub end_marker : ℕ → Side → Writer
end_marker seq s = (write_chunk s.conn seq []).0

unfoldable pub write_stripes : List Bytes → List ℕ → List Writer → ℕ → Option (List Writer × ℕ)
unfolding read_loop
write_stripes reads picks streams counter =
    elim (read_loop reads picks
      (record { sides = map open_side streams; seq = 0; counter = counter })) [
        | none ↦ none
        | some d ↦ some (map (end_marker d.seq) d.sides, d.counter)
      ]

-- Where the reading loop stands when it has ended, or while it waits.
unfoldable pub loop_state : List Bytes → List ℕ → Dispatch → Dispatch
loop_state [] picks d = d
loop_state ([] ∷ reads) picks d = loop_state reads picks d
loop_state ((b ∷ p) ∷ reads) [] d = d
loop_state ((b ∷ p) ∷ reads) (i ∷ picks) d = elim (send_to i d.seq (b ∷ p) d.sides) [
  | none ↦ d
  | some sides ↦ loop_state reads picks (sent_one (b ∷ p) d sides)
]

-- The streams when `writeStripes` has returned, or while it waits in its loop: with no end marker then.
unfoldable pub streams_after : List Bytes → List ℕ → List Writer → ℕ → List Writer
unfolding write_stripes loop_state
streams_after reads picks streams counter = elim (write_stripes reads picks streams counter) [
  | some (ws, counter') ↦ ws
  | none ↦
      let start : Dispatch = record { sides = map open_side streams; seq = 0; counter = counter } in
      map (λ s. s.conn) (loop_state reads picks start).sides
]
