-- ===== src/Bench/Throughput.antt =====
-- `doThroughputUp` and `doThroughputDown` of cmd/nl-punch-bench/main.go, behind their dials, and the
-- server's sink and upload.
pub mod Counts
use nl_punch.Prelude.{
  [], ℕ, zero, suc, ◌+◌, ◌-◌, ◌%◌, ◌^◌, ◌∷◌, List, Bytes, nat_eq, leb, ◌&&◌, Bool, if◌then◌else◌,
  length, Option, none, some,
}
use nl_punch.Stream.{IoError, eof, Result, ok, err, Reader, Writer, write, put_uint}
use nl_punch.Bench.{mode_sink, mode_upload, sink_loop}

-- What the reported event is called.
pub data EventKind : Type 0 where
  result partial : EventKind

-- The bytes that a write has taken.
abbrev pub taken : Writer → Writer → ℕ
taken before after = length after.written - length before.written

-- sent += uint64(n), and the loop goes on unless there is an error.
abbrev pub up_next :
    ℕ → Writer → Writer × Option IoError → (ℕ → Writer → Option (ℕ × Writer)) → Option (ℕ × Writer)
up_next sent w (w', none) go = go ((sent + taken w w') % 2 ^ 64) w'
up_next sent w (w', some e) go = some ((sent + taken w w') % 2 ^ 64, w')

-- for { n, err := c.Write(buf) }; `none` stands for a loop that goes on.
pub up_loop : ℕ → Bytes → ℕ → Writer → Option (ℕ × Writer)
up_loop zero buf sent w = none
up_loop (suc fuel) buf sent w = up_next sent w (write w buf) (up_loop fuel buf)

-- How the loop has ended: whether the error is a timeout, and when it came, in nanoseconds.
pub record Ending : Type 0 where
  pub timeout : Bool
  pub elapsed : ℕ
  pub dur : ℕ

abbrev pub up_kind : Ending → EventKind
up_kind x = if x.timeout && leb x.dur x.elapsed then result else partial

-- The event, and the connection behind it.
pub record Upload : Type 0 where
  pub kind : EventKind
  pub bytes_sent : ℕ
  pub out : Writer

abbrev pub upload : Ending → Option (ℕ × Writer) → Option Upload
upload x none = none
upload x (some (sent, w)) = some (record { kind = up_kind x; bytes_sent = sent; out = w })

abbrev pub after_sink_mode :
    Ending → ℕ → Bytes → Writer × Option IoError → Result IoError (Option Upload)
after_sink_mode x fuel buf (w, some e) = err e
after_sink_mode x fuel buf (w, none) = ok (upload x (up_loop fuel buf 0 w))

-- An error before the loop ends the program.
pub do_throughput_up : Ending → ℕ → Bytes → Writer → Result IoError (Option Upload)
unfolding up_loop
do_throughput_up x fuel buf w = after_sink_mode x fuel buf (write w (mode_sink ∷ []))

pub record Download : Type 0 where
  pub kind : EventKind
  pub bytes : ℕ

abbrev down_kind : IoError → EventKind
down_kind eof = result
down_kind _ = partial

-- got += uint64(n), the loop of the server's sink
abbrev pub download : (Bytes → List Bytes) → Reader → Download
download cut r = record { kind = down_kind r.fault; bytes = sink_loop (cut r.rest) 0 }

abbrev pub after_duration :
    (Bytes → List Bytes) → Reader → Writer × Option IoError → Result IoError (Writer × Download)
after_duration cut r (w, some e) = err e
after_duration cut r (w, none) = ok (w, download cut r)

abbrev pub after_upload_mode :
    (Bytes → List Bytes) → ℕ → Reader → Writer × Option IoError → Result IoError (Writer × Download)
after_upload_mode cut dur_ms r (w, some e) = err e
after_upload_mode cut dur_ms r (w, none) =
    after_duration cut r (write w (put_uint 4 (dur_ms % 2 ^ 32)))

pub do_throughput_down :
    (Bytes → List Bytes) → ℕ → Writer → Reader → Result IoError (Writer × Download)
do_throughput_down cut dur_ms w r = after_upload_mode cut dur_ms r (write w (mode_upload ∷ []))
