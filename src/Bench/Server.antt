-- ===== src/Bench/Server.antt =====
-- What the server of cmd/nl-punch-bench/main.go answers in each of its modes.
use mathlib.Core.List.{flatten}
use native.Mathlib.Nat.{zero-add}
use nl_punch.Prelude.{
  ℕ, zero, suc, ◌+◌, ◌*◌, ◌%◌, ◌^◌, ◌<◌, [], ◌∷◌, ◌++◌, List, Bytes, nat_eq, string_eq, ltb,
  if◌then◌else◌, length, length-append, ◌≡◌, refl, sym, ap, ◌∙◌, arith, Bool-cases, inl, inr,
}
use nl_punch.Stream.{
  length-put_uint, get_uint-put_uint, IoError, Reader, Writer, read_full, write, put_uint,
  read_full_append, sends, sends-nil, sends-sends, fits, write-sends, sends_after_refusal,
}
use nl_punch.Bench.{
  mode_ping, mode_sink, mode_upload, mode_hello, echo_loop, sink_loop, upload_loop, upload_from,
  serve_mode, serve_header, serve_bench, millisecond,
}

echo_loop-sends : (chunks : List Bytes) (w : Writer) → echo_loop chunks w ≡ sends w (flatten chunks)
unfolding echo_loop flatten
echo_loop-sends [] w = sym (sends-nil w)
echo_loop-sends ([] ∷ chunks) w = echo_loop-sends chunks w
echo_loop-sends ((b ∷ s) ∷ chunks) w = elim (Bool-cases (fits w.room (b ∷ s))) [
  | inl room ↦
      rw (write-sends w (b ∷ s), room)
        (echo_loop-sends chunks (sends w (b ∷ s)) ∙ sends-sends w (b ∷ s) (flatten chunks))
  | inr full ↦
      rw (write-sends w (b ∷ s), full)
        (sym (sends_after_refusal w (b ∷ s) (flatten chunks) full)
          ∙ sends-sends w (b ∷ s) (flatten chunks))
]

pub sink_loop_lem :
    (chunks : List Bytes) (count : ℕ)
    → count < 2 ^ 64
    → sink_loop chunks count ≡ (count + length (flatten chunks)) % 2 ^ 64
unfolding sink_loop flatten
sink_loop_lem [] count small = omega arith
sink_loop_lem (chunk ∷ chunks) count small = omega (
  arith,
  sink_loop_lem chunks ((count + length chunk) % 2 ^ 64) (omega arith),
  length-append chunk (flatten chunks),
)

-- How often the clock is before the deadline, until it is not.
pub rounds : ℕ → List ℕ → ℕ
rounds deadline [] = 0
rounds deadline (now ∷ clock) =
    let rest = rounds deadline clock in if ltb now deadline then suc rest else 0

unfoldable pub repeated : ℕ → Bytes → Bytes
repeated zero buf = []
repeated (suc n) buf = buf ++ repeated n buf

upload_loop-sends :
    (deadline : ℕ) (clock : List ℕ) (buf : Bytes) (w : Writer)
    → upload_loop deadline clock buf w ≡ sends w (repeated (rounds deadline clock) buf)
unfolding upload_loop rounds repeated
upload_loop-sends deadline [] buf w = sym (sends-nil w)
upload_loop-sends deadline (now ∷ clock) buf w = elim (Bool-cases (ltb now deadline)) [
  | inr late ↦ rw late (sym (sends-nil w))
  | inl early ↦ elim (Bool-cases (fits w.room buf)) [
    | inl room ↦
        rw (early, write-sends w buf, room)
          (upload_loop-sends deadline clock buf (sends w buf)
            ∙ sends-sends w buf (repeated (rounds deadline clock) buf))
    | inr full ↦
        rw (early, write-sends w buf, full)
          (sym (sends_after_refusal w buf (repeated (rounds deadline clock) buf) full)
            ∙ sends-sends w buf (repeated (rounds deadline clock) buf))
  ]
]

-- However the reads split the bytes, they are the bytes.
abbrev pub IsCutting : (Bytes → List Bytes) → Type 0
IsCutting cut = (s : Bytes) → flatten (cut s) ≡ s

abbrev pub incoming : IoError → ℕ → Bytes → Reader
incoming e mode s = record { rest = mode ∷ s; fault = e }

serve_bench-mode :
    (cut : Bytes → List Bytes) (clock : List ℕ) (buf : Bytes) (e : IoError) (mode : ℕ) (s : Bytes)
    (w : Writer)
    → serve_bench cut clock buf (incoming e mode s) w
      ≡ serve_mode cut clock buf mode (record { rest = s; fault = e }) w
unfolding serve_bench
serve_bench-mode cut clock buf e mode s w =
    ap (λ r. serve_header cut clock buf r w) (read_full_append 1 (mode ∷ []) s e refl)

sunk :
    (cut : Bytes → List Bytes) (s : Bytes) (w : Writer)
    → IsCutting cut
    → (write w (put_uint 8 (sink_loop (cut s) 0))).0 ≡ sends w (put_uint 8 (length s % 2 ^ 64))
sunk cut s w cutting =
    let n = length (flatten (cut s)) in
    ap (λ o. o.0) (write-sends w (put_uint 8 (sink_loop (cut s) 0)))
    ∙ ap (λ k. sends w (put_uint 8 k))
        (sink_loop_lem (cut s) 0 (omega arith)
          ∙ ap (λ k. k % 2 ^ 64) (zero-add n ∙ ap length (cutting s)))

uploaded :
    (now : ℕ) (clock : List ℕ) (buf : Bytes) (e : IoError) (s : Bytes) (w : Writer) (dur_ms : ℕ)
    → dur_ms < 2 ^ 32
    → upload_from
        (now ∷ clock)
        buf
        (read_full 4 (record { rest = put_uint 4 dur_ms ++ s; fault = e }))
        w
      ≡ sends w (repeated (rounds (now + dur_ms * millisecond) clock) buf)
uploaded now clock buf e s w dur_ms fit =
    ap (λ r. upload_from (now ∷ clock) buf r w)
      (read_full_append 4 (put_uint 4 dur_ms) s e (length-put_uint 4 dur_ms))
    ∙ ap (λ d. upload_loop (now + d * millisecond) clock buf w)
        (get_uint-put_uint 4 dur_ms (omega arith))
    ∙ upload_loop-sends (now + dur_ms * millisecond) clock buf w

-- What the server sends in each mode, as far as the connection takes it: on a ping, every byte that
-- comes in, however the reads split them; as a sink, the number of the bytes in eight bytes; on an
-- upload, its buffer once for each time that the clock is before the deadline; on a hello, one byte.
pub serve_bench_lem :
    (cut : Bytes → List Bytes) (now : ℕ) (clock : List ℕ) (buf : Bytes) (e : IoError) (w : Writer)
    (s : Bytes) (dur_ms : ℕ)
    → IsCutting cut
    → dur_ms < 2 ^ 32
    → (serve_bench cut (now ∷ clock) buf (incoming e mode_ping s) w ≡ sends w s)
      × (serve_bench cut (now ∷ clock) buf (incoming e mode_sink s) w
          ≡ sends w (put_uint 8 (length s % 2 ^ 64)))
      × (serve_bench cut (now ∷ clock) buf (incoming e mode_upload (put_uint 4 dur_ms ++ s)) w
          ≡ sends w (repeated (rounds (now + dur_ms * millisecond) clock) buf))
      × (serve_bench cut (now ∷ clock) buf (incoming e mode_hello s) w ≡ sends w (mode_hello ∷ []))
unfolding serve_mode
serve_bench_lem cut now clock buf e w s dur_ms cutting fit =
    let served = λ (mode : ℕ). λ (t : Bytes). serve_bench-mode cut (now ∷ clock) buf e mode t w in
    (
      served mode_ping s ∙ echo_loop-sends (cut s) w ∙ ap (sends w) (cutting s),
      served mode_sink s ∙ sunk cut s w cutting,
      served mode_upload (put_uint 4 dur_ms ++ s) ∙ uploaded now clock buf e s w dur_ms fit,
      served mode_hello s ∙ ap (λ o. o.0) (write-sends w (mode_hello ∷ [])),
    )
