-- ===== src/Bench/Throughput/Counts.antt =====
-- What the throughput tests of cmd/nl-punch-bench/main.go count, against the server.
use native.Mathlib.Nat.{zero-add}
use nl_punch.Prelude.{
  ℕ, zero, suc, ◌+◌, ◌-◌, ◌*◌, ◌%◌, ◌^◌, ◌<◌, [], ◌∷◌, ◌++◌, List, append_assoc, Bytes, nat_eq,
  string_eq, leb, leb→le, true, false, length, take, length-append, length-take, none, some, ◌≡◌,
  refl, ap, ◌∙◌, arith, Bool-cases, inl, inr,
}
use nl_punch.Stream.{
  IoError, eof, broken, ok, Reader, Writer, write, put_uint, sends, write_unbroken, sends_unbroken,
}
use nl_punch.Bench.{mode_sink, mode_upload, sink_loop, serve_bench, millisecond}
use nl_punch.Bench.Server.{IsCutting, incoming, rounds, repeated, sink_loop_lem, serve_bench_lem}
use nl_punch.Bench.Throughput.{
  result, Ending, after_duration, after_sink_mode, after_upload_mode, do_throughput_down,
  do_throughput_up, download, up_kind, up_loop, up_next, upload,
}

length-repeated : (n : ℕ) (buf : Bytes) → length (repeated n buf) ≡ n * length buf
unfolding repeated
length-repeated zero buf = omega arith
length-repeated (suc n) buf =
    omega (arith, length-append buf (repeated n buf), length-repeated n buf)

-- The throughput test downwards, against the bench server: the client asks for the upload, and
-- counts the server's buffer once for each time that the server's clock was before the deadline.
-- The connections do not break, and the client's reads end with the end of the stream.
pub do_throughput_down-serve_bench :
    (cut server_cut : Bytes → List Bytes) (now : ℕ) (clock : List ℕ) (buf : Bytes) (e : IoError)
    (w server : Writer) (dur_ms : ℕ)
    → IsCutting cut
    → IsCutting server_cut
    → dur_ms < 2 ^ 32
    → w.room ≡ none
    → w.written ≡ []
    → server.room ≡ none
    → server.written ≡ []
    → let comes = incoming e mode_upload (put_uint 4 dur_ms ++ []) in
      let sent = (serve_bench server_cut (now ∷ clock) buf comes server).written in
      do_throughput_down cut dur_ms w (record { rest = sent; fault = eof })
      ≡ ok (
        record w { written = mode_upload ∷ put_uint 4 dur_ms },
        record {
          kind = result;
          bytes = (rounds (now + dur_ms * millisecond) clock * length buf) % 2 ^ 64;
        },
      )
unfolding do_throughput_down
do_throughput_down-serve_bench cut server_cut now clock buf e w server dur_ms c sc fit free fresh
      free' fresh' =
    let n = rounds (now + dur_ms * millisecond) clock in
    let (_, _, up, _) = serve_bench_lem server_cut now clock buf e server [] dur_ms sc fit in
    let sent =
      ap (λ v. v.written) (up ∙ sends_unbroken server (repeated n buf) free')
      ∙ ap (λ s. s ++ repeated n buf) fresh' in
    let r : Reader = record { rest = repeated n buf; fault = eof } in
    let w₁ = record w { written = w.written ++ mode_upload ∷ [] } in
    ap (λ s. do_throughput_down cut dur_ms w (record { rest = s; fault = eof })) sent
    ∙ ap (after_upload_mode cut dur_ms r) (write_unbroken w (mode_upload ∷ []) free)
    ∙ ap (after_duration cut r) (write_unbroken w₁ (put_uint 4 (dur_ms % 2 ^ 32)) free)
    ∙ ap (λ k. ok (record w₁ { written = w₁.written ++ put_uint 4 k }, download cut r)) small
    ∙ ap
        (λ s.
          ok (record w { written = (s ++ mode_upload ∷ []) ++ put_uint 4 dur_ms }, download cut r))
        fresh
    ∙ ap
        (λ k. ok (
          record w { written = mode_upload ∷ put_uint 4 dur_ms },
          record { kind = result; bytes = k },
        ))
        (counted n)
  where
    small : dur_ms % 2 ^ 32 ≡ dur_ms
    small = omega (arith, fit)

    counted : (n : ℕ) → sink_loop (cut (repeated n buf)) 0 ≡ (n * length buf) % 2 ^ 64
    counted n =
        sink_loop_lem (cut (repeated n buf)) 0 (omega arith)
        ∙ ap (λ k. k % 2 ^ 64) (zero-add _ ∙ ap length (c (repeated n buf)) ∙ length-repeated n buf)

write_all :
    (k : ℕ) (buf s : Bytes)
    → leb (length buf) k ≡ true
    → write (record { written = s; room = some k }) buf
      ≡ (record { written = s ++ buf; room = some (k - length buf) }, none)
unfolding write
write_all k buf s fit = rw fit refl

write_cut :
    (k : ℕ) (buf s : Bytes)
    → leb (length buf) k ≡ false
    → write (record { written = s; room = some k }) buf
      ≡ (record { written = s ++ take k buf; room = some 0 }, some broken)
unfolding write
write_cut k buf s full = rw full refl

-- Enough fuel is one round for each byte that the connection takes, and one more: the loop ends, and
-- has counted those bytes.
up_loop_lem :
    (fuel k sent : ℕ) (buf s : Bytes)
    → k < fuel
    → 0 < length buf
    → sent < 2 ^ 64
    → (w : Writer) × (up_loop fuel buf sent (record { written = s; room = some k })
        ≡ some ((sent + k) % 2 ^ 64, w))
      × (p : Bytes) × (w.written ≡ s ++ p)
      × (length p ≡ k)
unfolding up_loop
up_loop_lem zero k sent buf s lt pos small = absurd (omega (arith, lt))
up_loop_lem (suc fuel) k sent buf s lt pos small = elim (Bool-cases (leb (length buf) k)) [
  | inl fit ↦
      let le = leb→le _ _ fit in
      let sent' = (sent + (length (s ++ buf) - length s)) % 2 ^ 64 in
      let (w, e, p, out, len) =
        up_loop_lem fuel (k - length buf) sent' buf (s ++ buf) (omega (arith, lt, le, pos)) pos
          (omega arith) in
      let same : (sent' + (k - length buf)) % 2 ^ 64 ≡ (sent + k) % 2 ^ 64 =
        omega (arith, length-append s buf, le) in
      (
        w,
        ap (λ o. up_next sent (record { written = s; room = some k }) o (up_loop fuel buf))
              (write_all k buf s fit)
            ∙ e
            ∙ ap (λ n. some (n, w)) same,
        buf ++ p,
        out ∙ append_assoc s buf p,
        omega (arith, length-append buf p, len, le),
      )
  | inr full ↦
      let gt : k < length buf = ground arith in
      let len : length (take k buf) ≡ k = omega (arith, length-take k buf, gt) in
      let same : (sent + (length (s ++ take k buf) - length s)) % 2 ^ 64 ≡ (sent + k) % 2 ^ 64 =
        omega (arith, length-append s (take k buf), len) in
      (
        _,
        ap (λ o. up_next sent (record { written = s; room = some k }) o (up_loop fuel buf))
              (write_cut k buf s full)
            ∙ (ap (λ n. some (n, record { written = s ++ take k buf; room = some 0 })) same),
        take k buf,
        refl,
        len,
      )
]

-- The throughput test upwards ends when the connection breaks, with the number of the bytes that it
-- took behind the mode; and this is the number that the bench server answers when just these bytes
-- have come in, however its reads split them. The connection takes at least the mode, and the
-- client's buffer is not empty.
pub do_throughput_up-serve_bench :
    (server_cut : Bytes → List Bytes) (now : ℕ) (clock : List ℕ) (buf : Bytes) (e : IoError)
    (x : Ending) (k : ℕ) (server : Writer)
    → IsCutting server_cut
    → 0 < length buf
    → (p : Bytes) × (w : Writer) × (do_throughput_up x
          (suc k)
          buf
          (record { written = []; room = some (suc k) })
        ≡ ok (some (record { kind = up_kind x; bytes_sent = k % 2 ^ 64; out = w })))
      × (w.written ≡ mode_sink ∷ p)
      × (serve_bench server_cut (now ∷ clock) buf (incoming e mode_sink p) server
          ≡ sends server (put_uint 8 (k % 2 ^ 64)))
unfolding do_throughput_up
do_throughput_up-serve_bench server_cut now clock buf e x k server cutting pos =
    let (w, loop, p, out, len) =
      up_loop_lem (suc k) k 0 buf (mode_sink ∷ []) (omega arith) pos (omega arith) in
    let (_, sunk, _, _) =
      serve_bench_lem server_cut now clock buf e server p 0 cutting (omega arith) in
    let began : leb 1 (suc k) ≡ true = ground arith in
    (
      p,
      w,
      ap (after_sink_mode x (suc k) buf) (write_all (suc k) (mode_sink ∷ []) [] began)
          ∙ ap
              (λ r. ok (
                upload x
                  (up_loop (suc k) buf 0 (record { written = mode_sink ∷ []; room = some r }))))
              (omega arith)
          ∙ ap (λ o. ok (upload x o)) (loop ∙ ap (λ n. some (n % 2 ^ 64, w)) (zero-add k)),
      out,
      sunk ∙ ap (λ n. sends server (put_uint 8 (n % 2 ^ 64))) len,
    )
