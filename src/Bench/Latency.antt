-- ===== src/Bench/Latency.antt =====
-- `doLatency` of cmd/nl-punch-bench/main.go against the server's echo.
use nl_punch.Prelude.{
  ℕ, ◌-◌, map, ◌+◌, [], ◌∷◌, ◌++◌, List, append_assoc, append-nil, Bytes, nat_eq, string_eq, length,
  length-append, none, ◌≡◌, refl, sym, ap, ◌∙◌, arith,
}
use nl_punch.Stream.{
  IoError, ok, Writer, read_full, write, put_uint, read_full_append, write_unbroken,
  length-put_uint, sends_unbroken,
}
use nl_punch.Bench.{
  mode_ping, Tick, ping_payload, ping_payload_size, LatencyRun, ping_once, ping_loop, after_echo,
  after_mode, do_latency, serve_bench,
}
use nl_punch.Bench.Server.{IsCutting, incoming, serve_bench_lem}

-- The payloads of the pings, the bytes that they make, and their round trip times.
abbrev pub payloads : ℕ → List Tick → List Bytes
payloads i [] = []
payloads i (t ∷ ticks) = ping_payload i t.stamp ∷ payloads (i + 1) ticks

abbrev pub pings : ℕ → List Tick → Bytes
pings i [] = []
pings i (t ∷ ticks) = ping_payload i t.stamp ++ pings (i + 1) ticks

abbrev pub rtts_of : List Tick → List ℕ
rtts_of = map (λ t. t.back - t.sent)

length-ping_payload : (i now : ℕ) → length (ping_payload i now) ≡ ping_payload_size
unfolding ping_payload
length-ping_payload i now = omega (
  arith,
  length-append (put_uint 8 i) (put_uint 8 now),
  length-put_uint 8 i,
  length-put_uint 8 now,
)

-- What the pings from `i` on add to a run.
abbrev pub ran : ℕ → List Tick → Bytes → IoError → LatencyRun → LatencyRun
ran i ticks more e run = record {
  out = record run.out { written = run.out.written ++ pings i ticks };
  inbound = record { rest = more; fault = e };
  rtts = run.rtts ++ rtts_of ticks;
  echoes = run.echoes ++ payloads i ticks;
}

-- One ping, then the rest.
pub ran-cons :
    (i : ℕ) (t : Tick) (ticks : List Tick) (more rest : Bytes) (e : IoError) (run : LatencyRun)
    → ran (i + 1) ticks more e (ran i (t ∷ []) rest e run) ≡ ran i (t ∷ ticks) more e run
ran-cons i t ticks more rest e run =
    let p = ping_payload i t.stamp in
    rw
      (
        append-nil p,
        append_assoc run.out.written p (pings (i + 1) ticks),
        append_assoc run.rtts ((t.back - t.sent) ∷ []) (rtts_of ticks),
        append_assoc run.echoes (p ∷ []) (payloads (i + 1) ticks),
      )
      refl

pub ping_once-ran :
    (i : ℕ) (t : Tick) (run : LatencyRun) (rest : Bytes) (e : IoError)
    → run.out.room ≡ none
    → run.inbound ≡ record { rest = ping_payload i t.stamp ++ rest; fault = e }
    → ping_once t run (write run.out (ping_payload i t.stamp)) ≡ ok (ran i (t ∷ []) rest e run)
ping_once-ran i t run rest e free comes =
    let p = ping_payload i t.stamp in
    let w = record run.out { written = run.out.written ++ p } in
    ap (ping_once t run) (write_unbroken run.out p free)
    ∙ ap (λ r. after_echo t run w (read_full ping_payload_size r)) comes
    ∙ ap (after_echo t run w)
        (read_full_append ping_payload_size p rest e (length-ping_payload i t.stamp))
    ∙ rw (append-nil p) refl

ping_loop-ran :
    (i : ℕ) (ticks : List Tick) (run : LatencyRun) (more : Bytes) (e : IoError)
    → run.out.room ≡ none
    → run.inbound ≡ record { rest = pings i ticks ++ more; fault = e }
    → ping_loop i ticks run ≡ ok (ran i ticks more e run)
unfolding ping_loop
ping_loop-ran i [] run more e free comes =
    rw (append-nil run.out.written, append-nil run.echoes, append-nil run.rtts, ← comes) refl
ping_loop-ran i (t ∷ ticks) run more e free comes =
    let p = ping_payload i t.stamp in
    let rest = pings (i + 1) ticks ++ more in
    let once = ping_once-ran i t run rest e free (
      comes
      ∙ ap (λ s. record { rest = s; fault = e }) (append_assoc p (pings (i + 1) ticks) more)) in
    rw (ping_loop, once)
      (ping_loop-ran (i + 1) ticks (ran i (t ∷ []) rest e run) more e free refl
        ∙ ap ok (ran-cons i t ticks more rest e run))

-- Over connections that do not break, the latency test against the bench server ends well, with one
-- round trip time and one echo for each ping, and each echo is the payload that was sent: however
-- the server's reads split the bytes, and for any readings of the clocks.
pub do_latency-serve_bench :
    (cut : Bytes → List Bytes) (start : ℕ) (server_clock : List ℕ) (ticks : List Tick) (buf : Bytes)
    (e fault : IoError) (w server : Writer)
    → IsCutting cut
    → w.room ≡ none
    → server.room ≡ none
    → server.written ≡ []
    → let comes = incoming e mode_ping (pings 0 ticks) in
      let echoed = (serve_bench cut (start ∷ server_clock) buf comes server).written in
      do_latency ticks (record { rest = echoed; fault = fault }) w
      ≡ ok (record {
        out = record w { written = (w.written ++ mode_ping ∷ []) ++ pings 0 ticks };
        inbound = record { rest = []; fault = fault };
        rtts = rtts_of ticks;
        echoes = payloads 0 ticks;
      })
unfolding do_latency
do_latency-serve_bench cut start server_clock ticks buf e fault w server cutting free free' fresh =
    let (echo, _, _, _) =
      serve_bench_lem cut start server_clock buf e server (pings 0 ticks) 0 cutting (omega arith) in
    let comes = incoming e mode_ping (pings 0 ticks) in
    let echoed : (serve_bench cut (start ∷ server_clock) buf comes server).written
        ≡ pings 0 ticks ++ [] =
      ap (λ v. v.written) (echo ∙ sends_unbroken server (pings 0 ticks) free')
      ∙ ap (λ s. s ++ pings 0 ticks) fresh
      ∙ sym (append-nil (pings 0 ticks)) in
    ap (after_mode ticks _) (write_unbroken w (mode_ping ∷ []) free)
    ∙ ping_loop-ran 0 ticks _ [] fault free (ap (λ s. record { rest = s; fault = fault }) echoed)
