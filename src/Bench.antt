-- ===== src/Bench.antt =====
-- cmd/nl-punch-bench/main.go: the server's four modes, and the statistics of the client. `cut` is how
-- the `Read` calls split what arrives, and the clock is the list of what `time.Now` gives.
pub mod Server
pub mod Latency
pub mod Throughput
pub mod Quantiles
pub mod FreshStream
pub mod Idle
use nl_punch.Prelude.{
  [], ℕ, ◌+◌, ◌-◌, ◌*◌, ◌%◌, ◌^◌, ◌∷◌, ◌++◌, List, Bytes, nat_eq, ◌==◌, ltb, if◌then◌else◌, length,
  get_elem?, Option, none, some,
}
use nl_punch.Stream.{IoError, Result, ok, err, Reader, Writer, read_full, write, put_uint, get_uint}
use nl_punch.Forward.Header.{byte_at}

abbrev pub mode_ping : ℕ
mode_ping = b'P'

abbrev pub mode_sink : ℕ
mode_sink = b'S'

abbrev pub mode_upload : ℕ
mode_upload = b'U'

abbrev pub mode_hello : ℕ
mode_hello = b'H'

abbrev pub ping_payload_size : ℕ
ping_payload_size = 16

-- The write of one chunk; the loop ends if it fails.
abbrev after_write : Writer × Option IoError → Writer → Writer
after_write (w, none) rest = rest
after_write (w, some e) rest = w

-- Echo loop, over what the reads return.
pub echo_loop : List Bytes → Writer → Writer
echo_loop [] w = w
echo_loop ([] ∷ chunks) w = echo_loop chunks w
echo_loop ((b ∷ s) ∷ chunks) w =
    let (w', e) = write w (b ∷ s) in let rest = echo_loop chunks w' in after_write (w', e) rest

-- count += uint64(n)
pub sink_loop : List Bytes → ℕ → ℕ
sink_loop [] count = count
sink_loop (chunk ∷ chunks) count = sink_loop chunks ((count + length chunk) % 2 ^ 64)

-- for time.Now().Before(deadline) { c.Write(buf) }
pub upload_loop : ℕ → List ℕ → Bytes → Writer → Writer
upload_loop deadline [] buf w = w
upload_loop deadline (now ∷ clock) buf w =
    let (w', e) = write w buf in
    let rest = upload_loop deadline clock buf w' in
    if ltb now deadline then after_write (w', e) rest else w

abbrev pub millisecond : ℕ
millisecond = 1000000

-- The deadline is `dur_ms` milliseconds behind the first reading of the clock.
abbrev pub upload_from : List ℕ → Bytes → Result IoError (Bytes × Reader) → Writer → Writer
upload_from clock buf (err e) w = w
upload_from [] buf (ok (s, r)) w = w
upload_from (now ∷ clock) buf (ok (s, r)) w =
    upload_loop (now + get_uint s * millisecond) clock buf w

pub serve_mode : (Bytes → List Bytes) → List ℕ → Bytes → ℕ → Reader → Writer → Writer
unfolding echo_loop sink_loop upload_loop
serve_mode cut clock buf mode r w =
    if mode == mode_ping
    then echo_loop (cut r.rest) w
    else if mode == mode_sink
    then (write w (put_uint 8 (sink_loop (cut r.rest) 0))).0
    else if mode == mode_upload
    then upload_from clock buf (read_full 4 r) w
    else if mode == mode_hello
    then (write w (mode_hello ∷ [])).0
    else w

-- `serve`
abbrev pub serve_header :
    (Bytes → List Bytes) → List ℕ → Bytes → Result IoError (Bytes × Reader) → Writer → Writer
serve_header cut clock buf (err e) w = w
serve_header cut clock buf (ok (hdr, r)) w = serve_mode cut clock buf (byte_at 0 hdr) r w

pub serve_bench : (Bytes → List Bytes) → List ℕ → Bytes → Reader → Writer → Writer
unfolding serve_mode
serve_bench cut clock buf r w = serve_header cut clock buf (read_full 1 r) w

-- The payload of one ping: its number and the time.
pub ping_payload : ℕ → ℕ → Bytes
ping_payload i now = put_uint 8 i ++ put_uint 8 now

-- What the clock gives in the round of one ping, in nanoseconds: time.Now().UnixNano(), then the
-- monotonic readings of `t0` and of `time.Since`.
pub record Tick : Type 0 where
  pub stamp : ℕ
  pub sent : ℕ
  pub back : ℕ

-- `doLatency` after its dial: the connection to write to and to read from, and the round trip times;
-- `echoes` is a log of what the reads leave in `buf`, and not part of the program.
pub record LatencyRun : Type 0 where
  pub out : Writer
  pub inbound : Reader
  pub rtts : List ℕ
  pub echoes : List Bytes

abbrev pub after_echo :
    Tick → LatencyRun → Writer → Result IoError (Bytes × Reader) → Result IoError LatencyRun
after_echo t run w (err e) = err e
after_echo t run w (ok (s, r)) = ok (record {
  out = w;
  inbound = r;
  rtts = run.rtts ++ (t.back - t.sent) ∷ [];
  echoes = run.echoes ++ s ∷ [];
})

-- A write or a read that fails ends the test with its error.
abbrev pub ping_once : Tick → LatencyRun → Writer × Option IoError → Result IoError LatencyRun
ping_once t run (w, some e) = err e
ping_once t run (w, none) = after_echo t run w (read_full ping_payload_size run.inbound)

pub ping_loop : ℕ → List Tick → LatencyRun → Result IoError LatencyRun
unfolding ping_payload
ping_loop i [] run = ok run
ping_loop i (t ∷ ticks) run = elim (ping_once t run (write run.out (ping_payload i t.stamp))) [
  | err e ↦ err e
  | ok run' ↦ ping_loop (i + 1) ticks run'
]

abbrev pub after_mode : List Tick → Reader → Writer × Option IoError → Result IoError LatencyRun
after_mode ticks r (w, some e) = err e
after_mode ticks r (w, none) =
    ping_loop 0 ticks (record { out = w; inbound = r; rtts = []; echoes = [] })

pub do_latency : List Tick → Reader → Writer → Result IoError LatencyRun
unfolding ping_loop
do_latency ticks r w = after_mode ticks r (write w (mode_ping ∷ []))

-- `stats`, in nanoseconds. A quantile is `none` if its index is out of range, which would be a panic.
pub record Stats : Type 0 where
  pub smallest : Option ℕ
  pub p50 : Option ℕ
  pub p90 : Option ℕ
  pub p95 : Option ℕ
  pub p99 : Option ℕ
  pub largest : Option ℕ
  -- the mean before the division: the sum, as a word of 64 bits, and the number of samples
  pub sum : ℕ
  pub samples : ℕ

pub sum_loop : ℕ → List ℕ → ℕ
sum_loop sum [] = sum
sum_loop sum (d ∷ ds) = sum_loop ((sum + d) % 2 ^ 64) ds

-- q, where `scaled n p` is int(float64(n) * p), with the fraction in percent
abbrev quantile : (ℕ → ℕ → ℕ) → List ℕ → ℕ → Option ℕ
quantile scaled sorted p = get_elem? sorted (scaled (length sorted - 1) p)

-- `sort` is `sort.Slice`.
pub stats : (List ℕ → List ℕ) → (ℕ → ℕ → ℕ) → List ℕ → Option Stats
unfolding sum_loop
stats sort scaled [] = none
stats sort scaled (d ∷ ds) =
    let sorted = sort (d ∷ ds) in
    some (record {
      smallest = get_elem? sorted 0;
      p50 = quantile scaled sorted 50;
      p90 = quantile scaled sorted 90;
      p95 = quantile scaled sorted 95;
      p99 = quantile scaled sorted 99;
      largest = get_elem? sorted (length sorted - 1);
      sum = sum_loop 0 sorted;
      samples = length sorted;
    })
