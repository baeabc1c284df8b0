-- ===== src/Tests/Bench.antt =====
-- Two pings, an upload, and the statistics of two samples.
use mathlib.Core.List.{flatten}
use mathlib.Core.List.Perm
use native.Mathlib.Nat.{mul-le-mul_left}
use nl_punch.Prelude.{
  true, ℕ, zero, suc, ◌+◌, ◌*◌, ◌/◌, ◌%◌, ◌^◌, ◌≤◌, [], ◌∷◌, ◌++◌, List, append-nil, Bytes, nat_eq,
  string_eq, get_elem?, none, some, some-injective, ◌≡◌, refl, arith,
}
use nl_punch.Stream.{ok, eof, Writer, put_uint, sends}
use nl_punch.Bench.{
  Tick, mode_ping, mode_sink, mode_upload, serve_bench, do_latency, Stats, stats, millisecond,
}
use nl_punch.Bench.Server.{IsCutting, incoming, rounds}
use nl_punch.Bench.Throughput.{result, Ending, up_kind, do_throughput_up, do_throughput_down}
use nl_punch.Bench.Throughput.Counts.{do_throughput_up-serve_bench, do_throughput_down-serve_bench}
use nl_punch.Bench.Latency.{payloads, pings, do_latency-serve_bench}
use nl_punch.Bench.Quantiles.{IsSorting, IsScaling, IsSummary, stats-IsSummary}

abbrev pub cut : Bytes → List Bytes
cut s = s ∷ []

pub cut-IsCutting : IsCutting cut
unfolding flatten
cut-IsCutting s = append-nil s

abbrev pub unbroken : Writer
unbroken = record { written = []; room = none }

abbrev ticks : List Tick
ticks = record { stamp = 5; sent = 1; back = 4 } ∷ record { stamp = 9; sent = 6; back = 8 } ∷ []

do_latency-serve_bench_example :
    do_latency ticks
      (record {
        rest =
            (serve_bench cut (0 ∷ []) [] (incoming eof mode_ping (pings 0 ticks)) unbroken).written;
        fault = eof;
      })
      unbroken
    ≡ ok (record {
      out = record unbroken { written = ([] ++ mode_ping ∷ []) ++ pings 0 ticks };
      inbound = record { rest = []; fault = eof };
      rtts = 3 ∷ 2 ∷ [];
      echoes = payloads 0 ticks;
    })
do_latency-serve_bench_example =
    do_latency-serve_bench cut 0 [] ticks [] eof eof unbroken unbroken cut-IsCutting refl refl refl

abbrev sort : List ℕ → List ℕ
sort samples = 10 ∷ 20 ∷ []

sort_ascends :
    (i j : ℕ) {a b : ℕ}
    → i ≤ j
    → get_elem? (10 ∷ 20 ∷ []) i ≡ some a
    → get_elem? (10 ∷ 20 ∷ []) j ≡ some b
    → a ≤ b
sort_ascends zero zero le e f = omega (arith, some-injective _ _ e, some-injective _ _ f)
sort_ascends zero (suc zero) le e f = omega (arith, some-injective _ _ e, some-injective _ _ f)
sort_ascends zero (suc (suc j)) le e f = cc f
sort_ascends (suc i) zero le e f = omega (arith, le)
sort_ascends (suc zero) (suc zero) le e f =
    omega (arith, some-injective _ _ e, some-injective _ _ f)
sort_ascends (suc zero) (suc (suc j)) le e f = cc f
sort_ascends (suc (suc i)) (suc j) le e f = cc e

sort-IsSorting : IsSorting (sort (20 ∷ 10 ∷ [])) (20 ∷ 10 ∷ [])
sort-IsSorting = record { same = Perm.swap _ _ _; ascending = sort_ascends }

abbrev percent : ℕ → ℕ → ℕ
percent n p = n * p / 100

percent-IsScaling : IsScaling percent
percent-IsScaling = record {
  grows = λ n p q h. omega (arith, mul-le-mul_left n h);
  within = λ n p h. omega (arith, mul-le-mul_left n h);
}

stats-IsSummary_example :
    (st : Stats) × (stats sort percent (20 ∷ 10 ∷ []) ≡ some st) × IsSummary (20 ∷ 10 ∷ []) st
stats-IsSummary_example = stats-IsSummary sort percent 20 (10 ∷ []) sort-IsSorting percent-IsScaling

do_throughput_down-serve_bench_example :
    do_throughput_down cut 2 unbroken (record {
      rest =
          (serve_bench cut
            (1000000 ∷ 1500000 ∷ 2500000 ∷ 3000000 ∷ [])
            (7 ∷ 8 ∷ [])
            (incoming eof mode_upload (put_uint 4 2 ++ []))
            unbroken).written;
      fault = eof;
    })
    ≡ ok (
      record unbroken { written = mode_upload ∷ put_uint 4 2 },
      record {
        kind = result;
        bytes =
            (rounds (1000000 + 2 * millisecond) (1500000 ∷ 2500000 ∷ 3000000 ∷ []) * 2) % 2 ^ 64;
      },
    )
do_throughput_down-serve_bench_example =
    do_throughput_down-serve_bench cut cut 1000000 (1500000 ∷ 2500000 ∷ 3000000 ∷ []) (7 ∷ 8 ∷ [])
      eof unbroken unbroken 2 cut-IsCutting cut-IsCutting (omega arith) refl refl refl refl

abbrev timed_out : Ending
timed_out = record { timeout = true; elapsed = 9; dur = 9 }

do_throughput_up-serve_bench_example :
    (p : Bytes) × (w : Writer) × (do_throughput_up timed_out 4
        (7 ∷ 8 ∷ [])
        (record { written = []; room = some 4 })
      ≡ ok (some (record { kind = up_kind timed_out; bytes_sent = 3; out = w })))
    × (w.written ≡ mode_sink ∷ p)
    × (serve_bench cut (0 ∷ []) (7 ∷ 8 ∷ []) (incoming eof mode_sink p) unbroken
        ≡ sends unbroken (put_uint 8 3))
do_throughput_up-serve_bench_example =
    do_throughput_up-serve_bench cut 0 [] (7 ∷ 8 ∷ []) eof timed_out 3 unbroken cut-IsCutting
      (omega arith)
