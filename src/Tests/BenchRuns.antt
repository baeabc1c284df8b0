-- ===== src/Tests/BenchRuns.antt =====
-- Two connections and a refused one, and an idle run with one heartbeat and one beat in its burst.
use nl_punch.Prelude.{ℕ, ◌+◌, [], ◌∷◌, List, All, nat_eq, string_eq, none, some, ◌≡◌, refl}
use nl_punch.Stream.{ok, eof, Reader}
use nl_punch.Bench.{mode_ping, mode_hello, stats, serve_bench}
use nl_punch.Bench.Server.{incoming}
use nl_punch.Bench.Latency.{pings}
use nl_punch.Bench.FreshStream.{refused, connected, Open, do_fresh_stream}
use nl_punch.Bench.FreshStream.Opens.{IsServed, do_fresh_stream-serve_bench}
use nl_punch.Bench.Idle.{Beat, Wake, is_idle_over, is_burst_over, emit_summary, do_idle}
use nl_punch.Bench.Idle.Beats.{beaten, finished, do_idle-serve_bench}
use nl_punch.Bench.Idle.Phases.{IsBeat}
use nl_punch.Tests.Bench.{cut, cut-IsCutting, unbroken}

abbrev unsorted : List ℕ → List ℕ
unsorted ds = ds

abbrev middle : ℕ → ℕ → ℕ
middle n p = n

abbrev served : Reader
served = record {
  rest = (serve_bench cut (0 ∷ []) [] (incoming eof mode_hello []) unbroken).written;
  fault = eof;
}

abbrev opens : List Open
opens =
    record { dial = connected unbroken served; sent = 2; back = 5 }
    ∷ record { dial = refused; sent = 6; back = 6 }
    ∷ record { dial = connected unbroken served; sent = 7; back = 8 }
    ∷ []

opens-IsServed : All (λ o. IsServed cut cut-IsCutting 0 [] [] o.dial) opens
opens-IsServed = ((refl, (eof, refl)), (tt, ((refl, (eof, refl)), tt)))

do_fresh_stream-serve_bench_example :
    (do_fresh_stream unsorted middle opens
      ≡ record { rtt_ms = stats unsorted middle (3 ∷ 1 ∷ []); errors = 1; samples = 2 })
    × ((do_fresh_stream unsorted middle opens).errors
          + (do_fresh_stream unsorted middle opens).samples
        ≡ 3)
do_fresh_stream-serve_bench_example =
    do_fresh_stream-serve_bench cut cut-IsCutting 0 [] [] unsorted middle opens opens-IsServed

abbrev beat : ℕ → Beat
beat n = record { deadline = none; tick = record { stamp = n; sent = n; back = n + 2 } }

abbrev wake : ℕ → Wake
wake n = record { elapsed = n; beat = beat n }

early : All (IsBeat (is_idle_over 300)) (wake 10 ∷ [])
early = ((refl, refl), tt)

bursting : All (IsBeat (is_burst_over 10)) (wake 3 ∷ [])
bursting = ((refl, refl), tt)

do_idle-serve_bench_example :
    do_idle unsorted middle 300 10
      (beat 1)
      (wake 10 ∷ wake 300 ∷ [])
      (wake 3 ∷ wake 10 ∷ [])
      (record {
        rest =
            (serve_bench cut
              (0 ∷ [])
              []
              (incoming eof mode_ping (pings 0 (beaten (beat 1) (wake 10 ∷ []) (wake 3 ∷ []))))
              unbroken).written;
        fault = eof;
      })
      unbroken
    ≡ ok (
        some (
          emit_summary unsorted middle (2 ∷ 2 ∷ []) (2 ∷ []) none,
          finished
              (beat 1)
              (wake 10 ∷ [])
              (wake 3 ∷ [])
              eof
              (record { written = mode_ping ∷ []; room = none }),
        ))
do_idle-serve_bench_example =
    do_idle-serve_bench (beat 1) (wake 10 ∷ []) (wake 3 ∷ []) unsorted middle 300 10 (wake 300)
      (wake 10) [] [] refl early bursting refl refl cut 0 [] [] eof eof unbroken unbroken
      cut-IsCutting refl refl refl
