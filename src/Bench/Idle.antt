-- ===== src/Bench/Idle.antt =====
-- `doIdle` of cmd/nl-punch-bench/main.go behind its dial: heartbeats on one connection, then a burst.
-- The rounds of a loop are what its clock readings give; where they are used up the loop still waits.
pub mod Phases
pub mod Beats
use nl_punch.Prelude.{
  [], ℕ, ◌+◌, ◌∷◌, List, nat_eq, Bool, not, ltb, leb, if◌then◌else◌, length, Option, none, some,
}
use nl_punch.Stream.{IoError, Result, ok, err, Reader, Writer, write}
use nl_punch.Bench.{mode_ping, Tick, ping_payload, LatencyRun, ping_once, Stats, stats}

-- One beat: what `SetDeadline` returns, and the readings of its clock.
pub record Beat : Type 0 where
  pub deadline : Option IoError
  pub tick : Tick

-- A round of the loops: the time since the start of its phase, and its beat.
pub record Wake : Type 0 where
  pub elapsed : ℕ
  pub beat : Beat

-- oneBeat
abbrev pub on_deadline : Tick → ℕ → LatencyRun → Option IoError → Result IoError LatencyRun
on_deadline t seq run (some e) = err e
on_deadline t seq run none = ping_once t run (write run.out (ping_payload seq t.stamp))

abbrev pub one_beat : Beat → ℕ → LatencyRun → Result IoError LatencyRun
one_beat b seq run = on_deadline b.tick seq run b.deadline

-- How a phase ends, with the run so far and the last `seq`.
pub data Phase : Type 0 where
  waiting : Phase
  over : LatencyRun → ℕ → Phase
  broke : IoError → LatencyRun → ℕ → Phase

-- The loop of a phase: `stops` is its test of the time.
unfoldable pub beat_loop : (ℕ → Bool) → ℕ → List Wake → LatencyRun → Phase
beat_loop stops seq [] run = waiting
beat_loop stops seq (w ∷ ws) run =
    if stops w.elapsed then over run seq else (elim (one_beat w.beat (seq + 1) run) [
      | err e ↦ broke e run (seq + 1)
      | ok run' ↦ beat_loop stops (seq + 1) ws run'
    ])

-- The select over the ticker, up to `goto burstPhase`.
abbrev pub is_idle_over : ℕ → ℕ → Bool
is_idle_over idle_dur elapsed = leb idle_dur elapsed

-- for time.Since(burstStart) < burstDur
abbrev pub is_burst_over : ℕ → ℕ → Bool
is_burst_over burst_dur elapsed = not (ltb elapsed burst_dur)

-- `emitSummary`
pub record Summary : Type 0 where
  pub idle_samples : ℕ
  pub burst_samples : ℕ
  pub broken : Option IoError
  pub idle_rtt_ms : Option Stats
  pub burst_rtt_ms : Option Stats

module _ (sort : List ℕ → List ℕ) (scaled : ℕ → ℕ → ℕ) where
  pub emit_summary : List ℕ → List ℕ → Option IoError → Summary
  emit_summary idle burst break_err = record {
    idle_samples = length idle;
    burst_samples = length burst;
    broken = break_err;
    idle_rtt_ms = stats sort scaled idle;
    burst_rtt_ms = stats sort scaled burst;
  }

  -- The summary, and the run at the end with the round trip times of its last phase.
  abbrev pub burst_end : List ℕ → Phase → Option (Summary × LatencyRun)
  burst_end idle waiting = none
  burst_end idle (over run seq) = some (emit_summary idle run.rtts none, run)
  burst_end idle (broke e run seq) = some (emit_summary idle run.rtts (some e), run)

  abbrev pub idle_end : ℕ → List Wake → Phase → Option (Summary × LatencyRun)
  idle_end burst_dur bursts waiting = none
  idle_end burst_dur bursts (broke e run seq) = some (emit_summary run.rtts [] (some e), run)
  idle_end burst_dur bursts (over run seq) =
      burst_end run.rtts (beat_loop (is_burst_over burst_dur) seq bursts (record run { rtts = [] }))

  -- After the opening beat.
  abbrev pub after_opening :
      ℕ
      → ℕ
      → List Wake
      → List Wake
      → LatencyRun
      → Result IoError LatencyRun
      → Option (Summary × LatencyRun)
  after_opening idle_dur burst_dur wakes bursts run (err e) =
      some (emit_summary [] [] (some e), run)
  after_opening idle_dur burst_dur wakes bursts run (ok run') =
      idle_end burst_dur bursts (beat_loop (is_idle_over idle_dur) 0 wakes run')

  abbrev pub after_idle_mode :
      ℕ
      → ℕ
      → Beat
      → List Wake
      → List Wake
      → Reader
      → Writer × Option IoError
      → Result IoError (Option (Summary × LatencyRun))
  after_idle_mode idle_dur burst_dur opening wakes bursts r (w, some e) = err e
  after_idle_mode idle_dur burst_dur opening wakes bursts r (w, none) =
      let run : LatencyRun = record { out = w; inbound = r; rtts = []; echoes = [] } in
      ok (after_opening idle_dur burst_dur wakes bursts run (one_beat opening 0 run))

  pub do_idle :
      ℕ
      → ℕ
      → Beat
      → List Wake
      → List Wake
      → Reader
      → Writer
      → Result IoError (Option (Summary × LatencyRun))
  unfolding beat_loop emit_summary
  do_idle idle_dur burst_dur opening wakes bursts r w =
      after_idle_mode idle_dur burst_dur opening wakes bursts r (write w (mode_ping ∷ []))
