-- ===== src/Bench/Idle/Beats.antt =====
-- `doIdle` of cmd/nl-punch-bench/main.go against the server's echo.
use nl_punch.Prelude.{
  ℕ, ◌+◌, [], ◌∷◌, ◌++◌, List, append_assoc, append-nil, All, Bytes, nat_eq, string_eq, true, none,
  some, length, length-map, ◌≡◌, refl, sym, ap, ◌∙◌, arith,
}
use nl_punch.Stream.{IoError, ok, Writer, write_unbroken, sends_unbroken}
use nl_punch.Bench.{mode_ping, Tick, ping_payload, LatencyRun, serve_bench}
use nl_punch.Bench.Server.{IsCutting, incoming, serve_bench_lem}
use nl_punch.Bench.Latency.{payloads, pings, rtts_of, ran, ran-cons}
use nl_punch.Bench.Idle.{
  Beat, Wake, one_beat, over, is_idle_over, is_burst_over, emit_summary, burst_end, idle_end,
  after_opening, after_idle_mode, do_idle,
}
use nl_punch.Bench.Idle.Phases.{
  IsBeat, beat_loop-ran, one_beat-ran, payloads-append, pings-append, ticks_of,
}

module _ (opening : Beat) (beats bursts : List Wake) where
  -- All the beats, in order.
  abbrev pub beaten : List Tick
  beaten = (opening.tick ∷ ticks_of beats) ++ ticks_of bursts

  -- The number of the first beat of the burst.
  abbrev first : ℕ
  first = 0 + length beats + 1

  first_lem : 0 + length (opening.tick ∷ ticks_of beats) ≡ first
  first_lem = omega (arith, length-map (λ (w : Wake). w.beat.tick) beats)

  pings-beaten :
      pings 0 beaten ≡ pings 0 (opening.tick ∷ ticks_of beats) ++ pings first (ticks_of bursts)
  pings-beaten =
      let head = opening.tick ∷ ticks_of beats in
      pings-append 0 head (ticks_of bursts)
      ∙ ap (λ j. pings 0 head ++ pings j (ticks_of bursts)) first_lem

  payloads-beaten :
      payloads 0 beaten
      ≡ payloads 0 (opening.tick ∷ ticks_of beats) ++ payloads first (ticks_of bursts)
  payloads-beaten =
      let head = opening.tick ∷ ticks_of beats in
      payloads-append 0 head (ticks_of bursts)
      ∙ ap (λ j. payloads 0 head ++ payloads j (ticks_of bursts)) first_lem

  module _ (fault : IoError) (w : Writer) where
    abbrev opened : LatencyRun
    opened = record {
      out = w;
      inbound = record { rest = pings 0 beaten; fault = fault };
      rtts = [];
      echoes = [];
    }

    abbrev pub finished : LatencyRun
    finished = record {
      out = record w { written = w.written ++ pings 0 beaten };
      inbound = record { rest = []; fault = fault };
      rtts = rtts_of (ticks_of bursts);
      echoes = payloads 0 beaten;
    }

    -- The run at the start of the burst.
    abbrev idled : LatencyRun
    idled = ran 0 (opening.tick ∷ ticks_of beats) (pings first (ticks_of bursts)) fault opened

    finished_lem : ran first (ticks_of bursts) [] fault (record idled { rtts = [] }) ≡ finished
    finished_lem =
        rw
          (
            append_assoc w.written (pings 0 (opening.tick ∷ ticks_of beats))
                (pings first (ticks_of bursts)),
            ← pings-beaten,
            ← payloads-beaten,
          )
          refl

  module _ (sort : List ℕ → List ℕ) (scaled : ℕ → ℕ → ℕ) (idle_dur burst_dur : ℕ) (last stop : Wake)
      (later more : List Wake) (set : opening.deadline ≡ none)
      (idle : All (IsBeat (is_idle_over idle_dur)) beats)
      (burst : All (IsBeat (is_burst_over burst_dur)) bursts)
      (late : is_idle_over idle_dur last.elapsed ≡ true)
      (done : is_burst_over burst_dur stop.elapsed ≡ true) where
    -- From the opening beat on.
    after_opening_lem :
        (fault : IoError) (w : Writer)
        → w.room ≡ none
        → after_opening sort scaled idle_dur burst_dur
            (beats ++ last ∷ later)
            (bursts ++ stop ∷ more)
            (opened fault w)
            (one_beat opening 0 (opened fault w))
          ≡ some (
            emit_summary sort scaled
                (rtts_of (opening.tick ∷ ticks_of beats))
                (rtts_of (ticks_of bursts))
                none,
            finished fault w,
          )
    after_opening_lem fault w free =
        let run = opened fault w in
        let t = opening.tick in
        let tail = pings first (ticks_of bursts) in
        let rest = pings 1 (ticks_of beats) ++ tail in
        let once = one_beat-ran opening 0 run rest fault set free (
          ap (λ s. record { rest = s; fault = fault })
            (pings-beaten
              ∙ append_assoc (ping_payload 0 t.stamp) (pings 1 (ticks_of beats)) tail)) in
        let idles =
          beat_loop-ran (is_idle_over idle_dur) 0 beats last later (ran 0 (t ∷ []) rest fault run)
            tail fault idle late free refl in
        let bursting =
          beat_loop-ran (is_burst_over burst_dur) (0 + length beats) bursts stop more
            (record (idled fault w) { rtts = [] }) [] fault burst done free
            (ap (λ s. record { rest = s; fault = fault }) (sym (append-nil tail))) in
        ap
          (after_opening sort scaled idle_dur burst_dur (beats ++ last ∷ later)
            (bursts ++ stop ∷ more) run)
          once
        ∙ ap (idle_end sort scaled burst_dur (bursts ++ stop ∷ more)) idles
        ∙ ap
            (λ r.
              idle_end sort scaled burst_dur (bursts ++ stop ∷ more) (over r (0 + length beats)))
            (ran-cons 0 t (ticks_of beats) tail rest fault run)
        ∙ ap (burst_end sort scaled (idled fault w).rtts) bursting
        ∙ ap (λ r. some (emit_summary sort scaled (idled fault w).rtts r.rtts none, r))
            (finished_lem fault w)

    -- Over connections that do not break, the idle test against the bench server comes to its end: its
    -- summary has a sample for the opening beat and for each heartbeat before the idle time is over, one
    -- for each beat of the burst before its time is over, and no error; every beat, by one number more
    -- than the one before, has come back as it was sent. No deadline fails to be set, and there is a
    -- tick after the idle time and a reading of the clock after the burst.
    pub do_idle-serve_bench :
        (cut : Bytes → List Bytes) (start : ℕ) (server_clock : List ℕ) (buf : Bytes)
        (e fault : IoError) (w server : Writer)
        → IsCutting cut
        → w.room ≡ none
        → server.room ≡ none
        → server.written ≡ []
        → let comes = incoming e mode_ping (pings 0 beaten) in
          let echoed = (serve_bench cut (start ∷ server_clock) buf comes server).written in
          do_idle sort scaled idle_dur burst_dur opening
            (beats ++ last ∷ later)
            (bursts ++ stop ∷ more)
            (record { rest = echoed; fault = fault })
            w
          ≡ ok (
              some (
                emit_summary sort scaled
                    (rtts_of (opening.tick ∷ ticks_of beats))
                    (rtts_of (ticks_of bursts))
                    none,
                finished fault (record w { written = w.written ++ mode_ping ∷ [] }),
              ))
    unfolding do_idle
    do_idle-serve_bench cut start server_clock buf e fault w server cutting free free' fresh =
        let (echo, _, _, _) =
          serve_bench_lem cut start server_clock buf e server (pings 0 beaten) 0 cutting
            (omega arith) in
        let echoed =
          ap (λ v. v.written) (echo ∙ sends_unbroken server (pings 0 beaten) free')
          ∙ ap (λ s. s ++ pings 0 beaten) fresh in
        ap
          (after_idle_mode sort scaled idle_dur burst_dur opening (beats ++ last ∷ later)
            (bursts ++ stop ∷ more) _)
          (write_unbroken w (mode_ping ∷ []) free)
        ∙ ap
            (λ s.
              after_idle_mode sort scaled idle_dur burst_dur opening (beats ++ last ∷ later)
                (bursts ++ stop ∷ more) (record { rest = s; fault = fault })
                (record w { written = w.written ++ mode_ping ∷ [] }, none))
            echoed
        ∙ ap ok (after_opening_lem fault (record w { written = w.written ++ mode_ping ∷ [] }) free)
