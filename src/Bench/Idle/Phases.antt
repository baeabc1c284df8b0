-- ===== src/Bench/Idle/Phases.antt =====
-- One phase of `doIdle` (cmd/nl-punch-bench/main.go) on a connection that echoes.
use nl_punch.Prelude.{
  ℕ, ◌+◌, [], ◌∷◌, ◌++◌, List, map, append_assoc, append-nil, All, Bytes, nat_eq, string_eq, Bool,
  true, false, none, length, ◌≡◌, refl, sym, ap, ◌∙◌, arith,
}
use nl_punch.Stream.{IoError, ok}
use nl_punch.Bench.{Tick, ping_payload, LatencyRun}
use nl_punch.Bench.Latency.{payloads, pings, ran, ran-cons, ping_once-ran}
use nl_punch.Bench.Idle.{Beat, Wake, one_beat, over, beat_loop}

abbrev pub ticks_of : List Wake → List Tick
ticks_of = map (λ w. w.beat.tick)

-- A round before the end of its phase.
abbrev pub IsBeat : (ℕ → Bool) → Wake → Type 0
IsBeat stops w = (stops w.elapsed ≡ false) × (w.beat.deadline ≡ none)

pub pings-append :
    (i : ℕ) (xs ys : List Tick) → pings i (xs ++ ys) ≡ pings i xs ++ pings (i + length xs) ys
pings-append i [] ys = ap (λ j. pings j ys) (omega arith)
pings-append i (x ∷ xs) ys =
    ap (λ s. ping_payload i x.stamp ++ s)
      (pings-append (i + 1) xs ys ∙ ap (λ j. pings (i + 1) xs ++ pings j ys) (omega arith))
    ∙ sym (append_assoc (ping_payload i x.stamp) (pings (i + 1) xs) _)

pub payloads-append :
    (i : ℕ) (xs ys : List Tick)
    → payloads i (xs ++ ys) ≡ payloads i xs ++ payloads (i + length xs) ys
payloads-append i [] ys = ap (λ j. payloads j ys) (omega arith)
payloads-append i (x ∷ xs) ys =
    ap (λ s. ping_payload i x.stamp ∷ s)
      (payloads-append (i + 1) xs ys ∙ ap (λ j. payloads (i + 1) xs ++ payloads j ys) (omega arith))

pub one_beat-ran :
    (b : Beat) (seq : ℕ) (run : LatencyRun) (rest : Bytes) (e : IoError)
    → b.deadline ≡ none
    → run.out.room ≡ none
    → run.inbound ≡ record { rest = ping_payload seq b.tick.stamp ++ rest; fault = e }
    → one_beat b seq run ≡ ok (ran seq (b.tick ∷ []) rest e run)
one_beat-ran b seq run rest e set free comes =
    rw set (ping_once-ran seq b.tick run rest e free comes)

pub beat_loop-ran :
    (stops : ℕ → Bool) (seq : ℕ) (beats : List Wake) (last : Wake) (later : List Wake)
    (run : LatencyRun) (more : Bytes) (e : IoError)
    → All (IsBeat stops) beats
    → stops last.elapsed ≡ true
    → run.out.room ≡ none
    → run.inbound ≡ record { rest = pings (seq + 1) (ticks_of beats) ++ more; fault = e }
    → beat_loop stops seq (beats ++ last ∷ later) run
      ≡ over (ran (seq + 1) (ticks_of beats) more e run) (seq + length beats)
unfolding beat_loop
beat_loop-ran stops seq [] last later run more e h stop free comes =
    rw (stop, append-nil run.out.written, append-nil run.echoes, append-nil run.rtts, ← comes)
      (ap (over run) (omega arith))
beat_loop-ran stops seq (w ∷ beats) last later run more e ((early, set), h) stop free comes =
    let t = w.beat.tick in
    let rest = pings (seq + 1 + 1) (ticks_of beats) ++ more in
    let once = one_beat-ran w.beat (seq + 1) run rest e set free (
      comes
      ∙ ap (λ s. record { rest = s; fault = e })
          (append_assoc (ping_payload (seq + 1) t.stamp) _ more)) in
    let count : seq + 1 + length beats ≡ seq + length (w ∷ beats) = omega arith in
    rw (early, beat_loop, once)
      (beat_loop-ran stops (seq + 1) beats last later (ran (seq + 1) (t ∷ []) rest e run) more e h
          stop free refl
        ∙ ap (λ r. over r (seq + 1 + length beats))
            (ran-cons (seq + 1) t (ticks_of beats) more rest e run)
        ∙ ap (over (ran (seq + 1) (w.beat.tick ∷ ticks_of beats) more e run)) count)
