-- ===== src/Bench/FreshStream.antt =====
-- `doFreshStream` of cmd/nl-punch-bench/main.go: one connection after the other, each with one byte in
-- the server's mode 'H'.
pub mod Opens
use nl_punch.Prelude.{[], ℕ, ◌+◌, ◌-◌, ◌∷◌, ◌++◌, List, Bytes, Option, none, some, length}
use nl_punch.Stream.{IoError, Result, ok, err, Reader, Writer, write, read_full}
use nl_punch.Bench.{mode_hello, Stats, stats}

pub data Dial : Type 0 where
  refused : Dial
  connected : Writer → Reader → Dial

-- One round, with the readings of the clock for `t0` and `time.Since`.
pub record Open : Type 0 where
  pub dial : Dial
  pub sent : ℕ
  pub back : ℕ

abbrev on_byte : Open → Result IoError (Bytes × Reader) → Option ℕ
on_byte o (err e) = none
on_byte o (ok (b, r)) = some (o.back - o.sent)

abbrev after_hello : Open → Reader → Writer × Option IoError → Option ℕ
after_hello o r (w, some e) = none
after_hello o r (w, none) = on_byte o (read_full 1 r)

-- The sample of a round, `none` if it ends with an error.
abbrev pub open_once : Open → Dial → Option ℕ
open_once o refused = none
open_once o (connected w r) = after_hello o r (write w (mode_hello ∷ []))

-- The samples, the number of errors, and the rounds of the error events.
pub record Fresh : Type 0 where
  pub opens : List ℕ
  pub errs : ℕ
  pub failed : List ℕ

abbrev pub count_once : ℕ → Fresh → Option ℕ → Fresh
count_once i f none = record f { errs = f.errs + 1; failed = f.failed ++ i ∷ [] }
count_once i f (some rtt) = record f { opens = f.opens ++ rtt ∷ [] }

pub fresh_loop : ℕ → List Open → Fresh → Fresh
fresh_loop i [] f = f
fresh_loop i (o ∷ os) f = fresh_loop (i + 1) os (count_once i f (open_once o o.dial))

-- The two events at the end.
pub record FreshSummary : Type 0 where
  pub rtt_ms : Option Stats
  pub errors : ℕ
  pub samples : ℕ

pub do_fresh_stream : (List ℕ → List ℕ) → (ℕ → ℕ → ℕ) → List Open → FreshSummary
unfolding fresh_loop
do_fresh_stream sort scaled os =
    let f = fresh_loop 0 os (record { opens = []; errs = 0; failed = [] }) in
    record { rtt_ms = stats sort scaled f.opens; errors = f.errs; samples = length f.opens }
