-- ===== src/Bench/FreshStream/Opens.antt =====
-- `doFreshStream` of cmd/nl-punch-bench/main.go against the server's hello.
use native.Mathlib.Nat.{zero-add}
use nl_punch.Prelude.{
  ℕ, ◌+◌, ◌-◌, [], ◌∷◌, ◌++◌, List, append_assoc, append-nil, All, Bytes, nat_eq, string_eq, none,
  some, length, ◌≡◌, refl, sym, ap, ◌∙◌, arith,
}
use nl_punch.Stream.{
  IoError, Reader, Writer, read_full, read_full_append, write_unbroken, sends_unbroken,
}
use nl_punch.Bench.{mode_hello, stats, serve_bench}
use nl_punch.Bench.Server.{IsCutting, incoming, serve_bench_lem}
use nl_punch.Bench.FreshStream.{
  Dial, refused, connected, Open, on_byte, after_hello, open_once, Fresh, count_once, fresh_loop,
  do_fresh_stream,
}

-- What the rounds should come to: a sample for each connection, an error for each refused dial.
abbrev add_sample : Open → Dial → List ℕ → List ℕ
add_sample o refused rest = rest
add_sample o (connected w r) rest = (o.back - o.sent) ∷ rest

abbrev pub samples_of : List Open → List ℕ
samples_of [] = []
samples_of (o ∷ os) = add_sample o o.dial (samples_of os)

abbrev add_refusal : Dial → ℕ → ℕ
add_refusal refused n = n + 1
add_refusal (connected w r) n = n

abbrev pub refusals : List Open → ℕ
refusals [] = 0
refusals (o ∷ os) = add_refusal o.dial (refusals os)

abbrev answering : Writer
answering = record { written = []; room = none }

module _ (cut : Bytes → List Bytes) (cutting : IsCutting cut) (now : ℕ) (clock : List ℕ)
    (buf : Bytes) where
  -- The connection does not break, and reads what the server sends on a hello.
  abbrev pub IsServed : Dial → Type 0
  IsServed refused = Unit
  IsServed (connected w r) =
      (w.room ≡ none)
      × ((e : IoError) × (r.rest
            ≡ (serve_bench cut (now ∷ clock) buf (incoming e mode_hello []) answering).written))

  hello_lem :
      (e : IoError)
      → (serve_bench cut (now ∷ clock) buf (incoming e mode_hello []) answering).written
        ≡ mode_hello ∷ []
  hello_lem e =
      let (_, _, _, hello) =
        serve_bench_lem cut now clock buf e answering [] 0 cutting (omega arith) in
      ap (λ v. v.written) (hello ∙ sends_unbroken answering (mode_hello ∷ []) refl)

  open_once-connected :
      (o : Open) (w : Writer) (r : Reader)
      → IsServed (connected w r)
      → open_once o (connected w r) ≡ some (o.back - o.sent)
  open_once-connected o w r (free, (e, answer)) =
      ap (after_hello o r) (write_unbroken w (mode_hello ∷ []) free)
      ∙ ap (λ s. on_byte o (read_full 1 (record { rest = s; fault = r.fault })))
          (answer ∙ hello_lem e)
      ∙ ap (on_byte o) (read_full_append 1 (mode_hello ∷ []) [] r.fault refl)

  -- What one round does to the counts.
  count_lem :
      (i : ℕ) (o : Open) (d : Dial) (os : List Open) (f : Fresh)
      → IsServed d
      → let g = count_once i f (open_once o d) in
        (g.opens ++ samples_of os ≡ f.opens ++ add_sample o d (samples_of os))
        × (g.errs + refusals os ≡ f.errs + add_refusal d (refusals os))
  count_lem i o refused os f h = (refl, omega arith)
  count_lem i o (connected w r) os f h =
      rw (open_once-connected o w r h)
        (append_assoc f.opens ((o.back - o.sent) ∷ []) (samples_of os), refl)

  fresh_loop_lem :
      (i : ℕ) (os : List Open) (f : Fresh)
      → All (λ o. IsServed o.dial) os
      → ((fresh_loop i os f).opens ≡ f.opens ++ samples_of os)
        × ((fresh_loop i os f).errs ≡ f.errs + refusals os)
  unfolding fresh_loop
  fresh_loop_lem i [] f h = (sym (append-nil f.opens), omega arith)
  fresh_loop_lem i (o ∷ os) f (here, rest) =
      let (opens, errs) = fresh_loop_lem (i + 1) os (count_once i f (open_once o o.dial)) rest in
      let (opens', errs') = count_lem i o o.dial os f here in (opens ∙ opens', errs ∙ errs')

  sum_dial :
      (o : Open) (d : Dial) (n : ℕ) (rest : List ℕ)
      → add_refusal d n + length (add_sample o d rest) ≡ n + length rest + 1
  sum_dial o refused n rest = omega arith
  sum_dial o (connected w r) n rest = omega arith

  sum_lem : (os : List Open) → refusals os + length (samples_of os) ≡ length os
  sum_lem [] = refl
  sum_lem (o ∷ os) = omega (arith, sum_lem os, sum_dial o o.dial (refusals os) (samples_of os))

  -- Against the bench server, over connections that do not break once they are made, the test has a
  -- sample for each connection, in order, and an error for each dial that is refused: as many of both
  -- together as rounds.
  pub do_fresh_stream-serve_bench :
      (sort : List ℕ → List ℕ) (scaled : ℕ → ℕ → ℕ) (os : List Open)
      → All (λ o. IsServed o.dial) os
      → let f = do_fresh_stream sort scaled os in
        (f ≡ record {
          rtt_ms = stats sort scaled (samples_of os);
          errors = refusals os;
          samples = length (samples_of os);
        })
        × (f.errors + f.samples ≡ length os)
  unfolding do_fresh_stream
  do_fresh_stream-serve_bench sort scaled os h =
      let (opens, errs) = fresh_loop_lem 0 os (record { opens = []; errs = 0; failed = [] }) h in
      rw (opens, errs ∙ zero-add (refusals os)) (refl, sum_lem os)
