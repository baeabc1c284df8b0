-- ===== src/Transport/RoundRobin.antt =====
-- `OpenStream` of internal/transport/transport.go takes the connections in turn.
use nl_punch.Prelude.{
  ℕ, zero, suc, ◌+◌, ◌%◌, ◌<◌, [], ◌∷◌, List, nat_eq, string_eq, length, get_elem?, get_elem?-some,
  Option, some, ◌≡◌, sym, ap, ◌∙◌, arith,
}
use nl_punch.Stream.{Result}
use nl_punch.Transport.{Session, num_subconns, advance, pick, open_stream}

module _ {ℓ} {E : Type ℓ} (open_on : ℕ → Result E ℕ) where
  -- What `m` calls in a row return.
  unfoldable pub open_streams : Session → ℕ → List (Option (Result E ℕ))
  unfolding open_stream
  open_streams s zero = []
  open_streams s (suc m) = (open_stream open_on s).1 ∷ open_streams (open_stream open_on s).0 m

  opened_on :
      (s : Session) (c : ℕ)
      → get_elem? s.conns (pick s) ≡ some c
      → (open_stream open_on s).1 ≡ some (open_on c)
  unfolding open_stream
  opened_on s c at = rw (at, open_stream)

  -- The four connections are taken in turn, from any state of the counter and over its wrap-around:
  -- the `k`-th of any number of calls in a row returns what the library returns for a stream on the
  -- connection that is `k + 1` places, modulo four, behind the one that the counter stands at.
  pub open_streams-turn :
      (s : Session) (m k : ℕ)
      → length s.conns ≡ num_subconns
      → k < m
      → (c : ℕ) × (get_elem? s.conns ((s.next + k + 1) % num_subconns) ≡ some c)
        × (get_elem? (open_streams s m) k ≡ some (some (open_on c)))
  unfolding open_streams open_stream
  open_streams-turn s zero k four range = absurd (omega (arith, range))
  open_streams-turn s (suc m) zero four range =
      let (c, at) = get_elem?-some s.conns ((s.next + 1) % 4) (omega (arith, four)) in
      let place : pick s ≡ (s.next + 1) % 4 = rw four (omega arith) in
      let here : s.next + 0 + 1 ≡ s.next + 1 = omega arith in
      (c, rw here at, ap some (opened_on s c (rw place at)))
  open_streams-turn s (suc m) (suc k) four range =
      let (c, at, later) =
        open_streams-turn (record s { next = advance s.next }) m k four (omega arith) in
      let e : (advance s.next + k + 1) % 4 ≡ (s.next + suc k + 1) % 4 = omega arith in
      (c, sym (ap (get_elem? s.conns) e) ∙ at, later)
