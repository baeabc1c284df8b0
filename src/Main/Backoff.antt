-- ===== src/Main/Backoff.antt =====
-- The waits between two sessions in `runReconnectLoop` (cmd/nl-punch/main.go).
use nl_punch.Prelude.{
  ℕ, zero, suc, ◌+◌, ◌*◌, ◌^◌, ◌<◌, ◌≤◌, min, [], ◌∷◌, List, nat_eq, string_eq, get_elem?, some,
  some-injective, ◌≡◌, refl, ap, ◌∙◌, arith,
}
use nl_punch.Main.{
  second, max_backoff, next_backoff, backoff_at, wait_for, waits_from, reconnect_waits,
}

pow-pos : (k : ℕ) → 0 < 2 ^ k
pow-pos zero = omega arith
pow-pos (suc k) = omega (arith, pow-pos k)

-- The backoff of round `k` is 2 ^ k seconds, at most one minute.
backoff_at_lem : (k : ℕ) → backoff_at k ≡ min (2 ^ k * second) max_backoff
unfolding backoff_at next_backoff
backoff_at_lem zero = refl
backoff_at_lem (suc k) = ground (arith, backoff_at_lem k, pow-pos k)

get_elem?-waits_from :
    (round k last jitter : ℕ) (jitters : List ℕ)
    → last ≡ round + k
    → get_elem? jitters k ≡ some jitter
    → get_elem? (waits_from (backoff_at round) jitters) k ≡ some (wait_for (backoff_at last) jitter)
unfolding waits_from backoff_at
get_elem?-waits_from round k last jitter [] e at = cc at
get_elem?-waits_from round zero last jitter (j ∷ jitters) e at =
    let same : last ≡ round = omega (arith, e) in
    rw same (ap (λ x. some (wait_for (backoff_at round) x)) (some-injective _ _ at))
get_elem?-waits_from round (suc k) last jitter (j ∷ jitters) e at =
    get_elem?-waits_from (suc round) k last jitter jitters (omega (arith, e)) at

-- The wait after round `k` is within a fifth of the backoff, up to the rounding of its fifth: of
-- 2 ^ k seconds, at most one minute, as far as its jitter is at most two fifths of that.
pub reconnect_waits_bounds :
    (jitters : List ℕ) (k jitter : ℕ)
    → get_elem? jitters k ≡ some jitter
    → jitter * 5 ≤ min (2 ^ k * second) max_backoff * 2
    → (w : ℕ) × (get_elem? (reconnect_waits jitters) k ≡ some w)
      × (min (2 ^ k * second) max_backoff * 4 ≤ w * 5)
      × (w * 5 ≤ min (2 ^ k * second) max_backoff * 6 + 4)
unfolding reconnect_waits backoff_at
reconnect_waits_bounds jitters k jitter at bound =
    let b = min (2 ^ k * second) max_backoff in
    (
      wait_for b jitter,
      get_elem?-waits_from 0 k k jitter jitters (omega arith) at
          ∙ ap (λ x. some (wait_for x jitter)) (backoff_at_lem k),
      omega arith,
      omega arith,
    )
