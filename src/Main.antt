-- ===== src/Main.antt =====
-- cmd/nl-punch/main.go: the dial map of `runOnce`, and the waits of `runReconnectLoop`, in
-- nanoseconds. The jitter is the random number of that round.
pub mod Dials
pub mod Startup
pub mod EndToEnd
pub mod Backoff
pub mod Session
use nl_punch.Prelude.{
  [], ℕ, zero, suc, ◌+◌, ◌-◌, ◌*◌, ◌/◌, ◌∷◌, List, Bytes, nat_eq, ltb, if◌then◌else◌, Option, none,
  some, string_eq,
}
use nl_punch.Prelude.Dict.{Dict, lookup, insert}
use nl_punch.Config.{ListenSpec, DialSpec, Peer}

-- for _, d := range me.Dial { dials[d.Name] = d.LocalPort }
pub dial_targets : List DialSpec → Dict Bytes ℕ → Dict Bytes ℕ
dial_targets [] dials = dials
dial_targets (d ∷ ds) dials = dial_targets ds (insert d.name d.local_port dials)

-- if _, already := dials[l.Name]; !already { dials[l.Name] = l.RemotePort }
abbrev pub unless_already : Option ℕ → ListenSpec → Dict Bytes ℕ → Dict Bytes ℕ
unless_already none l dials = insert l.name l.remote_port dials
unless_already (some port) l dials = dials

pub remote_targets : List ListenSpec → Dict Bytes ℕ → Dict Bytes ℕ
remote_targets [] dials = dials
remote_targets (l ∷ ls) dials = remote_targets ls (unless_already (lookup l.name dials) l dials)

pub dial_map : Peer → Peer → Dict Bytes ℕ
unfolding dial_targets remote_targets
dial_map me other = remote_targets other.listen (dial_targets me.dial [])

abbrev pub second : ℕ
second = 1000000000

abbrev pub max_backoff : ℕ
max_backoff = 60 * second

-- backoff *= 2, and the cap
pub next_backoff : ℕ → ℕ
next_backoff backoff = if ltb max_backoff (backoff * 2) then max_backoff else backoff * 2

-- The backoff of round `k`.
pub backoff_at : ℕ → ℕ
unfolding next_backoff
backoff_at zero = second
backoff_at (suc k) = next_backoff (backoff_at k)

abbrev pub wait_for : ℕ → ℕ → ℕ
wait_for backoff jitter = backoff - backoff / 5 + jitter

-- The waits of a run of sessions, one for each that ended: the jitters are those of the rounds.
unfoldable pub waits_from : ℕ → List ℕ → List ℕ
unfolding next_backoff
waits_from backoff [] = []
waits_from backoff (jitter ∷ jitters) =
    wait_for backoff jitter ∷ waits_from (next_backoff backoff) jitters

unfoldable pub reconnect_waits : List ℕ → List ℕ
unfolding waits_from
reconnect_waits jitters = waits_from second jitters
