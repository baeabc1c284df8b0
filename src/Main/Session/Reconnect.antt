-- ===== src/Main/Session/Reconnect.antt =====
-- `runReconnectLoop` of cmd/nl-punch/main.go: its rounds, with the waits between them.
use nl_punch.Prelude.{
  [], ℕ, ◌∷◌, List, Bytes, nat_eq, string_eq, Bool, if◌then◌else◌, Option, none, some,
}
use nl_punch.Config.{Config}
use nl_punch.Main.{next_backoff, wait_for, second}
use nl_punch.Main.Session.{Process, idle, Calls, RunError, Run, run_once}

-- One round of `runReconnectLoop`: whether the context is done before, after and while it waits.
pub record Round {ℓ κ} (E : Type ℓ) (Candidate : Type κ) : Type (ℓ ⊔ κ) where
  pub done_before : Bool
  pub calls : Calls E Candidate
  pub done_after : Bool
  pub jitter : ℕ
  pub done_waiting : Bool

-- The waits so far, and what is open.
pub record Loop : Type 0 where
  pub process : Process
  pub waits : List ℕ

module _ {ℓ κ} {E : Type ℓ} {Candidate : Type κ} where
  -- After a run: it is still up, or has ended.
  abbrev pub after_run : ℕ → Round E Candidate → Run E → Option (RunError E) → Loop → Loop
  after_run backoff r o none rest = record { process = o.process; waits = [] }
  after_run backoff r o (some e) rest =
      if r.done_after
      then record { process = o.process; waits = [] }
      else let wait = wait_for backoff r.jitter in
        if r.done_waiting
        then record { process = o.process; waits = wait ∷ [] }
        else record rest { waits = wait ∷ rest.waits }

  module _ (c : Config) (role : Bytes) where
    unfoldable pub reconnect_from : ℕ → List (Round E Candidate) → Process → Loop
    unfolding run_once
    reconnect_from backoff [] p = record { process = p; waits = [] }
    reconnect_from backoff (r ∷ rs) p =
        let o = run_once c role r.calls p in
        let rest = reconnect_from (next_backoff backoff) rs o.process in
        if r.done_before
        then record { process = p; waits = [] }
        else after_run backoff r o o.result rest

    unfoldable pub run_reconnect_loop : List (Round E Candidate) → Loop
    unfolding reconnect_from
    run_reconnect_loop rounds = reconnect_from second rounds (idle 0 0)
