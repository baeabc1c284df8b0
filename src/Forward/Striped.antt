-- ===== src/Forward/Striped.antt =====
-- `pumpStriped` and `pumpStripedReceiver` of internal/forward/forward.go: the two goroutines, what they
-- close, and the two signals that the call waits for. A step is one action of a goroutine or of
-- the call. The two functions differ in the order in which they start the goroutines.
pub mod Counted
pub mod Ends
use nl_punch.Prelude.{[], ℕ, suc, ◌+◌, ◌∷◌, List, nat_eq, ◌≡◌}

-- Where a goroutine stands: it copies, its function has returned, it has closed everything, it has
-- sent its signal.
pub data Stage : Type 0 where
  copying returned closed_all signalled : Stage

-- Where the call stands: the signals that it still waits for.
pub data Caller : Type 0 where
  waits_two waits_one through : Caller

-- `open_conns` are `c` and the streams, as numbers; `signals` is what the channel `done` holds.
pub record Pump : Type 0 where
  pub up : Stage
  pub down : Stage
  pub caller : Caller
  pub signals : ℕ
  pub open_conns : List ℕ

abbrev pub pump_striped : ℕ → List ℕ → Pump
pump_striped c streams = record {
  up = copying;
  down = copying;
  caller = waits_two;
  signals = 0;
  open_conns = c ∷ streams;
}

-- closeAll
abbrev pub close_all : Pump → Pump
close_all p = record p { open_conns = [] }

-- When the function of a goroutine returns is up to `up_ends` and `down_ends`: a direction may copy
-- for ever.
module _ (up_ends down_ends : Pump → Type 0) where
  pub data Step (p : Pump) : Pump → Type 0 where
    up_returns : p.up ≡ copying → up_ends p → Step p (record p { up = returned })
    up_closes : p.up ≡ returned → Step p (record (close_all p) { up = closed_all })
    up_signals : p.up ≡ closed_all → Step p (record p { up = signalled; signals = p.signals + 1 })
    down_returns : p.down ≡ copying → down_ends p → Step p (record p { down = returned })
    down_closes : p.down ≡ returned → Step p (record (close_all p) { down = closed_all })
    down_signals :
        p.down ≡ closed_all → Step p (record p { down = signalled; signals = p.signals + 1 })
    takes_first :
        (n : ℕ)
        → p.caller ≡ waits_two
        → p.signals ≡ suc n
        → Step p (record p { caller = waits_one; signals = n })
    takes_second :
        (n : ℕ)
        → p.caller ≡ waits_one
        → p.signals ≡ suc n
        → Step p (record p { caller = through; signals = n })

  pub data Run (p : Pump) : ℕ → Pump → Type 0 where
    here : Run p 0 p
    next : {n : ℕ} {q r : Pump} → Run p n q → Step q r → Run p (suc n) r
