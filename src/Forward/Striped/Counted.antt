-- ===== src/Forward/Striped/Counted.antt =====
-- The signals and the closings of `pumpStriped` (internal/forward/forward.go), counted over its actions.
use nl_punch.Prelude.{
  ℕ, zero, suc, ◌+◌, ◌≤◌, ◌<◌, [], List, nat_eq, string_eq, ◌≡◌, ◌⊎◌, refl, ap, arith, inl, inr,
}
use nl_punch.Forward.Striped.{
  Stage, copying, returned, closed_all, signalled, Caller, waits_two, waits_one, through, Pump,
  pump_striped, Step, up_returns, up_closes, up_signals, down_returns, down_closes, down_signals,
  takes_first, takes_second, Run, here, next,
}

-- The signals that a goroutine has sent, and the call has taken.
abbrev pub sent : Stage → ℕ
sent signalled = 1
sent _ = 0

abbrev pub taken_by : Caller → ℕ
taken_by waits_two = 0
taken_by waits_one = 1
taken_by through = 2

-- How far a goroutine has come.
abbrev pub rank : Stage → ℕ
rank copying = 0
rank returned = 1
rank closed_all = 2
rank signalled = 3

abbrev pub HasClosed : Stage → Type 0
HasClosed s = 2 ≤ rank s

-- The signals are counted, and who has closed has closed everything.
pub record IsCounted (p : Pump) : Type 0 where
  pub count : taken_by p.caller + p.signals ≡ sent p.up + sent p.down
  pub up_closed : HasClosed p.up → p.open_conns ≡ []
  pub down_closed : HasClosed p.down → p.open_conns ≡ []

pub Step-IsCounted :
    {up_ends down_ends : Pump → Type 0} {p q : Pump}
    → Step up_ends down_ends p q
    → IsCounted p
    → IsCounted q
Step-IsCounted {p} (up_returns e ends) v = record {
  count = omega (arith, v.count, ap sent e);
  up_closed = λ h. absurd (omega (arith, h));
  down_closed = v.down_closed;
}
Step-IsCounted {p} (up_closes e) v = record {
  count = omega (arith, v.count, ap sent e);
  up_closed = λ h. refl;
  down_closed = λ h. refl;
}
Step-IsCounted {p} (up_signals e) v = record {
  count = omega (arith, v.count, ap sent e);
  up_closed = λ h. v.up_closed (omega (arith, ap rank e));
  down_closed = v.down_closed;
}
Step-IsCounted {p} (down_returns e ends) v = record {
  count = omega (arith, v.count, ap sent e);
  up_closed = v.up_closed;
  down_closed = λ h. absurd (omega (arith, h));
}
Step-IsCounted {p} (down_closes e) v = record {
  count = omega (arith, v.count, ap sent e);
  up_closed = λ h. refl;
  down_closed = λ h. refl;
}
Step-IsCounted {p} (down_signals e) v = record {
  count = omega (arith, v.count, ap sent e);
  up_closed = v.up_closed;
  down_closed = λ h. v.down_closed (omega (arith, ap rank e));
}
Step-IsCounted {p} (takes_first n e s) v = record {
  count = omega (arith, v.count, ap taken_by e, s);
  up_closed = v.up_closed;
  down_closed = v.down_closed;
}
Step-IsCounted {p} (takes_second n e s) v = record {
  count = omega (arith, v.count, ap taken_by e, s);
  up_closed = v.up_closed;
  down_closed = v.down_closed;
}

-- The actions that are done.
abbrev pub progress : Pump → ℕ
progress p = rank p.up + rank p.down + taken_by p.caller

pub Step-progress :
    {up_ends down_ends : Pump → Type 0} {p q : Pump}
    → Step up_ends down_ends p q
    → progress q ≡ progress p + 1
Step-progress {p} (up_returns e ends) = omega (arith, ap rank e)
Step-progress {p} (up_closes e) = omega (arith, ap rank e)
Step-progress {p} (up_signals e) = omega (arith, ap rank e)
Step-progress {p} (down_returns e ends) = omega (arith, ap rank e)
Step-progress {p} (down_closes e) = omega (arith, ap rank e)
Step-progress {p} (down_signals e) = omega (arith, ap rank e)
Step-progress {p} (takes_first n e s) = omega (arith, ap taken_by e)
Step-progress {p} (takes_second n e s) = omega (arith, ap taken_by e)

pub rank-le : (s : Stage) → rank s ≤ 3
rank-le copying = omega arith
rank-le returned = omega arith
rank-le closed_all = omega arith
rank-le signalled = omega arith

pub taken_by-le : (c : Caller) → taken_by c ≤ 2
taken_by-le waits_two = omega arith
taken_by-le waits_one = omega arith
taken_by-le through = omega arith

pub sent-le : (s : Stage) → sent s ≤ 1
sent-le copying = omega arith
sent-le returned = omega arith
sent-le closed_all = omega arith
sent-le signalled = omega arith

pub sent-one : (s : Stage) → sent s ≡ 1 → s ≡ signalled
sent-one copying h = absurd (omega (arith, h))
sent-one returned h = absurd (omega (arith, h))
sent-one closed_all h = absurd (omega (arith, h))
sent-one signalled h = refl

pub IsCounted-closed :
    (p : Pump) → IsCounted p → (p.up ≡ signalled) ⊎ (p.down ≡ signalled) → p.open_conns ≡ []
IsCounted-closed p v (inl up) = v.up_closed (omega (arith, ap rank up))
IsCounted-closed p v (inr down) = v.down_closed (omega (arith, ap rank down))

pub signal_there : (n : ℕ) → 0 < n → (m : ℕ) × (n ≡ suc m)
signal_there zero h = absurd (omega (arith, h))
signal_there (suc m) h = (m, refl)

module _ (up_ends down_ends : Pump → Type 0) where
  pub Run-IsCounted :
      (c : ℕ) (streams : List ℕ) {n : ℕ} {p : Pump}
      → Run up_ends down_ends (pump_striped c streams) n p
      → IsCounted p × (progress p ≡ n)
  Run-IsCounted c streams here = (
    record {
      count = omega arith;
      up_closed = λ h. absurd (omega (arith, h));
      down_closed = λ h. absurd (omega (arith, h));
    },
    omega arith,
  )
  Run-IsCounted c streams (next r s) =
      let (v, far) = Run-IsCounted c streams r in
      (Step-IsCounted s v, omega (arith, far, Step-progress s))
