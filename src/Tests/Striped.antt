-- ===== src/Tests/Striped.antt =====
-- The client ends its side first: the upward direction is through while the other one still copies.
use nl_punch.Prelude.{[], ◌∷◌, refl, ◌≡◌, ◌≢◌, nat_eq}
use nl_punch.Forward.Striped.{
  copying, signalled, waits_one, Pump, pump_striped, up_returns, up_closes, up_signals, takes_first,
  Run, here, next,
}
use nl_punch.Forward.Striped.Ends.{IsOn, Run-IsOn}

abbrev half_closed : Pump
half_closed = record {
  up = signalled;
  down = copying;
  caller = waits_one;
  signals = 0;
  open_conns = [];
}

-- The upward direction may end at any time, the other one never does.
abbrev AnyTime : Pump → Type 0
AnyTime p = p ≡ p

abbrev Never : Pump → Type 0
Never p = p ≢ p

half_closes : Run AnyTime Never (pump_striped 3 (4 ∷ [])) 4 half_closed
half_closes =
    next (next (next (next here (up_returns refl refl)) (up_closes refl)) (up_signals refl))
      (takes_first 0 refl refl)

Run-IsOn_example : IsOn AnyTime Never 4 half_closed
Run-IsOn_example = Run-IsOn AnyTime Never 3 (4 ∷ []) 4 half_closed half_closes
