-- ===== src/Forward/Striped/Ends.antt =====
-- How `pumpStriped` of internal/forward/forward.go ends.
use nl_punch.Prelude.{ℕ, ◌+◌, ◌≤◌, [], List, nat_eq, string_eq, ◌≡◌, ◌⊎◌, refl, ap, arith, inl, inr}
use nl_punch.Forward.Striped.{
  Stage, copying, returned, closed_all, signalled, Caller, waits_two, waits_one, through, Pump,
  pump_striped, Step, up_closes, up_signals, down_closes, down_signals, takes_first, takes_second,
  Run,
}
use nl_punch.Forward.Striped.Counted.{
  sent, taken_by, rank-le, taken_by-le, sent-le, sent-one, signal_there, IsCounted,
  IsCounted-closed, Run-IsCounted,
}

module _ (up_ends down_ends : Pump → Type 0) where
  -- What the goroutines and the call can do next.
  abbrev pub CanGo : Pump → Type 0
  CanGo p = (q : Pump) × Step up_ends down_ends p q

  -- How the pump stands after `n` actions.
  pub record IsOn (n : ℕ) (p : Pump) : Type 0 where
    pub few : n ≤ 8
    pub closed : (p.up ≡ signalled) ⊎ (p.down ≡ signalled) → p.open_conns ≡ []
    pub both_ended : p.caller ≡ through → (p.up ≡ signalled) × (p.down ≡ signalled)
    pub goes_on : (p.caller ≡ through) ⊎ CanGo p ⊎ (p.up ≡ copying) ⊎ (p.down ≡ copying)

  -- A goroutine that does not copy any more.
  up_goes : (p : Pump) (s : Stage) → p.up ≡ s → (p.up ≡ signalled) ⊎ CanGo p ⊎ (p.up ≡ copying)
  up_goes p copying e = inr (inr e)
  up_goes p returned e = inr (inl (_, up_closes e))
  up_goes p closed_all e = inr (inl (_, up_signals e))
  up_goes p signalled e = inl e

  down_goes :
      (p : Pump) (s : Stage) → p.down ≡ s → (p.down ≡ signalled) ⊎ CanGo p ⊎ (p.down ≡ copying)
  down_goes p copying e = inr (inr e)
  down_goes p returned e = inr (inl (_, down_closes e))
  down_goes p closed_all e = inr (inl (_, down_signals e))
  down_goes p signalled e = inl e

  -- Once both goroutines have sent their signals.
  caller_goes :
      (p : Pump) (c : Caller)
      → p.caller ≡ c
      → taken_by p.caller + p.signals ≡ 2
      → (p.caller ≡ through) ⊎ CanGo p
  caller_goes p waits_two e two =
      let (m, s) = signal_there p.signals (omega (arith, two, ap taken_by e)) in
      inr (_, takes_first m e s)
  caller_goes p waits_one e two =
      let (m, s) = signal_there p.signals (omega (arith, two, ap taken_by e)) in
      inr (_, takes_second m e s)
  caller_goes p through e two = inl e

  IsCounted-goes :
      (p : Pump)
      → IsCounted p
      → (p.caller ≡ through) ⊎ CanGo p ⊎ (p.up ≡ copying) ⊎ (p.down ≡ copying)
  IsCounted-goes p v = elim (up_goes p p.up refl) [
    | inr (inl go) ↦ inr (inl go)
    | inr (inr copies) ↦ inr (inr (inl copies))
    | inl up ↦ elim (down_goes p p.down refl) [
      | inr (inl go) ↦ inr (inl go)
      | inr (inr copies) ↦ inr (inr (inr copies))
      | inl down ↦
          elim (caller_goes p p.caller refl (omega (arith, v.count, ap sent up, ap sent down))) [
            | inl done ↦ inl done
            | inr go ↦ inr (inl go)
          ]
    ]
  ]

  -- Whenever the two directions end, if they do, and in any order of the actions: the pump has at
  -- most eight of them; once one direction has sent its signal, the TCP connection and all streams
  -- are closed, whatever the other one still has to copy; when the call is through, both directions
  -- have ended; and until then some action is possible, unless a direction still copies.
  pub Run-IsOn :
      (c : ℕ) (streams : List ℕ) (n : ℕ) (p : Pump)
      → Run up_ends down_ends (pump_striped c streams) n p
      → IsOn n p
  Run-IsOn c streams n p r =
      let (v, far) = Run-IsCounted up_ends down_ends c streams r in
      record {
        few = omega (arith, far, rank-le p.up, rank-le p.down, taken_by-le p.caller);
        closed = IsCounted-closed p v;
        both_ended = λ e. (
          sent-one p.up (omega (arith, v.count, ap taken_by e, sent-le p.up, sent-le p.down)),
          sent-one p.down (omega (arith, v.count, ap taken_by e, sent-le p.up, sent-le p.down)),
        );
        goes_on = IsCounted-goes p v;
      }
