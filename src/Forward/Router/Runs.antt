-- ===== src/Forward/Router/Runs.antt =====
-- The router of internal/forward/forward.go from its start to the error that ends its loop.
use nl_punch.Prelude.{ℕ, [], ◌∷◌, List, Bytes, Bool, Option, none, some}
use nl_punch.Prelude.Dict.{Dict}
use nl_punch.Stream.{Reader}
use nl_punch.Forward.Router.{AcceptRouter, new_accept_router, handle, run_accepts}
use nl_punch.Forward.Router.Invariant.{IsValid, new-IsValid, handle-IsValid}

run_from-IsValid :
    (ports : ℕ → Bool) (a : AcceptRouter) (accepts : List (Option (ℕ × Reader)))
    → IsValid a
    → IsValid (run_accepts ports a accepts).0
unfolding run_accepts
run_from-IsValid ports a [] v = v
run_from-IsValid ports a (none ∷ accepts) v = v
run_from-IsValid ports a (some (s, r) ∷ accepts) v =
    run_from-IsValid ports (handle ports a s r).0 accepts (handle-IsValid ports a s r v)

-- From its start on, whatever bytes arrive on whatever streams and whichever local dials fail, the
-- table of the router is valid at the end of its loop: each group that it holds has a place for each
-- of its stripes, and still waits for one of them.
pub run_accepts-IsValid :
    (ports : ℕ → Bool) (dials : Dict Bytes ℕ) (accepts : List (Option (ℕ × Reader)))
    → IsValid (run_accepts ports (new_accept_router dials) accepts).0
run_accepts-IsValid ports dials accepts =
    run_from-IsValid ports (new_accept_router dials) accepts (new-IsValid dials)
