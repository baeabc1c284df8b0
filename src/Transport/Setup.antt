-- ===== src/Transport/Setup.antt =====
-- What `Serve` and `Dial` of internal/transport/transport.go leave.
use nl_punch.Prelude.{
  ℕ, zero, suc, ◌+◌, ◌<◌, [], ◌∷◌, ◌++◌, List, nat_eq, string_eq, Bool, true, false, length,
  length-append, Option, none, some, ◌≡◌, refl, arith, Option-cases, inl, inr,
}
use nl_punch.Stream.{Result, ok, err}
use nl_punch.Transport.{
  Session, num_subconns, Subconns, aborted, joined, connect_all, SetupError, no_subconn,
  serve_session, dial_session, session_of,
}

-- The connections of the calls from `i` on.
abbrev Made : (ℕ → Option ℕ) → ℕ → List ℕ → Type 0
Made connect i [] = Unit
Made connect i (c ∷ cs) = (connect i ≡ some c) × Made connect (i + 1) cs

Made-append :
    (connect : ℕ → Option ℕ) (i : ℕ) (cs : List ℕ) (c j : ℕ)
    → Made connect i cs
    → connect j ≡ some c
    → j ≡ i + length cs
    → Made connect i (cs ++ c ∷ [])
Made-append connect i [] c j h e at = let same : j ≡ i = omega (arith, at) in (rw (← same) e, tt)
Made-append connect i (x ∷ cs) c j h e at =
    (h.0, Made-append connect (i + 1) cs c j h.1 e (omega (arith, at)))

-- All the connections are there, in the order of the calls; or one call failed, and those of the
-- calls before it, each of them, are closed.
abbrev IsAllOrNothing : (ℕ → Option ℕ) → ℕ → Subconns → Type 0
IsAllOrNothing connect n (joined conns) = (length conns ≡ n) × Made connect 0 conns
IsAllOrNothing connect n (aborted i closed) =
    (i < n) × (connect i ≡ none) × (length closed ≡ i) × Made connect 0 closed

connect_all-IsAllOrNothing :
    (connect : ℕ → Option ℕ) (left i n : ℕ) (conns : List ℕ)
    → i + left ≡ n
    → length conns ≡ i
    → Made connect 0 conns
    → IsAllOrNothing connect n (connect_all connect left i conns)
unfolding connect_all
connect_all-IsAllOrNothing connect zero i n conns total len h = (omega (arith, total, len), h)
connect_all-IsAllOrNothing connect (suc left) i n conns total len h =
    elim (Option-cases (connect i)) [
      | inl failed ↦ rw (connect_all, failed) (omega (arith, total), failed, len, h)
      | inr (c, e) ↦
          rw (connect_all, e)
            (connect_all-IsAllOrNothing connect left (i + 1) n (conns ++ c ∷ [])
              (omega (arith, total)) (omega (arith, len, length-append conns (c ∷ [])))
              (Made-append connect 0 conns c i h e (omega (arith, len))))
    ]

-- What `Serve` and `Dial` promise: a session over all its connections, or an error that leaves none
-- of those that were made open.
abbrev pub IsSetUp : (ℕ → Option ℕ) → Result SetupError Session → Type 0
IsSetUp connect (ok s) = (length s.conns ≡ num_subconns) × Made connect 0 s.conns
IsSetUp connect (err (no_subconn i closed)) =
    (i < num_subconns) × (connect i ≡ none) × (length closed ≡ i) × Made connect 0 closed
IsSetUp connect (err e) = Unit

session_of-IsSetUp :
    (connect : ℕ → Option ℕ) (c : Subconns)
    → IsAllOrNothing connect num_subconns c
    → IsSetUp connect (session_of c)
session_of-IsSetUp connect (joined conns) h = h
session_of-IsSetUp connect (aborted i closed) h = h

-- `Serve` and `Dial` return a session over the four connections of their four calls, in the order of
-- the calls; or one call failed, the first, and each connection of the calls before it is closed; or
-- they have not come to the calls.
pub serve_session-IsSetUp :
    (up down resolved : Bool) (connect : ℕ → Option ℕ)
    → IsSetUp connect (serve_session up down connect)
      × IsSetUp connect (dial_session resolved connect)
unfolding serve_session dial_session
serve_session-IsSetUp up down resolved connect = (served up down, dialed resolved)
  where
    called : IsSetUp connect (session_of (connect_all connect num_subconns 0 []))
    called =
        session_of-IsSetUp connect _
          (connect_all-IsAllOrNothing connect num_subconns 0 num_subconns [] refl refl tt)

    served : (up down : Bool) → IsSetUp connect (serve_session up down connect)
    served true true = called
    served true false = tt
    served false down = tt

    dialed : (resolved : Bool) → IsSetUp connect (dial_session resolved connect)
    dialed true = called
    dialed false = tt
