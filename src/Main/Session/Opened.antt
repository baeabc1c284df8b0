-- ===== src/Main/Session/Opened.antt =====
-- The connections that `Serve` and `Dial` (internal/transport/transport.go) open for `runOnce` are those
-- of the session that they return, or those that they close.
use nl_punch.Prelude.{
  ℕ, zero, suc, ◌+◌, [], ◌∷◌, ◌++◌, List, append-nil, append_assoc, Bool, true, false, ◌&&◌,
  if◌then◌else◌, Option, ◌≡◌, refl, sym, ◌∙◌, Option-cases, inl, inr,
}
use nl_punch.Stream.{Result, ok, err}
use nl_punch.Transport
use nl_punch.Transport.{
  num_subconns, Subconns, aborted, joined, connect_all, SetupError, serve_session, dial_session,
  session_of,
}
use nl_punch.Main.Startup.{TransportSide, serves, dials}
use nl_punch.Main.Session.{Calls, opened_conns, aborted_conns, side_session, side_conns}

abbrev conns_of : Subconns → List ℕ
conns_of (joined conns) = conns
conns_of (aborted i closed) = closed

connect_all-opened_conns :
    (connect : ℕ → Option ℕ) (left i : ℕ) (conns : List ℕ)
    → conns_of (connect_all connect left i conns) ≡ conns ++ opened_conns connect left i
unfolding connect_all opened_conns
connect_all-opened_conns connect zero i conns = sym (append-nil conns)
connect_all-opened_conns connect (suc left) i conns = elim (Option-cases (connect i)) [
  | inl failed ↦ rw (connect_all, opened_conns, failed) (sym (append-nil conns))
  | inr (c, e) ↦
      rw (connect_all, opened_conns, e)
        (connect_all-opened_conns connect left (i + 1) (conns ++ c ∷ [])
          ∙ append_assoc conns (c ∷ []) (opened_conns connect left (i + 1)))
]

-- The connections of a session, or those that are closed.
abbrev pub AreOf : List ℕ → Result SetupError Transport.Session → Type 0
AreOf opened (ok sess) = sess.conns ≡ opened
AreOf opened (err e) = aborted_conns e ≡ opened

session_of-AreOf :
    (opened : List ℕ) (c : Subconns) → conns_of c ≡ opened → AreOf opened (session_of c)
session_of-AreOf opened (joined conns) h = h
session_of-AreOf opened (aborted i closed) h = h

called-AreOf :
    (connect : ℕ → Option ℕ)
    → AreOf
        (opened_conns connect num_subconns 0)
        (session_of (connect_all connect num_subconns 0 []))
called-AreOf connect =
    session_of-AreOf (opened_conns connect num_subconns 0) (connect_all connect num_subconns 0 [])
      (connect_all-opened_conns connect num_subconns 0 [])

served-AreOf :
    (certified listening : Bool) (connect : ℕ → Option ℕ)
    → AreOf
        (if certified && listening then opened_conns connect num_subconns 0 else [])
        (serve_session certified listening connect)
unfolding serve_session
served-AreOf true true connect = called-AreOf connect
served-AreOf true false connect = refl
served-AreOf false listening connect = refl

dialed-AreOf :
    (resolved : Bool) (connect : ℕ → Option ℕ)
    → AreOf
        (if resolved then opened_conns connect num_subconns 0 else [])
        (dial_session resolved connect)
unfolding dial_session
dialed-AreOf true connect = called-AreOf connect
dialed-AreOf false connect = refl

pub side_session-AreOf {ℓ κ} :
    {E : Type ℓ} {Candidate : Type κ} (side : TransportSide) (calls : Calls E Candidate)
    → AreOf (side_conns side calls) (side_session side calls)
side_session-AreOf serves calls = served-AreOf calls.certified calls.listening calls.subconn
side_session-AreOf dials calls = dialed-AreOf calls.resolved calls.subconn
