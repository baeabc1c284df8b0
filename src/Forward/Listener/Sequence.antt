-- ===== src/Forward/Listener/Sequence.antt =====
-- A day of connections at the listeners of one peer, and the router of the other
-- (internal/forward/forward.go).
use nl_punch.Prelude.{
  ℕ, ◌^◌, ◌<◌, [], ◌∷◌, ◌++◌, List, map, Bytes, nat_eq, string_eq, Bool, All, Option, none, some,
  ◌≡◌, refl,
}
use nl_punch.Prelude.Dict.{Dict, lookup, delete}
use nl_punch.Stream.{IoError, Reader, Writer}
use nl_punch.Forward.Header.Codec.{read-write_stream_header}
use nl_punch.Forward.Listener.{session_of, stripe_header, Opened, gave_up, pumping, accept_conn}
use nl_punch.Forward.Listener.Reaches.{IsTag, first_header-IsValid, accept_conn-fresh}
use nl_punch.Forward.Router.{
  AcceptRouter, new_accept_router, Outcome, run_accepts, handle, handle_header, join_group,
  all_ready, dial_group,
}

-- A connection at the listener `name`, the stream that it comes out of at the other peer, and what
-- follows the header there.
pub record Inbound : Type 0 where
  pub name : Bytes
  pub random : ℕ
  pub opens : ℕ → Option Writer
  pub stream : ℕ
  pub later : Bytes
  pub fault : IoError
  pub port : ℕ

-- The name is known to the other peer, and the connection of its stream holds.
pub record IsInbound (dials : Dict Bytes ℕ) (c : Inbound) : Type 0 where
  pub tag : IsTag c.name
  pub small : c.random < 2 ^ 64
  pub opened : c.opens 0 ≡ some (record { written = []; room = none })
  pub known : lookup c.name dials ≡ some c.port

abbrev pub first_sent : Opened → Bytes
first_sent (gave_up ws) = []
first_sent (pumping []) = []
first_sent (pumping (w ∷ ws)) = w.written

-- What the router reads of the connection's stream.
abbrev pub arrival : Inbound → Reader
arrival c = record {
  rest = first_sent (accept_conn c.name c.random c.opens) ++ c.later;
  fault = c.fault;
}

-- The router's loop, over the streams in the order in which they take its lock.
pub routed : (ℕ → Bool) → AcceptRouter → List Inbound → AcceptRouter × List Outcome
unfolding run_accepts
routed ports a cs = run_accepts ports a (map (λ c. some (c.stream, arrival c)) cs)

handle_header-alone :
    (ports : ℕ → Bool) (dials : Dict Bytes ℕ) (s : ℕ) (name : Bytes) (session port : ℕ)
    → lookup name dials ≡ some port
    → handle_header ports (new_accept_router dials) s (stripe_header name session 1 0)
      ≡ (new_accept_router dials, dial_group ports port (some s ∷ []))
unfolding handle_header join_group all_ready lookup delete
handle_header-alone ports dials s name session port known = rw known refl

pub handle-arrival :
    (ports : ℕ → Bool) (dials : Dict Bytes ℕ) (c : Inbound)
    → IsInbound dials c
    → handle ports (new_accept_router dials) c.stream (arrival c)
      ≡ (new_accept_router dials, dial_group ports c.port (some c.stream ∷ []))
unfolding handle
handle-arrival ports dials c v =
    let h = stripe_header c.name (session_of c.random) 1 0 in
    let w : Writer = record { written = []; room = none } in
    let valid = first_header-IsValid c.name c.random v.tag v.small in
    let (written, read) = read-write_stream_header h c.later c.fault w valid refl in
    rw (accept_conn-fresh c.name c.random c.opens w v.opened written, handle, read)
      (handle_header-alone ports dials c.stream c.name (session_of c.random) c.port v.known)

-- Any number of connections at the listeners of one peer, their streams in any order at the other:
-- each is dialed at the port of its name with its one stream, and the table of the router is empty
-- again after each, so that not even equal session ids make one connection wait for another. The
-- names are known to the other peer, and the connections of the streams hold.
pub routed_lem :
    (ports : ℕ → Bool) (dials : Dict Bytes ℕ) (cs : List Inbound)
    → All (IsInbound dials) cs
    → routed ports (new_accept_router dials) cs
      ≡ (new_accept_router dials, map (λ c. dial_group ports c.port (some c.stream ∷ [])) cs)
unfolding routed
routed_lem ports dials [] v = refl
routed_lem ports dials (c ∷ cs) (here, rest) =
    rw (run_accepts, handle-arrival ports dials c here, routed_lem ports dials cs rest) refl
