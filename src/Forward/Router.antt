-- ===== src/Forward/Router.antt =====
-- `AcceptRouter` of internal/forward/forward.go: inbound streams are grouped by the session id of
-- their headers, and a group is dialed when its last stripe arrives. A stream is a number, and a nil
-- entry of a group is `none`; the goroutine that waits on `ready` shows as the outcome `waits`.
pub mod Invariant
pub mod Joining
pub mod Sessions
pub mod Complete
pub mod Runs
use nl_punch.Prelude.{
  [], ℕ, ◌∷◌, List, Bytes, nat_eq, leb, Bool, true, false, if◌then◌else◌, length, set, replicate,
  Option, none, some, string_eq,
}
use nl_punch.Prelude.Dict.{Dict, lookup, insert, delete}
use nl_punch.Stream.{Reader, ok, err}
use nl_punch.Forward.Header.{StreamHeader, HeaderError, read_stream_header}

pub record StripeGroup : Type 0 where
  pub tag : Bytes
  pub num_stripes : ℕ
  pub streams : List (Option ℕ)

pub record AcceptRouter : Type 0 where
  pub dials : Dict Bytes ℕ
  pub groups : Dict ℕ StripeGroup

abbrev pub new_accept_router : Dict Bytes ℕ → AcceptRouter
new_accept_router dials = record { dials = dials; groups = [] }

-- What `handle` does in the end. A stream that is refused is closed, and so is the whole group if
-- the local dial fails.
pub data Outcome : Type 0 where
  bad_header : HeaderError → Outcome
  unknown_tag out_of_range waits : Outcome
  dial_failed : ℕ → List (Option ℕ) → Outcome
  pumps : ℕ → List (Option ℕ) → Outcome

unfoldable pub all_ready : List (Option ℕ) → Bool
all_ready [] = true
all_ready (none ∷ ss) = false
all_ready (some s ∷ ss) = all_ready ss

abbrev pub new_group : StreamHeader → StripeGroup
new_group h = record {
  tag = h.tag;
  num_stripes = h.num_stripes;
  streams = replicate h.num_stripes none;
}

abbrev pub or_new : Option StripeGroup → StreamHeader → StripeGroup
or_new none h = new_group h
or_new (some g) h = g

-- The group for this session id, found or created.
abbrev pub group_for : AcceptRouter → StreamHeader → StripeGroup
group_for a h = or_new (lookup h.session_id a.groups) h

-- `ports` tells whether a local dial succeeds.
abbrev pub dial_group : (ℕ → Bool) → ℕ → List (Option ℕ) → Outcome
dial_group ports port streams = if ports port then pumps port streams else dial_failed port streams

-- The section under `groupsMu`, with the group `g`, and the dial behind it.
unfoldable pub join_group :
    (ℕ → Bool) → AcceptRouter → ℕ → StreamHeader → ℕ → StripeGroup → AcceptRouter × Outcome
unfolding all_ready
join_group ports a s h port g =
    let streams = set g.streams h.stripe_idx (some s) in
    let g' = record g { streams = streams } in
    if leb (length g.streams) h.stripe_idx
    then (record a { groups = insert h.session_id g a.groups }, out_of_range)
    else if all_ready streams
    then (record a { groups = delete h.session_id a.groups }, dial_group ports port streams)
    else (record a { groups = insert h.session_id g' a.groups }, waits)

abbrev pub by_port :
    (ℕ → Bool) → AcceptRouter → ℕ → StreamHeader → Option ℕ → AcceptRouter × Outcome
by_port ports a s h none = (a, unknown_tag)
by_port ports a s h (some port) = join_group ports a s h port (group_for a h)

unfoldable pub handle_header : (ℕ → Bool) → AcceptRouter → ℕ → StreamHeader → AcceptRouter × Outcome
handle_header ports a s h = by_port ports a s h (lookup h.tag a.dials)

unfoldable pub handle : (ℕ → Bool) → AcceptRouter → ℕ → Reader → AcceptRouter × Outcome
unfolding handle_header
handle ports a s r = elim (read_stream_header r) [
  | err e ↦ (a, bad_header e)
  | ok (h, _) ↦ handle_header ports a s h
]

-- The streams that `handle` closes itself.
abbrev pub closed_by : ℕ → Outcome → List (Option ℕ)
closed_by s (bad_header e) = some s ∷ []
closed_by s unknown_tag = some s ∷ []
closed_by s out_of_range = some s ∷ []
closed_by s waits = []
closed_by s (dial_failed port streams) = streams
closed_by s (pumps port streams) = []

-- The streams of a run, one after the other in the order in which they take the lock.
pub run_headers : (ℕ → Bool) → AcceptRouter → List (ℕ × StreamHeader) → AcceptRouter
run_headers ports a [] = a
run_headers ports a ((s, h) ∷ hs) = run_headers ports (handle_header ports a s h).0 hs

-- `Run`, over what `AcceptStream` returns: a stream with what arrives on it, or the error that ends
-- the loop. Each stream's `handle` takes its turn at the lock in this order.
unfoldable pub run_accepts :
    (ℕ → Bool) → AcceptRouter → List (Option (ℕ × Reader)) → AcceptRouter × List Outcome
run_accepts ports a [] = (a, [])
run_accepts ports a (none ∷ accepts) = (a, [])
run_accepts ports a (some (s, r) ∷ accepts) =
    let (a', o) = handle ports a s r in
    let (a'', os) = run_accepts ports a' accepts in (a'', o ∷ os)
