-- ===== src/Forward/Router/Invariant.antt =====
-- The table of stripe groups of `AcceptRouter` (internal/forward/forward.go): what it holds between
-- two streams, and which part of it a stream can change.
use mathlib.Core.Path.{subst}
use nl_punch.Prelude.{
  ℕ, zero, suc, ◌<◌, Bytes, nat_eq, string_eq, ◌==◌, leb, Bool, false, length, set, replicate,
  length-set, length-replicate, none, some, some-injective, ◌≡◌, ◌≢◌, ◌⊎◌, refl, ◌∙◌, arith,
  Option-cases, Bool-cases, inl, inr,
}
use nl_punch.Prelude.Dict.{Dict, lookup, insert, delete, lookup-delete, lookup-insert}
use nl_punch.Stream.{Reader, Result, ok, err}
use nl_punch.Forward.Header.{StreamHeader, read_stream_header}
use nl_punch.Forward.Header.Accepts.{read_stream_header-stripes}
use nl_punch.Forward.Router.{
  StripeGroup, AcceptRouter, new_accept_router, all_ready, new_group, group_for, join_group,
  by_port, handle_header, handle,
}

-- A group in the table waits for a stripe: it has a place for each, and some place is free.
pub record IsPartial (g : StripeGroup) : Type 0 where
  pub sized : length g.streams ≡ g.num_stripes
  pub waiting : all_ready g.streams ≡ false

abbrev pub IsValid : AcceptRouter → Type 0
IsValid a = (sid : ℕ) (g : StripeGroup) → lookup sid a.groups ≡ some g → IsPartial g

pub new-IsValid : (dials : Dict Bytes ℕ) → IsValid (new_accept_router dials)
unfolding lookup
new-IsValid dials sid g e = cc

none_ready : (n : ℕ) → 0 < n → all_ready (replicate n none) ≡ false
unfolding all_ready
none_ready zero pos = absurd (omega arith)
none_ready (suc n) pos = refl

new_group-IsPartial : (h : StreamHeader) → 0 < h.num_stripes → IsPartial (new_group h)
new_group-IsPartial h pos = record {
  sized = length-replicate h.num_stripes none;
  waiting = none_ready h.num_stripes pos;
}

group_for-IsPartial :
    (a : AcceptRouter) (h : StreamHeader)
    → IsValid a
    → 0 < h.num_stripes
    → IsPartial (group_for a h)
group_for-IsPartial a h v pos = elim (Option-cases (lookup h.session_id a.groups)) [
  | inl fresh ↦ rw fresh (new_group-IsPartial h pos)
  | inr (g, e) ↦ rw e (v h.session_id g e)
]

insert-IsValid :
    (a : AcceptRouter) (sid : ℕ) (g : StripeGroup)
    → IsValid a
    → IsPartial g
    → IsValid (record a { groups = insert sid g a.groups })
insert-IsValid a sid g v part k g' e = elim (Bool-cases (sid == k)) [
  | inl hit ↦
      let same : some g ≡ some g' = ground (arith, lookup-insert sid k g a.groups) in
      subst (λ x. IsPartial x) (some-injective _ _ same) part
  | inr miss ↦ v k g' (ground (arith, lookup-insert sid k g a.groups))
]

delete-IsValid :
    (a : AcceptRouter) (sid : ℕ) → IsValid a → IsValid (record a { groups = delete sid a.groups })
delete-IsValid a sid v k g e = v k g (ground (arith, lookup-delete sid k a.groups, e))

join_group-IsValid :
    (ports : ℕ → Bool) (a : AcceptRouter) (s : ℕ) (h : StreamHeader) (port : ℕ) (g : StripeGroup)
    → IsValid a
    → IsPartial g
    → IsValid (join_group ports a s h port g).0
unfolding join_group
join_group-IsValid ports a s h port g v part =
    let streams = set g.streams h.stripe_idx (some s) in
    elim (Bool-cases (leb (length g.streams) h.stripe_idx)) [
      | inl outside ↦ rw outside (insert-IsValid a h.session_id g v part)
      | inr inside ↦ elim (Bool-cases (all_ready streams)) [
        | inl full ↦ rw (inside, full) (delete-IsValid a h.session_id v)
        | inr partial ↦
            rw (inside, partial)
              (insert-IsValid a h.session_id (record g { streams = streams }) v
                (record {
                  sized = length-set g.streams h.stripe_idx (some s) ∙ part.sized;
                  waiting = partial;
                }))
      ]
    ]

-- Each stream with a header that can be read leaves the table valid: the groups that it holds have
-- a place for each of their stripes, and each of them still waits for one.
handle_header-IsValid :
    (ports : ℕ → Bool) (a : AcceptRouter) (s : ℕ) (h : StreamHeader)
    → 0 < h.num_stripes
    → IsValid a
    → IsValid (handle_header ports a s h).0
unfolding handle_header
handle_header-IsValid ports a s h pos v = elim (Option-cases (lookup h.tag a.dials)) [
  | inl unknown ↦ rw (unknown, by_port) v
  | inr (port, e) ↦
      rw (e, by_port)
        (join_group-IsValid ports a s h port (group_for a h) v (group_for-IsPartial a h v pos))
]

Result-cases {ℓ κ} :
    {E : Type ℓ} {A : Type κ} (r : Result E A) → ((e : E) × (r ≡ err e)) ⊎ ((a : A) × (r ≡ ok a))
Result-cases (ok a) = inr (a, refl)
Result-cases (err e) = inl (e, refl)

-- Whatever bytes arrive on whatever stream, `handle` keeps the table valid.
pub handle-IsValid :
    (ports : ℕ → Bool) (a : AcceptRouter) (s : ℕ) (r : Reader)
    → IsValid a
    → IsValid (handle ports a s r).0
unfolding handle
handle-IsValid ports a s r v = elim (Result-cases (read_stream_header r)) [
  | inl (e, bad) ↦ rw (bad, handle) v
  | inr ((h, r'), good) ↦
      rw (good, handle) (handle_header-IsValid ports a s h (read_stream_header-stripes r good) v)
]

join_group-others :
    (ports : ℕ → Bool) (a : AcceptRouter) (s : ℕ) (h : StreamHeader) (port : ℕ) (g : StripeGroup)
    (sid : ℕ)
    → h.session_id ≢ sid
    → lookup sid (join_group ports a s h port g).0.groups ≡ lookup sid a.groups
unfolding join_group
join_group-others ports a s h port g sid apart = ground (
  arith,
  lookup-insert h.session_id sid g a.groups,
  lookup-insert h.session_id sid (record g { streams = set g.streams h.stripe_idx (some s) })
      a.groups,
  lookup-delete h.session_id sid a.groups,
)

-- A stream touches the group of its own session id and no other.
pub handle_header-others :
    (ports : ℕ → Bool) (a : AcceptRouter) (s : ℕ) (h : StreamHeader) (sid : ℕ)
    → h.session_id ≢ sid
    → lookup sid (handle_header ports a s h).0.groups ≡ lookup sid a.groups
unfolding handle_header
handle_header-others ports a s h sid apart = elim (Option-cases (lookup h.tag a.dials)) [
  | inl unknown ↦ rw (unknown, by_port)
  | inr (port, e) ↦ rw (e, by_port) (join_group-others ports a s h port (group_for a h) sid apart)
]
