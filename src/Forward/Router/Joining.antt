-- ===== src/Forward/Router/Joining.antt =====
-- One stripe at its group in `AcceptRouter` (internal/forward/forward.go): what the section under the
-- lock leaves in the table, and what it decides.
use nl_punch.Prelude.{
  ℕ, ◌<◌, List, nat_eq, string_eq, lt→leb, Bool, false, if◌then◌else◌, length, set, replicate,
  Option, none, some, ◌≡◌, ap, ◌∙◌, Option-cases, Bool-cases, inl, inr,
}
use nl_punch.Prelude.Dict.{lookup, insert, delete, lookup-insert_self}
use nl_punch.Forward.Header.{StreamHeader}
use nl_punch.Forward.Router.{
  StripeGroup, AcceptRouter, Outcome, waits, all_ready, group_for, dial_group, join_group, by_port,
  handle_header,
}

-- What the table holds for a session of `n` stripes.
abbrev pub held : ℕ → Option StripeGroup → List (Option ℕ)
held n none = replicate n none
held n (some g) = g.streams

group_streams :
    (a : AcceptRouter) (h : StreamHeader) (n : ℕ)
    → h.num_stripes ≡ n
    → (group_for a h).streams ≡ held n (lookup h.session_id a.groups)
group_streams a h n e = elim (Option-cases (lookup h.session_id a.groups)) [
  | inl fresh ↦ rw (fresh, e)
  | inr (g, found) ↦ rw found
]

-- What the section under the lock leaves and decides, once the stripe has its place in `streams`.
abbrev pub settle :
    (ℕ → Bool) → AcceptRouter → StreamHeader → ℕ → List (Option ℕ) → AcceptRouter × Outcome
settle ports a h port streams =
    if all_ready streams
    then (record a { groups = delete h.session_id a.groups }, dial_group ports port streams)
    else (
      record a {
        groups = insert h.session_id (record (group_for a h) { streams = streams }) a.groups;
      },
      waits,
    )

join_in_range :
    (ports : ℕ → Bool) (a : AcceptRouter) (s port : ℕ) (h : StreamHeader)
    → h.stripe_idx < length (group_for a h).streams
    → join_group ports a s h port (group_for a h)
      ≡ settle ports a h port (set (group_for a h).streams h.stripe_idx (some s))
unfolding join_group
join_in_range ports a s port h inside =
    rw (lt→leb (length (group_for a h).streams) h.stripe_idx inside)

pub settle_outcome :
    (ports : ℕ → Bool) (a : AcceptRouter) (h : StreamHeader) (port : ℕ) (streams : List (Option ℕ))
    → (settle ports a h port streams).1
      ≡ (if all_ready streams then dial_group ports port streams else waits)
settle_outcome ports a h port streams = elim (Bool-cases (all_ready streams)) [
  | inl full ↦ rw full
  | inr free ↦ rw free
]

pub settle_waits :
    (ports : ℕ → Bool) (a : AcceptRouter) (h : StreamHeader) (port n : ℕ)
    (streams : List (Option ℕ))
    → all_ready streams ≡ false
    → held n (lookup h.session_id (settle ports a h port streams).0.groups) ≡ streams
settle_waits ports a h port n streams free =
    rw (
      free,
      lookup-insert_self h.session_id (record (group_for a h) { streams = streams }) a.groups,
    )

module _ (ports : ℕ → Bool) (a : AcceptRouter) (s port n : ℕ) (h : StreamHeader)
    (known : lookup h.tag a.dials ≡ some port) (count : h.num_stripes ≡ n)
    (range : h.stripe_idx < n) (len : length (held n (lookup h.session_id a.groups)) ≡ n) where
  pub joined_header :
      handle_header ports a s h
      ≡ settle ports a h port (set (held n (lookup h.session_id a.groups)) h.stripe_idx (some s))
  unfolding handle_header
  joined_header =
      let same = group_streams a h n count in
      let inside : h.stripe_idx < length (group_for a h).streams = rw (same, len) range in
      let opened : handle_header ports a s h ≡ join_group ports a s h port (group_for a h) =
        rw (known, by_port) in
      opened
      ∙ join_in_range ports a s port h inside
      ∙ ap (λ q. settle ports a h port (set q h.stripe_idx (some s))) same
