-- ===== src/Forward/Router/Sessions.antt =====
-- How `AcceptRouter` (internal/forward/forward.go) puts one session's stripes together while the
-- streams of other sessions arrive between them.
use mathlib.Core.Path.{subst}
use nl_punch.Prelude.{
  ℕ, zero, suc, ◌<◌, [], ◌∷◌, List, Bytes, nat_eq, string_eq, ◌==◌, ==_iff, Bool, true, false,
  if◌then◌else◌, length, set, replicate, length-set, length-replicate, All, Option, none, some, ◌≡◌,
  ◌≢◌, refl, sym, ap, ◌∙◌, arith, Bool-cases, inl, inr,
}
use nl_punch.Prelude.Dict.{lookup}
use nl_punch.Forward.Header.{StreamHeader}
use nl_punch.Forward.Router.{
  AcceptRouter, Outcome, waits, all_ready, dial_group, join_group, handle_header, run_headers,
}
use nl_punch.Forward.Router.Invariant.{handle_header-others}
use nl_punch.Forward.Router.Joining.{held, settle_outcome, settle_waits, joined_header}

-- The headers of session `sid` agree: one tag, one number of stripes, indices in range.
abbrev pub IsStripeOf : ℕ → Bytes → ℕ → ℕ × StreamHeader → Type 0
IsStripeOf sid tag n (s, h) =
    h.session_id ≡ sid → (h.tag ≡ tag) × (h.num_stripes ≡ n) × (h.stripe_idx < n)

-- The places of session `sid` after these streams: each one of the session takes its own.
unfoldable pub places : ℕ → List (ℕ × StreamHeader) → List (Option ℕ) → List (Option ℕ)
places sid [] q = q
places sid ((s, h) ∷ hs) q =
    places sid hs (if h.session_id == sid then set q h.stripe_idx (some s) else q)

all_ready-set :
    (q : List (Option ℕ)) (i s : ℕ) → all_ready q ≡ true → all_ready (set q i (some s)) ≡ true
unfolding all_ready
all_ready-set [] i s h = refl
all_ready-set (none ∷ q) i s h = cc
all_ready-set (some x ∷ q) zero s h = h
all_ready-set (some x ∷ q) (suc i) s h = all_ready-set q i s h

-- A session that is complete stays complete.
all_ready-places :
    (sid : ℕ) (hs : List (ℕ × StreamHeader)) (q : List (Option ℕ))
    → all_ready q ≡ true
    → all_ready (places sid hs q) ≡ true
unfolding places
all_ready-places sid [] q h = h
all_ready-places sid ((s, h') ∷ hs) q h =
    all_ready-places sid hs _ (ground (arith, all_ready-set q h'.stripe_idx s h))

not_ready :
    (sid : ℕ) (hs : List (ℕ × StreamHeader)) (q : List (Option ℕ))
    → all_ready (places sid hs q) ≡ false
    → all_ready q ≡ false
not_ready sid hs q h = elim (Bool-cases (all_ready q)) [
  | inl full ↦ cc (h, all_ready-places sid hs q full)
  | inr free ↦ free
]

dials-kept :
    (ports : ℕ → Bool) (a : AcceptRouter) (s : ℕ) (h : StreamHeader)
    → (handle_header ports a s h).0.dials ≡ a.dials
unfolding handle_header join_group
dials-kept ports a s h = ground arith

length_next :
    (b : Bool) (q : List (Option ℕ)) (i : ℕ) (v : Option ℕ)
    → length (if b then set q i v else q) ≡ length q
length_next true q i v = length-set q i v
length_next false q i v = refl

-- One stream, of this session or of another.
step-places :
    (ports : ℕ → Bool) (sid n : ℕ) (tag : Bytes) (port : ℕ) (a : AcceptRouter) (s : ℕ)
    (h : StreamHeader)
    → lookup tag a.dials ≡ some port
    → IsStripeOf sid tag n (s, h)
    → length (held n (lookup sid a.groups)) ≡ n
    → all_ready (
        if h.session_id == sid
        then set (held n (lookup sid a.groups)) h.stripe_idx (some s)
        else held n (lookup sid a.groups))
      ≡ false
    → held n (lookup sid (handle_header ports a s h).0.groups) ≡ (
        if h.session_id == sid
        then set (held n (lookup sid a.groups)) h.stripe_idx (some s)
        else held n (lookup sid a.groups))
step-places ports sid n tag port a s h known mine len free =
    elim (Bool-cases (h.session_id == sid)) [
      | inl hit ↦
          let e = (==_iff h.session_id sid).0 hit in
          let (t, count, range) = mine e in
          let len' : length (held n (lookup h.session_id a.groups)) ≡ n = rw e len in
          let streams = set (held n (lookup h.session_id a.groups)) h.stripe_idx (some s) in
          let free' : all_ready streams ≡ false = rw e (rw hit at free) in
          let mine_now : held n (lookup h.session_id (handle_header ports a s h).0.groups)
              ≡ streams =
            ap (λ o. held n (lookup h.session_id o.0.groups))
              (joined_header ports a s port n h (rw t known) count range len')
            ∙ settle_waits ports a h port n streams free' in
          rw hit (
            subst
              (λ x.
                held n (lookup x (handle_header ports a s h).0.groups)
                ≡ set (held n (lookup x a.groups)) h.stripe_idx (some s))
              e mine_now)
      | inr miss ↦
          let apart : h.session_id ≢ sid = λ e. cc (sym miss, (==_iff h.session_id sid).1 e) in
          rw miss (ap (held n) (handle_header-others ports a s h sid apart))
    ]

-- The places of session `sid` after a run that does not complete it.
run-places :
    (ports : ℕ → Bool) (sid n : ℕ) (tag : Bytes) (port : ℕ) (hs : List (ℕ × StreamHeader))
    (a : AcceptRouter)
    → lookup tag a.dials ≡ some port
    → All (IsStripeOf sid tag n) hs
    → length (held n (lookup sid a.groups)) ≡ n
    → all_ready (places sid hs (held n (lookup sid a.groups))) ≡ false
    → (held n (lookup sid (run_headers ports a hs).groups)
        ≡ places sid hs (held n (lookup sid a.groups)))
      × (length (held n (lookup sid (run_headers ports a hs).groups)) ≡ n)
      × (lookup tag (run_headers ports a hs).dials ≡ some port)
unfolding run_headers places
run-places ports sid n tag port [] a known same len free = (refl, len, known)
run-places ports sid n tag port ((s, h) ∷ hs) a known same len free =
    let q = held n (lookup sid a.groups) in
    let next = if h.session_id == sid then set q h.stripe_idx (some s) else q in
    let a' = (handle_header ports a s h).0 in
    let e : held n (lookup sid a'.groups) ≡ next =
      step-places ports sid n tag port a s h known same.0 len (not_ready sid hs next free) in
    let known' : lookup tag a'.dials ≡ some port = rw (dials-kept ports a s h) known in
    let (ih, size, still) =
      run-places ports sid n tag port hs a' known' same.1
        (ap length e ∙ length_next (h.session_id == sid) q h.stripe_idx (some s) ∙ len)
        (rw e free) in
    (ih ∙ ap (places sid hs) e, size, still)

-- The stripe that completes a session is dialed with the stripes of exactly that session, each in
-- its own place; every other stripe of it waits. The streams of other sessions, in any number and
-- order between them, make no difference.
pub handle_header-places :
    (ports : ℕ → Bool) (sid n : ℕ) (tag : Bytes) (port : ℕ) (hs : List (ℕ × StreamHeader))
    (a : AcceptRouter) (s : ℕ) (h : StreamHeader)
    → lookup tag a.dials ≡ some port
    → lookup sid a.groups ≡ none
    → All (IsStripeOf sid tag n) hs
    → IsStripeOf sid tag n (s, h)
    → h.session_id ≡ sid
    → all_ready (places sid hs (replicate n none)) ≡ false
    → (handle_header ports (run_headers ports a hs) s h).1 ≡ (
        let streams = set (places sid hs (replicate n none)) h.stripe_idx (some s) in
        if all_ready streams then dial_group ports port streams else waits)
handle_header-places ports sid n tag port hs a s h known new same mine here free =
    let a' = run_headers ports a hs in
    let q₀ : held n (lookup sid a.groups) ≡ replicate n none = rw new in
    let (q, len, known') =
      run-places ports sid n tag port hs a known same (rw new (length-replicate n none))
        (rw q₀ free) in
    let (t, count, range) = mine here in
    let q' : held n (lookup h.session_id a'.groups) ≡ places sid hs (replicate n none) =
      rw here (q ∙ ap (places sid hs) q₀) in
    let streams = set (held n (lookup h.session_id a'.groups)) h.stripe_idx (some s) in
    let outcome : List (Option ℕ) → Outcome = λ x.
      if all_ready (set x h.stripe_idx (some s))
      then dial_group ports port (set x h.stripe_idx (some s))
      else waits in
    ap (λ o. o.1) (joined_header ports a' s port n h (rw t known') count range (rw here len))
    ∙ settle_outcome ports a' h port streams
    ∙ ap outcome q'
