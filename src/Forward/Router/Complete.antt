-- ===== src/Forward/Router/Complete.antt =====
-- When `AcceptRouter` (internal/forward/forward.go) dials: a session is complete with the last of its
-- stripes, in whatever order they come.
use nl_punch.Prelude.{
  ℕ, zero, suc, ◌<◌, [], ◌∷◌, List, Bytes, nat_eq, string_eq, ◌==◌, ==_iff, ◌&&◌, ◌||◌, Bool, true,
  false, length, get_elem?, set, replicate, length-set, get_elem?-set_self, get_elem?-set_ne,
  get_elem?-replicate, length-replicate, All, Option, none, some, ◌≡◌, ◌≢◌, ◌⊎◌, refl, sym, ap, ◌∙◌,
  arith, Bool-cases, inl, inr,
}
use nl_punch.Prelude.Dict.{lookup}
use nl_punch.Forward.Header.{StreamHeader}
use nl_punch.Forward.Router.{AcceptRouter, all_ready, dial_group, handle_header, run_headers}
use nl_punch.Forward.Router.Sessions.{IsStripeOf, places, handle_header-places}

-- Stripe `i` of session `sid` is among these streams.
unfoldable pub has_come : ℕ → ℕ → List (ℕ × StreamHeader) → Bool
has_come sid i [] = false
has_come sid i ((s, h) ∷ hs) = (h.session_id == sid && h.stripe_idx == i) || has_come sid i hs

all_ready_of :
    (q : List (Option ℕ))
    → ((i : ℕ) → i < length q → (s : ℕ) × (get_elem? q i ≡ some (some s)))
    → all_ready q ≡ true
unfolding all_ready
all_ready_of [] h = refl
all_ready_of (none ∷ q) h = let (s, e) = h 0 (omega arith) in cc e
all_ready_of (some s ∷ q) h = all_ready_of q (λ i lt. h (suc i) (omega arith))

not_ready : (q : List (Option ℕ)) (i : ℕ) → get_elem? q i ≡ some none → all_ready q ≡ false
unfolding all_ready
not_ready [] i e = cc e
not_ready (none ∷ q) i e = refl
not_ready (some s ∷ q) zero e = cc e
not_ready (some s ∷ q) (suc i) e = not_ready q i e

came_later :
    (sid i s : ℕ) (h : StreamHeader) (hs : List (ℕ × StreamHeader)) (q : List (Option ℕ))
    → (h.session_id == sid) ≡ false
    → (has_come sid i ((s, h) ∷ hs) ≡ true) ⊎ ((t : ℕ) × (get_elem? q i ≡ some (some t)))
    → (has_come sid i hs ≡ true) ⊎ ((t : ℕ) × (get_elem? q i ≡ some (some t)))
unfolding has_come
came_later sid i s h hs q other (inl came) = inl (ground arith)
came_later sid i s h hs q other (inr there) = inr there

came_now :
    (sid i s : ℕ) (h : StreamHeader) (hs : List (ℕ × StreamHeader)) (q : List (Option ℕ))
    → (h.session_id == sid) ≡ true
    → h.stripe_idx < length q
    → (has_come sid i ((s, h) ∷ hs) ≡ true) ⊎ ((t : ℕ) × (get_elem? q i ≡ some (some t)))
    → (has_come sid i hs ≡ true)
      ⊎ ((t : ℕ) × (get_elem? (set q h.stripe_idx (some s)) i ≡ some (some t)))
unfolding has_come
came_now sid i s h hs q mine range came = elim (Bool-cases (h.stripe_idx == i)) [
  | inl here ↦
      let e : h.stripe_idx ≡ i = (==_iff h.stripe_idx i).0 here in
      inr (
        s,
        ap (get_elem? (set q h.stripe_idx (some s))) (sym e)
            ∙ get_elem?-set_self q h.stripe_idx (some s) range,
      )
  | inr there ↦ elsewhere came there
]
  where
    elsewhere :
        (has_come sid i ((s, h) ∷ hs) ≡ true) ⊎ ((t : ℕ) × (get_elem? q i ≡ some (some t)))
        → (h.stripe_idx == i) ≡ false
        → (has_come sid i hs ≡ true)
          ⊎ ((t : ℕ) × (get_elem? (set q h.stripe_idx (some s)) i ≡ some (some t)))
    elsewhere (inl came) there = inl (ground arith)
    elsewhere (inr (t, e)) there =
        inr (t, get_elem?-set_ne q (some s) (λ f. cc (sym there ∙ (==_iff h.stripe_idx i).1 f)) ∙ e)

-- A place that is filled stays filled, and one that no stripe takes stays as it is.
places_filled :
    (sid n : ℕ) (tag : Bytes) (hs : List (ℕ × StreamHeader)) (q : List (Option ℕ)) (i : ℕ)
    → All (IsStripeOf sid tag n) hs
    → length q ≡ n
    → (has_come sid i hs ≡ true) ⊎ ((s : ℕ) × (get_elem? q i ≡ some (some s)))
    → (s : ℕ) × (get_elem? (places sid hs q) i ≡ some (some s))
unfolding places has_come
places_filled sid n tag [] q i known len (inl came) = cc came
places_filled sid n tag [] q i known len (inr there) = there
places_filled sid n tag ((s, h) ∷ hs) q i known len came = elim (Bool-cases (h.session_id == sid)) [
  | inr other ↦
      rw other (places_filled sid n tag hs q i known.1 len (came_later sid i s h hs q other came))
  | inl mine ↦
      let (_, _, range) = known.0 ((==_iff h.session_id sid).0 mine) in
      rw mine (
        places_filled sid n tag hs (set q h.stripe_idx (some s)) i known.1
          (length-set q h.stripe_idx (some s) ∙ len)
          (came_now sid i s h hs q mine (omega (arith, range, len)) came))
]

other_place :
    (sid i s : ℕ) (g : StreamHeader) (hs : List (ℕ × StreamHeader))
    → (g.session_id == sid) ≡ true
    → has_come sid i ((s, g) ∷ hs) ≡ false
    → g.stripe_idx ≢ i
unfolding has_come
other_place sid i s g hs mine h e = ground arith

places_free :
    (sid : ℕ) (hs : List (ℕ × StreamHeader)) (q : List (Option ℕ)) (i : ℕ)
    → has_come sid i hs ≡ false
    → get_elem? (places sid hs q) i ≡ get_elem? q i
unfolding places has_come
places_free sid [] q i h = refl
places_free sid ((s, g) ∷ hs) q i h = elim (Bool-cases (g.session_id == sid)) [
  | inr other ↦ rw other (places_free sid hs q i (ground arith))
  | inl mine ↦ rw mine (
      places_free sid hs (set q g.stripe_idx (some s)) i (ground arith)
      ∙ get_elem?-set_ne q (some s) (λ e. other_place sid i s g hs mine h e))
]

length-places :
    (sid : ℕ) (hs : List (ℕ × StreamHeader)) (q : List (Option ℕ))
    → length (places sid hs q) ≡ length q
unfolding places
length-places sid [] q = refl
length-places sid ((s, h) ∷ hs) q = elim (Bool-cases (h.session_id == sid)) [
  | inr other ↦ rw other (length-places sid hs q)
  | inl mine ↦
      rw mine
        (length-places sid hs (set q h.stripe_idx (some s)) ∙ length-set q h.stripe_idx (some s))
]

-- If a stream brings the last stripe of its session that was missing, the router dials at once, with
-- one stream in each place, in whatever order the stripes have come and with any streams of other
-- sessions between them. The headers of the session agree on its tag and its number of stripes.
pub handle_header_complete :
    (ports : ℕ → Bool) (sid n : ℕ) (tag : Bytes) (port : ℕ) (hs : List (ℕ × StreamHeader))
    (a : AcceptRouter) (s : ℕ) (h : StreamHeader)
    → lookup tag a.dials ≡ some port
    → lookup sid a.groups ≡ none
    → All (IsStripeOf sid tag n) hs
    → IsStripeOf sid tag n (s, h)
    → h.session_id ≡ sid
    → has_come sid h.stripe_idx hs ≡ false
    → ((i : ℕ) → i < n → i ≢ h.stripe_idx → has_come sid i hs ≡ true)
    → (streams : List (Option ℕ)) × ((handle_header ports (run_headers ports a hs) s h).1
        ≡ dial_group ports port streams)
      × (all_ready streams ≡ true)
      × (length streams ≡ n)
handle_header_complete ports sid n tag port hs a s h known new same mine here first others =
    let q : List (Option ℕ) = places sid hs (replicate n none) in
    let len : length q ≡ n = length-places sid hs (replicate n none) ∙ length-replicate n none in
    let (_, _, range) = mine here in
    let free =
      places_free sid hs (replicate n none) h.stripe_idx first
      ∙ get_elem?-replicate n none h.stripe_idx range in
    let streams = set q h.stripe_idx (some s) in
    let filled : (i : ℕ) → i < length streams → (t : ℕ) × (get_elem? streams i ≡ some (some t)) =
      λ i lt. elim (Bool-cases (i == h.stripe_idx)) [
        | inl last ↦
            let e : i ≡ h.stripe_idx = (==_iff i h.stripe_idx).0 last in
            (
              s,
              ap (get_elem? streams) e
                  ∙ get_elem?-set_self q h.stripe_idx (some s) (omega (arith, range, len)),
            )
        | inr other ↦
            let apart : i ≢ h.stripe_idx = λ e. cc (sym other ∙ (==_iff i h.stripe_idx).1 e) in
            let inside : i < n = omega (arith, lt, len, length-set q h.stripe_idx (some s)) in
            let (t, e) =
              places_filled sid n tag hs (replicate n none) i same (length-replicate n none)
                (inl (others i inside apart)) in
            (t, get_elem?-set_ne q (some s) (λ f. apart (sym f)) ∙ e)
      ] in
    let ready = all_ready_of streams filled in
    (
      streams,
      handle_header-places ports sid n tag port hs a s h known new same mine here
            (not_ready q h.stripe_idx free)
          ∙ rw ready refl,
      ready,
      length-set q h.stripe_idx (some s) ∙ len,
    )
