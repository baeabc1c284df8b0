-- ===== src/Tests/Router.antt =====
-- A session of two stripes whose streams arrive with another session's stream between them.
use nl_punch.Prelude.{
  ℕ, zero, suc, ◌<◌, Option, length, [], ◌∷◌, List, Bytes, nat_eq, string_eq, bytes_eq, Bool, true,
  false, if◌then◌else◌, set, replicate, none, some, ◌≡◌, ◌≢◌, refl, arith,
}
use nl_punch.Prelude.Dict.{lookup}
use nl_punch.Stream.{eof, Reader}
use nl_punch.Forward.Header.{StreamHeader}
use nl_punch.Forward.Router.{
  AcceptRouter, new_accept_router, dial_group, all_ready, handle_header, run_headers, run_accepts,
  waits,
}
use nl_punch.Forward.Router.Invariant.{IsValid, handle_header-others}
use nl_punch.Forward.Router.Runs.{run_accepts-IsValid}
use nl_punch.Forward.Router.Complete.{has_come, handle_header_complete}
use nl_punch.Forward.Router.Sessions.{places, handle_header-places}

abbrev web : Bytes
web = b'w' ∷ []

abbrev table : AcceptRouter
table = new_accept_router ((web, 8080) ∷ [])

abbrev up : ℕ → Bool
up port = true

abbrev stripe : ℕ → ℕ → StreamHeader
stripe sid i = record { tag = web; session_id = sid; stripe_idx = i; num_stripes = 2 }

abbrev earlier : List (ℕ × StreamHeader)
earlier = (11, stripe 5 1) ∷ (12, stripe 6 0) ∷ []

has_web : lookup web table.dials ≡ some 8080
unfolding lookup bytes_eq
has_web = refl

is_new : lookup 5 table.groups ≡ none
unfolding lookup
is_new = refl

one_free : all_ready (places 5 earlier (replicate 2 none)) ≡ false
unfolding places all_ready
one_free = refl

handle_header-places_example :
    (handle_header up (run_headers up table earlier) 13 (stripe 5 0)).1 ≡ (
      let streams = set (places 5 earlier (replicate 2 none)) 0 (some 13) in
      if all_ready streams then dial_group up 8080 streams else waits)
handle_header-places_example =
    handle_header-places up 5 2 web 8080 earlier table 13 (stripe 5 0) has_web is_new
      (λ e. (refl, refl, omega arith), ((λ e. (refl, refl, omega arith)), tt))
      (λ e. (refl, refl, omega arith)) refl one_free

-- Stripe 1 of session 5 has come, stripe 0 is the one that was missing.
others_came : (i : ℕ) → i < 2 → i ≢ 0 → has_come 5 i earlier ≡ true
unfolding has_come
others_came zero range ne = absurd (ne refl)
others_came (suc zero) range ne = refl
others_came (suc (suc i)) range ne = absurd (omega (arith, range))

not_come : has_come 5 0 earlier ≡ false
unfolding has_come
not_come = refl

handle_header_complete_example :
    (streams : List (Option ℕ)) × ((handle_header up
        (run_headers up table earlier)
        13
        (stripe 5 0)).1
      ≡ dial_group up 8080 streams)
    × (all_ready streams ≡ true)
    × (length streams ≡ 2)
handle_header_complete_example =
    handle_header_complete up 5 2 web 8080 earlier table 13 (stripe 5 0) has_web is_new
      (λ e. (refl, refl, omega arith), ((λ e. (refl, refl, omega arith)), tt))
      (λ e. (refl, refl, omega arith)) refl not_come others_came

-- A stream with a bad header, one stripe of two, and the error that ends the loop.
abbrev accepts : List (Option (ℕ × Reader))
accepts =
    some (11, record { rest = []; fault = eof })
    ∷ some
        (12, record { rest = 1 ∷ b'w' ∷ 0 ∷ 0 ∷ 0 ∷ 0 ∷ 0 ∷ 0 ∷ 0 ∷ 5 ∷ 0 ∷ 2 ∷ []; fault = eof })
    ∷ none
    ∷ []

run_accepts-IsValid_example :
    IsValid (run_accepts up (new_accept_router ((web, 8080) ∷ [])) accepts).0
run_accepts-IsValid_example = run_accepts-IsValid up ((web, 8080) ∷ []) accepts

apart : (stripe 5 0).session_id ≢ 6
apart e = omega (arith, e)

handle_header-others_example :
    lookup 6 (handle_header up table 11 (stripe 5 0)).0.groups ≡ lookup 6 table.groups
handle_header-others_example = handle_header-others up table 11 (stripe 5 0) 6 apart
