-- ===== src/Tests/Client.antt =====
-- Polls that meet no answer, then one of an earlier generation, then the one that is waited for.
use nl_punch.Prelude.{
  ℕ, [], ◌∷◌, ◌++◌, List, Bytes, nat_eq, string_eq, bytes_eq, none, some, ◌≡◌, ◌≢◌, refl,
}
use nl_punch.Stream.{ok}
use nl_punch.Signaling.{Offer}
use nl_punch.Signaling.Client.{Exchange, responded, do_get, on_status, await_answer_matching}
use nl_punch.Signaling.Client.Polls.{await_answer_matching-gen}

abbrev answer : ℕ → Offer
answer gen = record { ufrag = 1 ∷ []; pwd = 2 ∷ []; candidates = []; gen = gen ∷ [] }

abbrev gen : Bytes
gen = 6 ∷ []

abbrev head_or : ℕ → Bytes → ℕ
head_or n [] = n
head_or n (b ∷ s) = b

abbrev early : List Exchange
early = responded 404 none ∷ responded 200 (some (answer 5)) ∷ []

abbrev last : Exchange
last = responded 200 (some (answer 6))

is_answered : await_answer_matching gen (early ++ last ∷ []) ≡ ok (answer 6)
unfolding await_answer_matching do_get on_status bytes_eq
is_answered = refl

gen-IsGiven : gen ≢ []
gen-IsGiven e = cc e

await_answer_matching-gen_example : (answer 6).gen ≡ gen
await_answer_matching-gen_example =
    await_answer_matching-gen gen (early ++ last ∷ []) (answer 6) gen-IsGiven is_answered
