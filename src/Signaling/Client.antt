-- ===== src/Signaling/Client.antt =====
-- internal/signaling/client.go. An HTTP exchange is an error before there is a response, or
-- a status with the body as the JSON decoder leaves it. A run of polls is the list of
-- the exchanges that its requests meet; when the list is used up the context is done.
pub mod Polls
pub mod Answers
pub mod Base
pub mod Requests
use nl_punch.Prelude.{
  [], ℕ, ◌-◌, ◌∷◌, ◌++◌, List, Bytes, codes, nat_eq, string_eq, bytes_eq, ◌==◌, leb, ◌&&◌, ◌||◌,
  Bool, true, false, if◌then◌else◌, length, drop, Option, none, some,
}
use nl_punch.Stream.{Result, ok, err}
use nl_punch.Signaling.{Offer}
use nl_punch.Signaling.Server.{not_found, no_content, unauthorized}

pub data ClientError : Type 0 where
  err_not_found not_decoded connection_failed context_done : ClientError
  refused : ClientError
  unexpected_status : ℕ → ClientError

-- `IsNotFound`
abbrev pub is_not_found : ClientError → Bool
is_not_found err_not_found = true
is_not_found _ = false

pub data Exchange : Type 0 where
  failed : Exchange
  responded : ℕ → Option Offer → Exchange

abbrev decoded : Option Offer → Result ClientError Offer
decoded none = err not_decoded
decoded (some o) = ok o

abbrev no_offer : Offer
no_offer = record { ufrag = []; pwd = []; candidates = []; gen = [] }

-- The switch of `do`, with a place for the result; it stays empty on a 204.
unfoldable pub on_status : ℕ → Option Offer → Result ClientError Offer
on_status status body =
    if status == 200
    then decoded body
    else if status == no_content
    then ok no_offer
    else if status == not_found
    then err err_not_found
    else if status == unauthorized
    then err refused
    else err (unexpected_status status)

-- `do`, as `GetOffer` and `GetAnswer` call it.
unfoldable pub do_get : Exchange → Result ClientError Offer
unfolding on_status
do_get failed = err connection_failed
do_get (responded status body) = on_status status body

-- `do`, as `PostOffer` and `PostAnswer` call it: with no place for a result.
abbrev to_error : Result ClientError Offer → Option ClientError
to_error (ok o) = none
to_error (err e) = some e

unfoldable pub do_post : Exchange → Option ClientError
unfolding on_status
do_post failed = some connection_failed
do_post (responded status body) = if status == 200 then none else to_error (on_status status body)

-- The generation that is asked for; the empty one accepts any answer.
abbrev pub is_wanted : Bytes → Offer → Bool
is_wanted want_gen a = bytes_eq want_gen [] || bytes_eq a.gen want_gen

-- After one request of `AwaitAnswerMatching`; `later` is what the next requests lead to.
abbrev pub on_answer :
    Bytes → Result ClientError Offer → Result ClientError Offer → Result ClientError Offer
on_answer want_gen (ok a) later = if is_wanted want_gen a then ok a else later
on_answer want_gen (err e) later = if is_not_found e then later else err e

unfoldable pub await_answer_matching : Bytes → List Exchange → Result ClientError Offer
unfolding do_get
await_answer_matching want_gen [] = err context_done
await_answer_matching want_gen (x ∷ xs) =
    let later = await_answer_matching want_gen xs in on_answer want_gen (do_get x) later

-- `AwaitAnswer`
abbrev pub await_answer : List Exchange → Result ClientError Offer
await_answer xs = await_answer_matching [] xs

abbrev on_offer : Result ClientError Offer → Result ClientError Offer → Result ClientError Offer
on_offer (ok o) later = ok o
on_offer (err e) later = if is_not_found e then later else err e

unfoldable pub await_offer : List Exchange → Result ClientError Offer
unfolding do_get
await_offer [] = err context_done
await_offer (x ∷ xs) = let later = await_offer xs in on_offer (do_get x) later

-- `NewClient`: strings.TrimRight(baseURL, "/"), then the suffix "/punch" if it is not there.
abbrev pub drop_slash : ℕ → Bytes → Bytes
drop_slash b [] = if b == b'/' then [] else b ∷ []
drop_slash b (c ∷ s) = b ∷ c ∷ s

unfoldable pub trim_right : Bytes → Bytes
trim_right [] = []
trim_right (b ∷ s) = drop_slash b (trim_right s)

abbrev pub punch : Bytes
punch = codes "/punch"

unfoldable pub has_suffix : Bytes → Bytes → Bool
has_suffix suffix s =
    leb (length suffix) (length s) && bytes_eq (drop (length s - length suffix) s) suffix

unfoldable pub client_base : Bytes → Bytes
unfolding trim_right has_suffix
client_base url = let base = trim_right url in if has_suffix punch base then base else base ++ punch
