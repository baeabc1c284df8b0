-- ===== src/Signaling/Client/Answers.antt =====
-- `AwaitAnswerMatching` of internal/signaling/client.go, by the responses of the server: which polls it
-- passes over, and which one ends it, and how.
use nl_punch.Prelude.{[], Bytes, nat_eq, string_eq, Option, none, some, ◌≡◌, ◌≢◌}
use nl_punch.Stream.{Result, ok, err}
use nl_punch.Signaling.{Offer}
use nl_punch.Signaling.Client.{
  ClientError, not_decoded, connection_failed, refused, Exchange, failed, responded,
}

-- There is no answer yet, or it is one of another generation than the one that is asked for.
pub data IsEarly (want_gen : Bytes) : Exchange → Type 0 where
  missing : (body : Option Offer) → IsEarly want_gen (responded 404 body)
  stale : (a : Offer) → want_gen ≢ [] → a.gen ≢ want_gen → IsEarly want_gen (responded 200 (some a))

-- The exchanges that end the polling, with what it returns then.
pub data Decides (want_gen : Bytes) : Exchange → Result ClientError Offer → Type 0 where
  matches : (a : Offer) → a.gen ≡ want_gen → Decides want_gen (responded 200 (some a)) (ok a)
  unasked : (a : Offer) → want_gen ≡ [] → Decides want_gen (responded 200 (some a)) (ok a)
  garbled : Decides want_gen (responded 200 none) (err not_decoded)
  forbidden : (body : Option Offer) → Decides want_gen (responded 401 body) (err refused)
  breaks : Decides want_gen failed (err connection_failed)
