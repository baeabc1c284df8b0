-- ===== src/Signaling.antt =====
-- internal/signaling: the rendezvous at which the peers exchange offers and answers.
pub mod Server
pub mod Client
use nl_punch.Prelude.{Bytes, List}

-- internal/signaling/types.go; `Answer` is the same type.
pub record Offer : Type 0 where
  pub ufrag : Bytes
  pub pwd : Bytes
  pub candidates : List Bytes
  pub gen : Bytes
