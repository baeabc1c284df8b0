-- ===== src/Transport/Accept.antt =====
-- `acceptLoop`, `AcceptStream` and `Close` of internal/transport/transport.go, over the channel
-- `acceptCh` that they share, interleaved in any order. A loop is where the goroutine of one
-- connection stands. The logs of the streams are not part of the program.
pub mod Order
use nl_punch.Prelude.{
  [], ℕ, ◌<◌, ◌∷◌, ◌++◌, List, nat_eq, ◌==◌, ltb, ◌&&◌, not, Bool, true, false, if◌then◌else◌,
  length, ◌≡◌,
}

-- The channel's buffer.
abbrev pub accept_size : ℕ
accept_size = 64

-- `acceptResult`: a stream of a connection, or the error that ended its loop.
pub data AcceptResult : Type 0 where
  stream : ℕ → ℕ → AcceptResult
  failure : ℕ → AcceptResult

-- Waiting in `AcceptStream` of the connection; waiting to send a stream; returned, with the stream
-- that it could not send.
pub data Loop : Type 0 where
  running : Loop
  holds : ℕ → Loop
  ended : List ℕ → Loop

pub record Hub : Type 0 where
  pub channel : List AcceptResult
  pub loops : ℕ → Loop
  pub closed : Bool
  -- close(s.acceptCh)
  pub sealed : Bool
  pub accepted : List AcceptResult
  pub taken : List AcceptResult

abbrev new_hub : Hub
new_hub = record {
  channel = [];
  loops = λ i. running;
  closed = false;
  sealed = false;
  accepted = [];
  taken = [];
}

abbrev pub update : (ℕ → Loop) → ℕ → Loop → ℕ → Loop
update loops i l j = if i == j then l else loops j

-- The error is sent only while the session is not closed and there is room.
abbrev pub report : Hub → ℕ → List AcceptResult
report s i =
    if not s.closed && ltb (length s.channel) accept_size
    then s.channel ++ failure i ∷ []
    else s.channel

-- The steps of a session over `n` connections.
pub data Step (n : ℕ) (s : Hub) : Hub → Type 0 where
  gets :
      (i id : ℕ)
      → i < n
      → s.loops i ≡ running
      → Step n s (record s {
        loops = update s.loops i (holds id);
        accepted = s.accepted ++ stream i id ∷ [];
      })
  sends :
      (i id : ℕ)
      → i < n
      → s.loops i ≡ holds id
      → length s.channel < accept_size
      → Step n s
          (record s { loops = update s.loops i running; channel = s.channel ++ stream i id ∷ [] })
  gives_up :
      (i id : ℕ)
      → i < n
      → s.loops i ≡ holds id
      → Step n s (record s { loops = update s.loops i (ended (id ∷ [])) })
  errs :
      (i : ℕ)
      → i < n
      → s.loops i ≡ running
      → Step n s (record s { loops = update s.loops i (ended []); channel = report s i })
  -- `AcceptStream`, or the goroutine of `Close` that empties the channel
  takes :
      (r : AcceptResult) (rest : List AcceptResult)
      → s.channel ≡ r ∷ rest
      → Step n s (record s { channel = rest; taken = s.taken ++ r ∷ [] })
  closes : Step n s (record s { closed = true })
  -- after s.acceptWG.Wait()
  seals :
      s.closed ≡ true
      → ((i : ℕ) → i < n → (lost : List ℕ) × (s.loops i ≡ ended lost))
      → Step n s (record s { sealed = true })

pub data Reach (n : ℕ) : Hub → Type 0 where
  at_start : Reach n new_hub
  later : {s t : Hub} → Reach n s → Step n s t → Reach n t
