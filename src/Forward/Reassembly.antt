-- ===== src/Forward/Reassembly.antt =====
-- `readStripesToTCP` of internal/forward/forward.go. Each stripe's reader goroutine is the list of
-- what it sends on the channel `in`; the main loop runs over the list that the channel delivers, and
-- a list that is used up stands for the closed channel.
pub mod Step
pub mod Arrivals
pub mod Delivery
use nl_punch.Prelude.{
  [], ℕ, zero, suc, ◌+◌, ◌%◌, ◌^◌, ◌∷◌, List, Bytes, nat_eq, ◌==◌, Bool, true, false, if◌then◌else◌,
  length, Option, none, some,
}
use nl_punch.Prelude.Dict.{Dict, lookup, insert, delete}
use nl_punch.Stream.{IoError, Reader, Writer, write}
use nl_punch.Forward.Chunk.{read_chunk}

-- The type `stripeChunk` of the channel.
pub record StripeChunk : Type 0 where
  pub seq : ℕ
  pub payload : Bytes
  pub stripe : ℕ
  pub eof : Bool

abbrev pub terminator : ℕ → ℕ → StripeChunk
terminator i seq = record { seq = seq; payload = []; stripe = i; eof = true }

abbrev pub item : ℕ → ℕ → Bytes → StripeChunk
item i seq payload = record { seq = seq; payload = payload; stripe = i; eof = false }

-- What the goroutine of stripe `i` does with one result of `readChunk`; `rest` is the next rounds.
abbrev pub on_read : ℕ → ℕ → Bytes → Option IoError → List StripeChunk → List StripeChunk
on_read i seq [] none rest = terminator i seq ∷ []
on_read i seq (b ∷ p) none rest = item i seq (b ∷ p) ∷ rest
on_read i seq payload (some e) rest = terminator i 0 ∷ []

-- The rounds of the goroutine on fuel. A round that goes on takes a byte from the stream.
unfoldable pub read_rounds : ℕ → ℕ → Reader → List StripeChunk
read_rounds zero i r = []
read_rounds (suc fuel) i r =
    let c = read_chunk r in
    let rest = read_rounds fuel i c.reader in on_read i c.seq c.payload c.error rest

unfoldable pub stripe_reader : ℕ → Reader → List StripeChunk
unfolding read_rounds
stripe_reader i r = read_rounds (suc (length r.rest)) i r

-- The variables of the main loop. `counter` is the shared byte counter.
pub record Assembly : Type 0 where
  pub pending : Dict ℕ Bytes
  pub next_seq : ℕ
  pub eofs : ℕ
  pub dst : Writer
  pub counter : ℕ

-- dst.Write(p), counter.Add(len(p)) and nextSeq++. The Boolean is false if the function returns
-- because the write failed.
deliver_result : Bytes → Assembly → Writer × Option IoError → Assembly × Bool
deliver_result p a (dst, some e) = (record a { dst = dst }, false)
deliver_result p a (dst, none) = (
  record a {
    dst = dst;
    counter = (a.counter + length p) % 2 ^ 64;
    next_seq = (a.next_seq + 1) % 2 ^ 32;
  },
  true,
)

pub deliver : Bytes → Assembly → Assembly × Bool
unfolding deliver_result
deliver p a = deliver_result p a (write a.dst p)

-- The loop that drains sequential pending chunks. Each round deletes one.
pub drain : ℕ → Assembly → Assembly × Bool
drain zero a = (a, true)
drain (suc fuel) a = elim (lookup a.next_seq a.pending) [
  | none ↦ (a, true)
  | some p ↦
      let (a', delivered) = deliver p (record a { pending = delete a.next_seq a.pending }) in
      let rest = drain fuel a' in if delivered then rest else (a', false)
]

pub drain_all : Assembly → Assembly × Bool
unfolding drain
drain_all a = drain (suc (length a.pending)) a

abbrev pub then_drain : Assembly × Bool → Assembly × Bool
then_drain (a, going) = if going then drain_all a else (a, false)

-- A data chunk.
pub receive : StripeChunk → Assembly → Assembly × Bool
receive c a =
    if c.seq == a.next_seq
    then then_drain (deliver c.payload a)
    else (record a { pending = insert c.seq c.payload a.pending }, true)

-- for c := range in
pub receive_loop : ℕ → List StripeChunk → Assembly → Assembly × Bool
receive_loop streams [] a = (a, true)
receive_loop streams (c ∷ cs) a =
    let ended = record a { eofs = a.eofs + 1 } in
    let after_eof = receive_loop streams cs ended in
    let (a', going) = receive c a in
    let after_data = receive_loop streams cs a' in
    if c.eof
    then (if ended.eofs == streams then (ended, true) else after_eof)
    else (if going then after_data else (a', false))

abbrev pub start : Writer → ℕ → Assembly
start dst counter = record { pending = []; next_seq = 0; eofs = 0; dst = dst; counter = counter }

-- The destination and the counter at the end.
pub read_stripes_to_tcp : ℕ → List StripeChunk → Writer → ℕ → Writer × ℕ
unfolding receive_loop drain_all
read_stripes_to_tcp streams cs dst counter =
    let (a, _) = then_drain (receive_loop streams cs (start dst counter)) in (a.dst, a.counter)
