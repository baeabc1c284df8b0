-- ===== src/Forward/Pump/Channel.antt =====
-- What the channel of `readStripesToTCP` (internal/forward/forward.go) delivers, from what the reader
-- of each stripe reports.
use mathlib.Core.List.{flatten}
use native.Mathlib.Nat.{zero-add}
use nl_punch.Prelude.{
  ℕ, ◌^◌, ◌<◌, ◌≤◌, [], ◌∷◌, ◌++◌, List, Bytes, nat_eq, string_eq, Bool, length, get_elem?, All,
  All-of_get_elem?, some, ◌≡◌, ◌≢◌, refl, ap, ◌∙◌, arith,
}
use nl_punch.Stream.{Writer, sends}
use nl_punch.Forward.Reassembly.{StripeChunk, read_stripes_to_tcp}
use nl_punch.Forward.Reassembly.Step.{joined}
use nl_punch.Forward.Reassembly.Arrivals.{IsPiece, Closes}
use nl_punch.Forward.Reassembly.Delivery.{read_stripes_to_tcp_prefix}
use nl_punch.Forward.Dispatch.Served.{payloads, stripe_items}
use nl_punch.Forward.Dispatch.Items.{
  piece, IsShort, joined-piece, joined_prefix, stripe_items-IsItem,
}
use nl_punch.Forward.Pump.{IsRead}
use nl_punch.Forward.Pump.Merge.{Merge, ended, Merge-All, Merge-Closes}
use nl_punch.Forward.Pump.Wire.{Reports}
use nl_punch.Forward.Pump.Report.{report-IsStripe, report-nonempty, report-IsPiece}

pub flatten-payloads : (reads : List Bytes) → flatten (payloads reads) ≡ flatten reads
unfolding payloads flatten
flatten-payloads [] = refl
flatten-payloads ([] ∷ reads) = flatten-payloads reads
flatten-payloads ((b ∷ p) ∷ reads) = ap (λ t. (b ∷ p) ++ t) (flatten-payloads reads)

pub length-payloads-le : (reads : List Bytes) → length (payloads reads) ≤ length reads
unfolding payloads
length-payloads-le [] = omega arith
length-payloads-le ([] ∷ reads) = omega (arith, length-payloads-le reads)
length-payloads-le ((b ∷ p) ∷ reads) = omega (arith, length-payloads-le reads)

pub payloads-IsShort : (reads : List Bytes) → All IsRead reads → All IsShort (payloads reads)
unfolding payloads
payloads-IsShort [] h = tt
payloads-IsShort ([] ∷ reads) h = payloads-IsShort reads h.1
payloads-IsShort ((b ∷ p) ∷ reads) h = (omega arith, payloads-IsShort reads h.1)

ended-nonempty : (qs : List (List StripeChunk)) → All (λ q. q ≢ []) qs → ended qs ≡ 0
ended-nonempty [] h = refl
ended-nonempty ([] ∷ qs) h = absurd (h.0 refl)
ended-nonempty ((c ∷ q) ∷ qs) h = omega (arith, ended-nonempty qs h.1)

module _ (reads : List Bytes) (picks : List ℕ) (stripes : ℕ) (cs : List StripeChunk) where
  -- Numbered pieces of what was read, and one terminator of each stripe.
  pub record Channel : Type 0 where
    pub pieces : All (IsPiece (piece (payloads reads)) (length (payloads reads))) cs
    pub closes : Closes stripes 0 cs

  pub report-Channel :
      (qs : List (List StripeChunk))
      → length reads < 2 ^ 32
      → length qs ≡ stripes
      → ((i : ℕ) (q : List StripeChunk)
          → get_elem? qs i ≡ some q
          → (whole : Bool) × Reports i (stripe_items i 0 (payloads reads) picks) whole q)
      → Merge qs cs
      → Channel
  report-Channel qs small many report m =
      let ps = payloads reads in
      record {
        pieces = Merge-All (IsPiece (piece ps) (length ps)) m (
            All-of_get_elem? _ qs λ i q at.
              let (whole, r) = report i q at in
              report-IsPiece i _ _ q r (piece ps) (length ps) (
                stripe_items-IsItem (piece ps) (length ps) i 0 ps picks
                  (omega (arith, length-payloads-le reads)) (λ k. ap (piece ps) (zero-add k))));
        closes =
            Merge-Closes stripes 0 m many
              (ended-nonempty qs (
                All-of_get_elem? _ qs
                  λ i q at. let (whole, r) = report i q at in report-nonempty i _ _ q r))
              (All-of_get_elem? _ qs
                λ i q at. let (whole, r) = report i q at in report-IsStripe i _ _ q r);
      }

  -- The destination gets a beginning of what was read.
  pub Channel-prefix :
      (dst : Writer) (total : ℕ)
      → length reads < 2 ^ 32
      → total < 2 ^ 64
      → Channel
      → (s t : Bytes) × (s ++ t ≡ flatten reads)
        × ((read_stripes_to_tcp stripes cs dst total).0 ≡ sends dst s)
  Channel-prefix dst total small fit ch =
      let ps = payloads reads in
      let (k, range, result) =
        read_stripes_to_tcp_prefix (piece ps) (length ps) dst total
          (omega (arith, length-payloads-le reads)) stripes cs fit ch.closes ch.pieces in
      let (t, split) = joined_prefix (piece ps) k (length ps) range in
      (joined (piece ps) k, t, split ∙ joined-piece ps ∙ flatten-payloads reads, result)
