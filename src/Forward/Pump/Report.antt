-- ===== src/Forward/Pump/Report.antt =====
-- What a stripe's reader reports (internal/forward/forward.go), in the words of the receiving loop.
use nl_punch.Prelude.{
  ℕ, [], ◌∷◌, ◌++◌, List, map, Bytes, nat_eq, string_eq, ◌==◌, ◌||◌, Bool, true, take, All,
  All-take, ◌≡◌, ◌≢◌, refl, ap, ◌∙◌,
}
use nl_punch.Forward.Reassembly.{StripeChunk, terminator}
use nl_punch.Forward.Reassembly.Arrivals.{arrives, IsPiece}
use nl_punch.Forward.Dispatch.Items.{IsItem, has}
use nl_punch.Forward.Pump.Merge.{IsStripe}
use nl_punch.Forward.Pump.Wire.{Items, to_item, Reports}

abbrev marked : ℕ → Items → ℕ → List StripeChunk
marked i ys s = map (to_item i) ys ++ terminator i s ∷ []

marked-nonempty : (i : ℕ) (ys : Items) (s : ℕ) → marked i ys s ≢ []
marked-nonempty i [] s e = cc
marked-nonempty i ((k, p) ∷ ys) s e = cc

marked-IsStripe : (i : ℕ) (ys : Items) (s : ℕ) → IsStripe (marked i ys s)
marked-IsStripe i [] s = ((λ e. refl), (λ e. cc), tt)
marked-IsStripe i ((k, p) ∷ ys) s =
    ((λ e. cc), (λ e. marked-nonempty i ys s), marked-IsStripe i ys s)

marked-IsPiece :
    (f : ℕ → Bytes) (n i : ℕ) (ys : Items) (s : ℕ)
    → All (IsItem f n) ys
    → All (IsPiece f n) (marked i ys s)
marked-IsPiece f n i [] s h = ((λ e. cc), tt)
marked-IsPiece f n i ((k, p) ∷ ys) s h = ((λ e. h.0), marked-IsPiece f n i ys s h.1)

marked-arrives : (k i : ℕ) (ys : Items) (s : ℕ) → arrives k (marked i ys s) ≡ has k ys
unfolding arrives has
marked-arrives k i [] s = refl
marked-arrives k i ((j, p) ∷ ys) s = ap (λ b. j == k || b) (marked-arrives k i ys s)

module _ (i : ℕ) (xs : Items) (whole : Bool) (q : List StripeChunk) (r : Reports i xs whole q) where
  pub report-IsStripe : IsStripe q
  report-IsStripe = rw r.reported (marked-IsStripe i (take r.upto xs) r.last_seq)

  pub report-nonempty : q ≢ []
  report-nonempty = rw r.reported (marked-nonempty i (take r.upto xs) r.last_seq)

  pub report-IsPiece : (f : ℕ → Bytes) (n : ℕ) → All (IsItem f n) xs → All (IsPiece f n) q
  report-IsPiece f n h =
      rw r.reported
        (marked-IsPiece f n i (take r.upto xs) r.last_seq (All-take (IsItem f n) r.upto xs h))

  pub report-arrives : (k : ℕ) → whole ≡ true → has k xs ≡ true → arrives k q ≡ true
  report-arrives k all h =
      rw r.reported (marked-arrives k i (take r.upto xs) r.last_seq ∙ ap (has k) (r.all all) ∙ h)
