-- ===== src/Bench/Quantiles.antt =====
-- `stats` of cmd/nl-punch-bench/main.go.
use mathlib.Core.List.{Mem, Perm, foldr, mem-cons, not-mem-nil}
use mathlib.Core.List.Perm
use mathlib.Core.Logic.Or
use native.Mathlib.Bridge.{le_prop}
use native.Mathlib.Nat.{ℕ_set, zero-add}
use nl_punch.Prelude.{
  ℕ, suc, ◌+◌, ◌-◌, ◌%◌, ◌^◌, ◌<◌, ◌≤◌, [], ◌∷◌, List, nat_eq, string_eq, length, get_elem?,
  get_elem?-lt, get_elem?-some, some, ◌≡◌, refl, sym, ap, ◌∙◌, arith,
}
use nl_punch.Bench.{Stats, stats, sum_loop}

-- What `sort.Slice` promises of its result.
pub record IsSorting (sorted samples : List ℕ) : Type 0 where
  pub same : Perm sorted samples
  pub ascending :
      (i j : ℕ) {a b : ℕ}
      → i ≤ j
      → get_elem? sorted i ≡ some a
      → get_elem? sorted j ≡ some b
      → a ≤ b

-- What the product with a fraction between 0 and 1 promises: it grows with the fraction, and does
-- not exceed the number.
pub record IsScaling (scaled : ℕ → ℕ → ℕ) : Type 0 where
  pub grows : (n p q : ℕ) → p ≤ q → scaled n p ≤ scaled n q
  pub within : (n p : ℕ) → p ≤ 100 → scaled n p ≤ n

abbrev pub total : List ℕ → ℕ
total = foldr ◌+◌ 0

abbrev number : List ℕ → ℕ
number = foldr (λ d n. suc n) 0

sum_loop_lem : (sum : ℕ) (ds : List ℕ) → sum < 2 ^ 64 → sum_loop sum ds ≡ (sum + total ds) % 2 ^ 64
unfolding sum_loop
sum_loop_lem sum [] small = omega arith
sum_loop_lem sum (d ∷ ds) small = omega (arith, sum_loop_lem ((sum + d) % 2 ^ 64) ds (omega arith))

number_lem : (ds : List ℕ) → number ds ≡ length ds
number_lem [] = refl
number_lem (d ∷ ds) = ap suc (number_lem ds)

total-Perm : (xs ys : List ℕ) → Perm xs ys → total xs ≡ total ys
total-Perm xs ys p = Perm.foldr-eq ℕ_set ◌+◌ (λ a b x. omega arith) p 0

summed_lem :
    (sorted samples : List ℕ) → Perm sorted samples → sum_loop 0 sorted ≡ total samples % 2 ^ 64
summed_lem sorted samples p =
    sum_loop_lem 0 sorted (omega arith)
    ∙ ap (λ k. k % 2 ^ 64) (zero-add (total sorted) ∙ total-Perm sorted samples p)

length-Perm : (xs ys : List ℕ) → Perm xs ys → length xs ≡ length ys
length-Perm xs ys p =
    sym (number_lem xs) ∙ Perm.foldr-eq ℕ_set (λ d n. suc n) (λ a b x. refl) p 0 ∙ number_lem ys

-- A bound by index is a bound of every member.
below_member :
    (hi : ℕ) (xs : List ℕ)
    → ((i a : ℕ) → get_elem? xs i ≡ some a → a ≤ hi)
    → (x : ℕ) → Mem x xs
    → x ≤ hi
below_member hi [] h x m = absurd (not-mem-nil m)
below_member hi (a ∷ xs) h x m =
    Or.elim le_prop (mem-cons.0 m) (λ e. rw e (h 0 a refl)) (below_member hi xs (λ i. h (suc i)) x)

above_member :
    (lo : ℕ) (xs : List ℕ)
    → ((i a : ℕ) → get_elem? xs i ≡ some a → lo ≤ a)
    → (x : ℕ) → Mem x xs
    → lo ≤ x
above_member lo [] h x m = absurd (not-mem-nil m)
above_member lo (a ∷ xs) h x m =
    Or.elim le_prop (mem-cons.0 m) (λ e. rw e (h 0 a refl)) (above_member lo xs (λ i. h (suc i)) x)

-- What the statistics of some samples are.
pub record IsSummary (samples : List ℕ) (st : Stats) : Type 0 where
  pub lo : ℕ
  pub a : ℕ
  pub b : ℕ
  pub c : ℕ
  pub d : ℕ
  pub hi : ℕ
  pub smallest_is : st.smallest ≡ some lo
  pub p50_is : st.p50 ≡ some a
  pub p90_is : st.p90 ≡ some b
  pub p95_is : st.p95 ≡ some c
  pub p99_is : st.p99 ≡ some d
  pub largest_is : st.largest ≡ some hi
  pub in_order : (lo ≤ a) × (a ≤ b) × (b ≤ c) × (c ≤ d) × (d ≤ hi)
  pub bounded : (x : ℕ) → Mem x samples → (lo ≤ x) × (x ≤ hi)
  pub summed : st.sum ≡ total samples % 2 ^ 64
  pub counted : st.samples ≡ length samples

-- The statistics of at least one sample have no index out of range: the quantiles are in order, the
-- smallest and the largest bound every sample, and the mean is taken of the samples' own sum, as far
-- as it fits its word, and of their number.
pub stats-IsSummary :
    (sort : List ℕ → List ℕ) (scaled : ℕ → ℕ → ℕ) (first : ℕ) (rest : List ℕ)
    → IsSorting (sort (first ∷ rest)) (first ∷ rest)
    → IsScaling scaled
    → (st : Stats) × (stats sort scaled (first ∷ rest) ≡ some st) × IsSummary (first ∷ rest) st
unfolding stats
stats-IsSummary sort scaled first rest s f =
    let samples = first ∷ rest in
    let sorted = sort samples in
    let len = length-Perm sorted samples s.same in
    let n = length sorted - 1 in
    let inside : (p : ℕ) → p ≤ 100 → scaled n p < length sorted =
      λ p h. omega (arith, f.within n p h, len) in
    let (lo, lo_is) = get_elem?-some sorted 0 (omega (arith, len)) in
    let (a, a_is) = get_elem?-some sorted (scaled n 50) (inside 50 (omega arith)) in
    let (b, b_is) = get_elem?-some sorted (scaled n 90) (inside 90 (omega arith)) in
    let (c, c_is) = get_elem?-some sorted (scaled n 95) (inside 95 (omega arith)) in
    let (d, d_is) = get_elem?-some sorted (scaled n 99) (inside 99 (omega arith)) in
    let (hi, hi_is) = get_elem?-some sorted n (omega (arith, len)) in
    (
      _,
      refl,
      record {
        lo = lo;
        a = a;
        b = b;
        c = c;
        d = d;
        hi = hi;
        smallest_is = lo_is;
        p50_is = a_is;
        p90_is = b_is;
        p95_is = c_is;
        p99_is = d_is;
        largest_is = hi_is;
        in_order = (
          s.ascending 0 (scaled n 50) (omega arith) lo_is a_is,
          s.ascending (scaled n 50) (scaled n 90) (f.grows n 50 90 (omega arith)) a_is b_is,
          s.ascending (scaled n 90) (scaled n 95) (f.grows n 90 95 (omega arith)) b_is c_is,
          s.ascending (scaled n 95) (scaled n 99) (f.grows n 95 99 (omega arith)) c_is d_is,
          s.ascending (scaled n 99) n (f.within n 99 (omega arith)) d_is hi_is,
        );
        bounded = λ x m.
            let m' = (Perm.mem_iff s.same).1 m in
            (
              above_member lo sorted (λ i x e. s.ascending 0 i (omega arith) lo_is e) x m',
              below_member hi sorted
                  (λ i x e. s.ascending i n (omega (arith, get_elem?-lt sorted i e)) e hi_is) x m',
            );
        summed = summed_lem sorted samples s.same;
        counted = len;
      },
    )
