-- ===== src/Stream/BigEndian.antt =====
-- binary.BigEndian: `put_uint w x` is the `w` bytes of `PutUint16/32/64`, and `get_uint` reads them.
use Prim.Native.Nat.add
use native.Mathlib.Nat.{pow-succ'}
use nl_punch.Prelude.{
  ℕ, zero, suc, ◌+◌, ◌*◌, ◌/◌, ◌%◌, ◌^◌, ◌<◌, ◌≡◌, refl, ap, [], ◌∷◌, ◌++◌, Bytes, arith, length,
  length-append, All, All-append, append_assoc, append-nil, ◌∙◌,
}

abbrev pub IsByte : ℕ → Type 0
IsByte b = b < 256

unfoldable pub put_uint : ℕ → ℕ → Bytes
put_uint zero x = []
put_uint (suc w) x = put_uint w (x / 256) ++ x % 256 ∷ []

unfoldable pub get_uint_from : ℕ → Bytes → ℕ
get_uint_from acc [] = acc
get_uint_from acc (b ∷ s) = get_uint_from (acc * 256 + b) s

unfoldable pub get_uint : Bytes → ℕ
unfolding get_uint_from
get_uint s = get_uint_from 0 s

pub length-put_uint : (w x : ℕ) → length (put_uint w x) ≡ w
unfolding put_uint
length-put_uint zero x = refl
length-put_uint (suc w) x =
    omega (arith, length-put_uint w (x / 256), length-append (put_uint w (x / 256)) (x % 256 ∷ []))

put_uint-IsByte : (w x : ℕ) → All IsByte (put_uint w x)
unfolding put_uint
put_uint-IsByte zero x = tt
put_uint-IsByte (suc w) x =
    All-append IsByte (put_uint w (x / 256)) (x % 256 ∷ []) (put_uint-IsByte w (x / 256))
      (omega arith)

get_uint_from-append :
    (acc : ℕ) (s t : Bytes) → get_uint_from acc (s ++ t) ≡ get_uint_from (get_uint_from acc s) t
unfolding get_uint_from
get_uint_from-append acc [] t = refl
get_uint_from-append acc (b ∷ s) t = get_uint_from-append (acc * 256 + b) s t

pow_step : (w : ℕ) → 256 ^ suc w ≡ 256 * 256 ^ w
pow_step w = pow-succ' 256 w

pub get_uint-put_uint : (w x : ℕ) → x < 256 ^ w → get_uint (put_uint w x) ≡ x
unfolding get_uint put_uint
get_uint-put_uint zero x h = omega arith
get_uint-put_uint (suc w) x h =
    rw
      (
        get_uint_from-append 0 (put_uint w (x / 256)) (x % 256 ∷ []),
        get_uint-put_uint w (x / 256) (omega (arith, pow_step w)),
      )
      (omega arith)

put_uint_push :
    (k acc b : ℕ) → b < 256 → put_uint (suc k) (acc * 256 + b) ≡ put_uint k acc ++ b ∷ []
unfolding put_uint
put_uint_push k acc b h =
    let quotient : (acc * 256 + b) / 256 ≡ acc = omega arith in
    let remainder : (acc * 256 + b) % 256 ≡ b = omega arith in rw (quotient, remainder)

put_uint_from :
    (w k acc : ℕ) (s : Bytes)
    → All IsByte s
    → length s + k ≡ w
    → put_uint w (get_uint_from acc s) ≡ put_uint k acc ++ s
unfolding get_uint_from
put_uint_from w k acc [] h e = let e' : k ≡ w = omega arith in rw (e', append-nil)
put_uint_from w k acc (b ∷ s) h e =
    put_uint_from w (suc k) (acc * 256 + b) s h.1 (omega arith)
    ∙ ap (λ p. p ++ s) (put_uint_push k acc b h.0)
    ∙ append_assoc (put_uint k acc) (b ∷ []) s

pub put_uint-get_uint :
    (w : ℕ) (s : Bytes) → All IsByte s → length s ≡ w → put_uint w (get_uint s) ≡ s
unfolding get_uint put_uint
put_uint-get_uint w s h e = put_uint_from w 0 0 s h (omega arith)

get_uint_from-lt :
    (k acc : ℕ) (s : Bytes)
    → All IsByte s
    → acc < 256 ^ k
    → get_uint_from acc s < 256 ^ (length s + k)
unfolding get_uint_from
get_uint_from-lt k acc [] h lt = rw (add.zero k) lt
get_uint_from-lt k acc (b ∷ s) h lt =
    let e : suc (length s) + k ≡ length s + suc k = omega arith in
    rw e (get_uint_from-lt (suc k) (acc * 256 + b) s h.1 (omega (arith, pow_step k)))

pub get_uint-lt : (w : ℕ) (s : Bytes) → All IsByte s → length s ≡ w → get_uint s < 256 ^ w
unfolding get_uint
get_uint-lt w s h e =
    let e' : length s + 0 ≡ w = omega arith in rw (← e') (get_uint_from-lt 0 0 s h (omega arith))
