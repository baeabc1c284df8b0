-- ===== src/Stream/Io.antt =====
-- A reader is the bytes that will still arrive, with the error that comes after them. A writer is
-- the bytes written so far, with the number of bytes that it takes before the connection breaks.
use nl_punch.Prelude.{
  Bool-cases, inl, inr, take-append-drop, length-take, ℕ, ◌-◌, ◌<◌, ◌≡◌, refl, ◌∷◌, ◌++◌, Option,
  none, some, Bytes, arith, leb, le→leb, lt→leb, if◌then◌else◌, length, length-append, take, drop,
  take_append, drop_append,
}

pub data IoError : Type 0 where
  eof unexpected_eof broken : IoError

pub data Result {ℓ κ} (E : Type ℓ) (A : Type κ) : Type (ℓ ⊔ κ) where
  err : E → Result E A
  ok : A → Result E A

infixl 5 ◌>>=◌
abbrev pub ◌>>=◌ {ℓ κ μ} :
    {E : Type ℓ} {A : Type κ} {B : Type μ} → Result E A → (A → Result E B) → Result E B
err e >>= next = err e
ok a >>= next = next a

-- If both steps together succeed, so does each of them.
pub >>=-eq-ok {ℓ κ μ} :
    {E : Type ℓ} {A : Type κ} {B : Type μ} (first : Result E A) (next : A → Result E B) {b : B}
    → (first >>= next) ≡ ok b
    → (a : A) × (first ≡ ok a) × (next a ≡ ok b)
>>=-eq-ok (err e) next eq = cc
>>=-eq-ok (ok a) next eq = (a, refl, eq)

pub ok-injective {ℓ κ} :
    {E : Type ℓ} {A : Type κ} (x y : A) → ◌≡◌ {A = Result E A} (ok x) (ok y) → x ≡ y
ok-injective x y e = cc e

pub record Reader : Type 0 where
  pub rest : Bytes
  pub fault : IoError

-- io.ReadFull reports io.EOF only if no byte was read, and io.ErrUnexpectedEOF for a short read.
abbrev pub short_read : Bytes → IoError → IoError
short_read (b ∷ s) eof = unexpected_eof
short_read _ e = e

unfoldable pub read_full : ℕ → Reader → Result IoError (Bytes × Reader)
read_full n r =
    if leb n (length r.rest)
    then ok (take n r.rest, record r { rest = drop n r.rest })
    else err (short_read r.rest r.fault)

pub record Writer : Type 0 where
  pub written : Bytes
  -- `none`: the connection does not break
  pub room : Option ℕ

abbrev pub write_room : Option ℕ → Bytes → Writer → Writer × Option IoError
write_room none p w = (record w { written = w.written ++ p }, none)
write_room (some k) p w =
    if leb (length p) k
    then (record { written = w.written ++ p; room = some (k - length p) }, none)
    else (record { written = w.written ++ take k p; room = some 0 }, some broken)

unfoldable pub write : Writer → Bytes → Writer × Option IoError
write w p = write_room w.room p w

pub read_full_append :
    (n : ℕ) (s rest : Bytes) (e : IoError)
    → length s ≡ n
    → read_full n (record { rest = s ++ rest; fault = e })
      ≡ ok (s, record { rest = rest; fault = e })
unfolding read_full
read_full_append n s rest e h = rw (
  le→leb n (length (s ++ rest)) (omega (arith, length-append s rest)),
  take_append n s rest h,
  drop_append n s rest h,
)

pub read_full_short :
    (n : ℕ) (s : Bytes) (e : IoError)
    → length s < n
    → read_full n (record { rest = s; fault = e }) ≡ err (short_read s e)
unfolding read_full
read_full_short n s e h = rw (lt→leb n (length s) h)

-- What a successful `io.ReadFull` returns, and what it leaves.
pub read_full-ok :
    (n : ℕ) (r : Reader) (s : Bytes) (r' : Reader)
    → read_full n r ≡ ok (s, r')
    → (r.rest ≡ s ++ r'.rest) × (length s ≡ n) × (r'.fault ≡ r.fault)
unfolding read_full
read_full-ok n r s r' h = elim (Bool-cases (leb n (length r.rest))) [
  | inl enough ↦ ground (arith, take-append-drop n r.rest, length-take n r.rest, rw enough at h)
  | inr short ↦ cc (rw short at h)
]

pub write_unbroken :
    (w : Writer) (p : Bytes)
    → w.room ≡ none
    → write w p ≡ (record w { written = w.written ++ p }, none)
unfolding write
write_unbroken w p e = rw (e, write_room)
