-- ===== src/Stream/Sends.antt =====
-- What gets through a connection that may break: a law of `write` that composes over many writes.
use nl_punch.Prelude.{
  ℕ, zero, suc, ◌-◌, ◌≡◌, refl, ap, List, [], ◌∷◌, ◌++◌, append_assoc, append-nil, Option, none,
  some, Bytes, arith, leb, if◌then◌else◌, length, length-append, take, take_all, Bool-cases, inl,
  inr, Bool, true, false,
}
use nl_punch.Stream.Io.{broken, Writer, write, write_room}

-- The bytes of `p` that a connection with this much room takes.
abbrev pub clip : Option ℕ → Bytes → Bytes
clip none p = p
clip (some k) p = take k p

-- The room that is left then.
abbrev pub shrink : Option ℕ → Bytes → Option ℕ
shrink none p = none
shrink (some k) p = some (k - length p)

abbrev pub fits : Option ℕ → Bytes → Bool
fits none p = true
fits (some k) p = leb (length p) k

unfoldable pub sends : Writer → Bytes → Writer
sends w p = record { written = w.written ++ clip w.room p; room = shrink w.room p }

write_room-sends :
    (o : Option ℕ) (p s : Bytes)
    → write_room o p (record { written = s; room = o }) ≡ (
      record { written = s ++ clip o p; room = shrink o p },
      (if fits o p then none else some broken),
    )
write_room-sends none p s = refl
write_room-sends (some k) p s = elim (Bool-cases (leb (length p) k)) [
  | inl fit ↦ rw (fit, take_all k p (ground arith))
  | inr over ↦ let spent : k - length p ≡ 0 = ground arith in rw (over, spent)
]

pub write-sends :
    (w : Writer) (p : Bytes)
    → write w p ≡ (sends w p, (if fits w.room p then none else some broken))
unfolding write sends
write-sends w p = write_room-sends w.room p w.written

pub take-append {ℓ} :
    {A : Type ℓ} (k : ℕ) (p q : List A) → take k (p ++ q) ≡ take k p ++ take (k - length p) q
take-append zero p q = let none_left : 0 - length p ≡ 0 = omega arith in rw none_left
take-append (suc k) [] q = let all_left : suc k - 0 ≡ suc k = omega arith in rw all_left
take-append (suc k) (x ∷ p) q =
    let step : suc k - suc (length p) ≡ k - length p = omega arith in rw (step, take-append k p q)

pub clip-append : (o : Option ℕ) (p q : Bytes) → clip o (p ++ q) ≡ clip o p ++ clip (shrink o p) q
clip-append none p q = refl
clip-append (some k) p q = take-append k p q

shrink-append : (o : Option ℕ) (p q : Bytes) → shrink o (p ++ q) ≡ shrink (shrink o p) q
shrink-append none p q = refl
shrink-append (some k) p q = ap some (omega (arith, length-append p q))

clip-nil : (o : Option ℕ) → clip o [] ≡ []
clip-nil none = refl
clip-nil (some zero) = refl
clip-nil (some (suc k)) = refl

shrink-nil : (o : Option ℕ) → shrink o [] ≡ o
shrink-nil none = refl
shrink-nil (some k) = ap some (omega arith)

pub sends-nil : (w : Writer) → sends w [] ≡ w
unfolding sends
sends-nil w = rw (clip-nil w.room, shrink-nil w.room, append-nil w.written)

pub fits-nil : (o : Option ℕ) → fits o [] ≡ true
fits-nil none = refl
fits-nil (some k) = ground arith

-- Two writes in a row are one write of both.
pub sends-sends : (w : Writer) (p q : Bytes) → sends (sends w p) q ≡ sends w (p ++ q)
unfolding sends
sends-sends w p q = rw (
  clip-append w.room p q,
  shrink-append w.room p q,
  append_assoc w.written (clip w.room p) (clip (shrink w.room p) q),
)

refused :
    (o : Option ℕ) (p q : Bytes)
    → fits o p ≡ false
    → (clip (shrink o p) q ≡ []) × (shrink (shrink o p) q ≡ shrink o p)
refused none p q h = cc
refused (some k) p q h =
    let spent : k - length p ≡ 0 = ground arith in
    let empty : 0 - length q ≡ 0 = omega arith in (rw spent, rw (spent, empty))

-- A connection that has refused a byte takes no other.
pub sends_after_refusal :
    (w : Writer) (p q : Bytes) → fits w.room p ≡ false → sends (sends w p) q ≡ sends w p
unfolding sends
sends_after_refusal w p q h =
    let (nothing, spent) = refused w.room p q h in rw (nothing, spent, append-nil)

pub clip-fits : (o : Option ℕ) (p : Bytes) → fits o p ≡ true → clip o p ≡ p
clip-fits none p h = refl
clip-fits (some k) p h = take_all k p (ground arith)

pub clip_refused : (o : Option ℕ) (p q : Bytes) → fits o p ≡ false → clip o (p ++ q) ≡ clip o p
clip_refused o p q h =
    let (nothing, _) = refused o p q h in rw (clip-append o p q, nothing, append-nil)

pub sends_unbroken :
    (w : Writer) (p : Bytes) → w.room ≡ none → sends w p ≡ record w { written = w.written ++ p }
unfolding sends
sends_unbroken w p e = rw (e, clip)
