-- ===== src/Signaling/Server/Keys.antt =====
-- The keys of internal/signaling/server.go: session id, "|", role. They keep sessions apart as far
-- as no session id holds a "|".
use nl_punch.Prelude.{
  [], ◌∷◌, ◌++◌, Bytes, nat_eq, string_eq, bytes_eq, bytes_eq_iff, if◌then◌else◌, All, none, ◌≡◌,
  ◌≢◌, refl, ap, arith, Bool-cases, inl, inr,
}
use nl_punch.Prelude.Dict.{Dict, lookup}
use nl_punch.Signaling.{Offer}
use nl_punch.Signaling.Server.{key, has_prefix, delete_prefix}

-- No "|" in it.
abbrev pub IsPlain : Bytes → Type 0
IsPlain = All (λ b. b ≢ b'|')

pub key_injective :
    (s t q r : Bytes) → IsPlain s → IsPlain t → key s q ≡ key t r → (s ≡ t) × (q ≡ r)
key_injective [] [] q r hs ht e = (refl, ground arith)
key_injective [] (b ∷ t) q r hs ht e = absurd (ht.0 (ground arith))
key_injective (a ∷ s) [] q r hs ht e = absurd (hs.0 (ground arith))
key_injective (a ∷ s) (b ∷ t) q r hs ht e =
    let (rest, role) = key_injective s t q r hs.1 ht.1 (ground arith) in
    let first : a ≡ b = ground arith in ((λ i. first i ∷ rest i), role)

-- The prefix that `Clear` deletes by holds for the session's own keys and for no other session's.
pub has_prefix-key :
    (s t r : Bytes) → IsPlain s → IsPlain t → has_prefix (s ++ b'|' ∷ []) (key t r) ≡ bytes_eq s t
unfolding has_prefix bytes_eq
has_prefix-key [] [] r hs ht = refl
has_prefix-key [] (b ∷ t) r hs ht = ground arith
has_prefix-key (a ∷ s) [] r hs ht = ground arith
has_prefix-key (a ∷ s) (b ∷ t) r hs ht = ground (arith, has_prefix-key s t r hs.1 ht.1)

pub lookup-delete_prefix :
    (p k : Bytes) (m : Dict Bytes Offer)
    → lookup k (delete_prefix p m) ≡ (if has_prefix p k then none else lookup k m)
unfolding lookup delete_prefix
lookup-delete_prefix p k [] = ground arith
lookup-delete_prefix p k ((j, o) ∷ m) = elim (Bool-cases (bytes_eq j k)) [
  | inl hit ↦
      let e = (bytes_eq_iff j k).0 hit in
      ground (arith, lookup-delete_prefix p k m, ap (has_prefix p) e)
  | inr miss ↦ ground (arith, lookup-delete_prefix p k m)
]
