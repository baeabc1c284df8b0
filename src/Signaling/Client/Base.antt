-- ===== src/Signaling/Client/Base.antt =====
-- The base URL of a client (internal/signaling/client.go).
use nl_punch.Prelude.{
  ℕ, ◌-◌, [], ◌∷◌, ◌++◌, Bytes, codes, nat_eq, string_eq, bytes_eq_refl, le→leb, true, length,
  length-append, drop_append, ◌≡◌, refl, ap, ◌∙◌, arith, Bool-cases, inl, inr,
}
use nl_punch.Signaling.Client.{drop_slash, trim_right, punch, has_suffix, client_base}

trim_right-drop_slash :
    (b : ℕ) (s : Bytes) → trim_right s ≡ s → trim_right (drop_slash b s) ≡ drop_slash b s
unfolding trim_right
trim_right-drop_slash b [] h = ground arith
trim_right-drop_slash b (c ∷ s) h = ap (drop_slash b) h

trim_right-trim_right : (s : Bytes) → trim_right (trim_right s) ≡ trim_right s
unfolding trim_right
trim_right-trim_right [] = refl
trim_right-trim_right (b ∷ s) = trim_right-drop_slash b (trim_right s) (trim_right-trim_right s)

drop_slash-append :
    (b : ℕ) (s : Bytes) (c : ℕ) (t : Bytes) → drop_slash b (s ++ c ∷ t) ≡ b ∷ (s ++ c ∷ t)
drop_slash-append b [] c t = refl
drop_slash-append b (x ∷ s) c t = refl

trim_right-append :
    (s : Bytes) (c : ℕ) (t : Bytes)
    → trim_right (c ∷ t) ≡ c ∷ t
    → trim_right (s ++ c ∷ t) ≡ s ++ c ∷ t
unfolding trim_right
trim_right-append [] c t h = h
trim_right-append (b ∷ s) c t h =
    ap (drop_slash b) (trim_right-append s c t h) ∙ drop_slash-append b s c t

trim_right-punch : trim_right punch ≡ punch
unfolding trim_right
trim_right-punch = refl

has_suffix-append : (suffix s : Bytes) → has_suffix suffix (s ++ suffix) ≡ true
unfolding has_suffix
has_suffix-append suffix s =
    let len = length-append s suffix in
    rw
      (
        le→leb (length suffix) (length (s ++ suffix)) (omega (arith, len)),
        drop_append (length (s ++ suffix) - length suffix) s suffix (omega (arith, len)),
      )
      (bytes_eq_refl suffix)

-- The base URL of a client ends in "/punch", and a client that is given it takes it as it is.
client_base_lem :
    (url : Bytes)
    → (has_suffix punch (client_base url) ≡ true)
      × (client_base (client_base url) ≡ client_base url)
unfolding client_base
client_base_lem url = elim (Bool-cases (has_suffix punch (trim_right url))) [
  | inl there ↦ rw there (there, rw (trim_right-trim_right url, there))
  | inr missing ↦
      let whole = trim_right-append (trim_right url) b'/' (codes "punch") trim_right-punch in
      let ends = has_suffix-append punch (trim_right url) in rw missing (ends, rw (whole, ends))
]
