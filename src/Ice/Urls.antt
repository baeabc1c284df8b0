-- ===== src/Ice/Urls.antt =====
-- `parseURLs` and `newGen` of internal/ice/ice.go.
use nl_punch.Prelude.{
  ℕ, suc, ◌*◌, ◌/◌, ◌%◌, ◌<◌, [], ◌∷◌, ◌++◌, List, map, Bytes, codes, nat_eq, string_eq, length,
  get_elem?, All, Option, none, some, ◌≡◌, ◌⊎◌, refl, ap, arith, Option-cases, inl, inr,
}
use nl_punch.Stream.{Result, ok, err, IsByte}
use nl_punch.Config.{TurnServer}
use nl_punch.Ice.{IceError, bad_stun, bad_turn, parse_turn, parse_urls, hex_digit, encode_to_string}

abbrev on_some {ℓ κ} : {A : Type ℓ} {B : Type κ} → (A → B) → Option A → Option B
on_some f none = none
on_some f (some a) = some (f a)

module _ {κ} {Uri : Type κ} (parse_uri : Bytes → Option Uri)
    (with_user : Bytes → Bytes → Uri → Uri) where
  -- What the servers stand for, one by one: the STUN hosts, then the TURN servers.
  abbrev pub uris : List Bytes → List TurnServer → List (Option Uri)
  uris [] [] = []
  uris [] (t ∷ ts) = on_some (with_user t.user t.pass) (parse_uri t.uri) ∷ uris [] ts
  uris (h ∷ hs) ts = parse_uri (codes "stun:" ++ h) ∷ uris hs ts

-- All of them parse, and are what `parseURLs` returns; or one does not, and it returns an error.
abbrev pub AreParsed {ℓ κ} :
    {E : Type ℓ} {Uri : Type κ} → List (Option Uri) → Result (IceError E) (List Uri) → Type (ℓ ⊔ κ)
AreParsed {E = E} {Uri = Uri} os r =
    ((us : List Uri) × (r ≡ ok us) × (os ≡ map some us))
    ⊎ ((e : IceError E) × (i : ℕ) × (r ≡ err e) × (get_elem? os i ≡ some none))

module _ {ℓ κ} {E : Type ℓ} {Uri : Type κ} (parse_uri : Bytes → Option Uri)
    (with_user : Bytes → Bytes → Uri → Uri) where
  parse_turn-AreParsed :
      (ts : List TurnServer)
      → AreParsed {E = E} (uris parse_uri with_user [] ts) (parse_turn parse_uri with_user ts)
  unfolding parse_turn
  parse_turn-AreParsed [] = inl ([], refl, refl)
  parse_turn-AreParsed (t ∷ ts) = elim (Option-cases (parse_uri t.uri)) [
    | inl bad ↦ inr (bad_turn t.uri, 0, rw (parse_turn, bad) refl, rw bad)
    | inr (u, good) ↦ elim (parse_turn-AreParsed ts) [
      | inl (us, e, all) ↦
          inl (with_user t.user t.pass u ∷ us, rw (parse_turn, good, e) refl, rw (good, all))
      | inr (x, i, e, at) ↦ inr (x, suc i, rw (parse_turn, good, e) refl, at)
    ]
  ]

  -- `parseURLs` returns the STUN hosts' URLs and then the TURN servers', in order and with their
  -- users, if all of them parse, and an error as soon as one does not.
  pub parse_urls-AreParsed :
      (hs : List Bytes) (ts : List TurnServer)
      → AreParsed {E = E} (uris parse_uri with_user hs ts) (parse_urls parse_uri with_user hs ts)
  unfolding parse_urls
  parse_urls-AreParsed [] ts = parse_turn-AreParsed ts
  parse_urls-AreParsed (h ∷ hs) ts = elim (Option-cases (parse_uri (codes "stun:" ++ h))) [
    | inl bad ↦ inr (bad_stun h, 0, rw (parse_urls, bad) refl, ap some bad)
    | inr (u, good) ↦ elim (parse_urls-AreParsed hs ts) [
      | inl (us, e, all) ↦ inl (u ∷ us, rw (parse_urls, good, e) refl, rw (good, all))
      | inr (x, i, e, at) ↦ inr (x, suc i, rw (parse_urls, good, e) refl, at)
    ]
  ]

hex_digit-injective : (a b : ℕ) → a < 16 → b < 16 → hex_digit a ≡ hex_digit b → a ≡ b
hex_digit-injective a b ha hb e = ground arith

pub length-encode_to_string : (s : Bytes) → length (encode_to_string s) ≡ 2 * length s
unfolding encode_to_string
length-encode_to_string [] = omega arith
length-encode_to_string (b ∷ s) = omega (arith, length-encode_to_string s)

-- The nonces of two attempts are the same only if the same bytes were drawn.
encode_to_string-injective :
    (s t : Bytes) → All IsByte s → All IsByte t → encode_to_string s ≡ encode_to_string t → s ≡ t
unfolding encode_to_string
encode_to_string-injective [] [] hs ht e = refl
encode_to_string-injective [] (b ∷ t) hs ht e = cc e
encode_to_string-injective (a ∷ s) [] hs ht e = cc e
encode_to_string-injective (a ∷ s) (b ∷ t) hs ht e =
    let high : hex_digit (a / 16) ≡ hex_digit (b / 16) = cc e in
    let low : hex_digit (a % 16) ≡ hex_digit (b % 16) = cc e in
    let rest : encode_to_string s ≡ encode_to_string t = cc e in
    let rest' = encode_to_string-injective s t hs.1 ht.1 rest in
    let h =
      hex_digit-injective (a / 16) (b / 16) (omega (arith, hs.0)) (omega (arith, ht.0)) high in
    let l = hex_digit-injective (a % 16) (b % 16) (omega arith) (omega arith) low in
    let same : a ≡ b = omega (arith, h, l) in rw (same, rest')
