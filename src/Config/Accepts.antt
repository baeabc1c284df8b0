-- ===== src/Config/Accepts.antt =====
-- What `validate` of internal/config/config.go accepts, said without an order of checks.
use mathlib.Core.Path.{subst}
use nl_punch.Prelude.{
  [], ◌∷◌, ◌++◌, List, Bytes, nat_eq, string_eq, bytes_eq, bytes_eq_iff, bytes_eq_ne, false, All,
  Option, none, some, ◌≡◌, ◌≢◌, ◌↔◌, ◌⊎◌, refl, ap, arith, Bool-cases, inl, inr,
}
use nl_punch.Prelude.Dict.{Dict, lookup}
use nl_punch.Stream.{Result, ok, err, >>=-eq-ok}
use nl_punch.Config.{
  Config, ConfigError, Peer, check_names, check_peer, check_peers, check_roles, known_role, is_seen,
  required, present, error_of, then_check, validate, listen_names, dial_names, role_peer_a,
  role_peer_b, no_session_id, no_signaling_url, peer_a_missing, peer_b_missing, empty_listen_name,
  empty_dial_name,
}

-- No name stands twice.
abbrev pub Distinct : List Bytes → Type 0
Distinct [] = Unit
Distinct (n ∷ names) = All (λ m. m ≢ n) names × Distinct names

abbrev IsRole : Bytes → Type 0
IsRole role = (role ≡ role_peer_a) ⊎ (role ≡ role_peer_b)

-- The names of one peer: none is empty, and no two entries share one.
pub record IsNamed (peer : Peer) : Type 0 where
  pub given : All (λ n. n ≢ []) (listen_names peer ++ dial_names peer)
  pub distinct : Distinct (listen_names peer ++ dial_names peer)

pub record IsAccepted (c : Config) : Type 0 where
  pub session : c.session_id ≢ []
  pub url : c.signaling.url ≢ []
  pub roles : All (λ p. IsRole p.0) c.peers
  pub has_a : (peer : Peer) × (lookup role_peer_a c.peers ≡ some peer)
  pub has_b : (peer : Peer) × (lookup role_peer_b c.peers ≡ some peer)
  pub named : All (λ p. IsNamed p.1) c.peers

-- The names that a loop can add to the seen ones.
abbrev Fresh : List Bytes → List Bytes → Type 0
Fresh seen [] = Unit
Fresh seen (n ∷ names) = (n ≢ []) × (is_seen n seen ≡ false) × Fresh (n ∷ seen) names

abbrev extend : List Bytes → List Bytes → List Bytes
extend [] seen = seen
extend (n ∷ names) seen = extend names (n ∷ seen)

check_names-Fresh :
    (empty : ConfigError) (role : Bytes) (names seen : List Bytes)
    → Fresh seen names
    → check_names empty role names seen ≡ ok (extend names seen)
unfolding check_names
check_names-Fresh empty role [] seen h = refl
check_names-Fresh empty role (n ∷ names) seen (given, fresh, rest) =
    rw (bytes_eq_ne n [] given, fresh) (check_names-Fresh empty role names (n ∷ seen) rest)

check_names-ok :
    (empty : ConfigError) (role : Bytes) (names seen : List Bytes) {s : List Bytes}
    → check_names empty role names seen ≡ ok s
    → Fresh seen names × (s ≡ extend names seen)
unfolding check_names
check_names-ok empty role [] seen h = (tt, ground arith)
check_names-ok empty role (n ∷ names) seen {s} h = elim (Bool-cases (bytes_eq n [])) [
  | inl bad ↦ cc (rw bad at h)
  | inr given ↦ elim (Bool-cases (is_seen n seen)) [
    | inl twice ↦ cc (rw (given, twice) at h)
    | inr fresh ↦
        let (rest, same) = check_names-ok empty role names (n ∷ seen) (rw (given, fresh) at h) in
        (((λ e. ground (arith, bytes_eq_iff n [])), fresh, rest), same)
  ]
]

Fresh-append :
    (xs ys seen : List Bytes) → Fresh seen (xs ++ ys) ↔ (Fresh seen xs × Fresh (extend xs seen) ys)
Fresh-append [] ys seen = (λ h. (tt, h), λ h. h.1)
Fresh-append (x ∷ xs) ys seen =
    let rest = Fresh-append xs ys (x ∷ seen) in
    (λ h. ((h.0, h.1, (rest.0 h.2).0), (rest.0 h.2).1), λ h. (h.0.0, h.0.1, rest.1 (h.0.2, h.1)))

not_seen-cons :
    (m n : Bytes) (seen : List Bytes)
    → (is_seen m (n ∷ seen) ≡ false) ↔ ((m ≢ n) × (is_seen m seen ≡ false))
unfolding is_seen
not_seen-cons m n seen = ground (arith, bytes_eq_iff n m)

All-not_seen :
    (n : Bytes) (seen names : List Bytes)
    → All (λ m. is_seen m (n ∷ seen) ≡ false) names
      ↔ (All (λ m. m ≢ n) names × All (λ m. is_seen m seen ≡ false) names)
All-not_seen n seen [] = (λ h. (tt, tt), λ h. tt)
All-not_seen n seen (m ∷ names) =
    let here = not_seen-cons m n seen in
    let rest = All-not_seen n seen names in
    (
      λ h. (((here.0 h.0).0, (rest.0 h.1).0), ((here.0 h.0).1, (rest.0 h.1).1)),
      λ h. (here.1 (h.0.0, h.1.0), rest.1 (h.0.1, h.1.1)),
    )

Fresh-iff :
    (names seen : List Bytes)
    → Fresh seen names
      ↔ (All (λ n. n ≢ []) names × All (λ n. is_seen n seen ≡ false) names × Distinct names)
Fresh-iff [] seen = (λ h. (tt, tt, tt), λ h. tt)
Fresh-iff (n ∷ names) seen =
    let rest = Fresh-iff names (n ∷ seen) in
    let split = All-not_seen n seen names in
    (
      λ (given, fresh, h).
          let (g, s, d) = rest.0 h in ((given, g), (fresh, (split.0 s).1), ((split.0 s).0, d)),
      λ ((given, g), (fresh, s), (apart, d)). (given, fresh, rest.1 (g, split.1 (apart, s), d)),
    )

none_seen : (names : List Bytes) → All (λ n. is_seen n [] ≡ false) names
unfolding is_seen
none_seen [] = tt
none_seen (n ∷ names) = (refl, none_seen names)

error_of-none {ℓ} :
    {A : Type ℓ} (r : Result ConfigError A) → error_of r ≡ none → (a : A) × (r ≡ ok a)
error_of-none (ok a) h = (a, refl)
error_of-none (err e) h = cc h

check_peer-IsNamed :
    (role : Bytes) (peer : Peer) → error_of (check_peer role peer) ≡ none → IsNamed peer
unfolding check_peer
check_peer-IsNamed role peer h =
    let (_, whole) = error_of-none (check_peer role peer) h in
    let (seen, first, second) =
      >>=-eq-ok (check_names (empty_listen_name role) role (listen_names peer) []) _ whole in
    let (fresh, same) = check_names-ok _ role (listen_names peer) [] first in
    let (fresh', _) = check_names-ok _ role (dial_names peer) seen second in
    let both =
      (Fresh-append (listen_names peer) (dial_names peer) []).1
        (fresh, subst (λ s. Fresh s (dial_names peer)) same fresh') in
    let (given, _, distinct) = (Fresh-iff (listen_names peer ++ dial_names peer) []).0 both in
    record { given = given; distinct = distinct }

IsNamed-check_peer :
    (role : Bytes) (peer : Peer) → IsNamed peer → error_of (check_peer role peer) ≡ none
unfolding check_peer
IsNamed-check_peer role peer h =
    let names = listen_names peer ++ dial_names peer in
    let both = (Fresh-iff names []).1 (h.given, none_seen names, h.distinct) in
    let (fresh, fresh') = (Fresh-append (listen_names peer) (dial_names peer) []).0 both in
    rw (check_names-Fresh (empty_listen_name role) role (listen_names peer) [] fresh)
      (ap error_of (check_names-Fresh (empty_dial_name role) role (dial_names peer) _ fresh'))

then_check_iff :
    (first second : Option ConfigError)
    → (then_check first second ≡ none) ↔ ((first ≡ none) × (second ≡ none))
then_check_iff none second = (λ h. (refl, h), λ h. h.1)
then_check_iff (some e) second = (λ h. cc h, λ h. cc (h.0))

check_peers_iff :
    (peers : Dict Bytes Peer) → (check_peers peers ≡ none) ↔ All (λ p. IsNamed p.1) peers
unfolding check_peers
check_peers_iff [] = (λ h. tt, λ h. refl)
check_peers_iff ((role, peer) ∷ peers) =
    let rest = check_peers_iff peers in
    let both = then_check_iff (error_of (check_peer role peer)) (check_peers peers) in
    (
      λ h. (check_peer-IsNamed role peer (both.0 h).0, rest.0 (both.0 h).1),
      λ h. both.1 (IsNamed-check_peer role peer h.0, rest.1 h.1),
    )

known_role_iff : (role : Bytes) → (known_role role ≡ none) ↔ IsRole role
known_role_iff role = ground (arith, bytes_eq_iff role role_peer_a, bytes_eq_iff role role_peer_b)

check_roles_iff :
    (peers : Dict Bytes Peer) → (check_roles peers ≡ none) ↔ All (λ p. IsRole p.0) peers
unfolding check_roles
check_roles_iff [] = (λ h. tt, λ h. refl)
check_roles_iff ((role, peer) ∷ peers) =
    let rest = check_roles_iff peers in
    let here = known_role_iff role in
    let both = then_check_iff (known_role role) (check_roles peers) in
    (λ h. (here.0 (both.0 h).0, rest.0 (both.0 h).1), λ h. both.1 (here.1 h.0, rest.1 h.1))

required_iff : (e : ConfigError) (s : Bytes) → (required e s ≡ none) ↔ (s ≢ [])
required_iff e [] = (λ h. cc h, λ h. absurd (h refl))
required_iff e (b ∷ s) = (λ h. λ eq. cc eq, λ h. refl)

present_iff {ℓ} :
    {A : Type ℓ} (e : ConfigError) (o : Option A) → (present e o ≡ none) ↔ ((a : A) × (o ≡ some a))
present_iff e none = (λ h. cc h, λ h. cc (h.1))
present_iff e (some a) = (λ h. (a, refl), λ h. refl)

-- `validate` accepts exactly the configurations with a session id, a signaling URL, both peers and
-- no other, and for each of them names that are not empty and stand once among its listen and dial
-- entries together; the order in which it ranges over the map makes no difference.
pub validate_iff : (c : Config) → (validate c ≡ none) ↔ IsAccepted c
unfolding validate
validate_iff c =
    let a = required_iff no_session_id c.session_id in
    let b = required_iff no_signaling_url c.signaling.url in
    let r = check_roles_iff c.peers in
    let pa = present_iff peer_a_missing (lookup role_peer_a c.peers) in
    let pb = present_iff peer_b_missing (lookup role_peer_b c.peers) in
    let n = check_peers_iff c.peers in
    (
      λ h.
          let (h₁, t₁) = (then_check_iff _ _).0 h in
          let (h₂, t₂) = (then_check_iff _ _).0 t₁ in
          let (h₃, t₃) = (then_check_iff _ _).0 t₂ in
          let (h₄, t₄) = (then_check_iff _ _).0 t₃ in
          let (h₅, h₆) = (then_check_iff _ _).0 t₄ in
          record {
            session = a.0 h₁;
            url = b.0 h₂;
            roles = r.0 h₃;
            has_a = pa.0 h₄;
            has_b = pb.0 h₅;
            named = n.0 h₆;
          },
      λ v. rw (a.1 v.session, b.1 v.url, r.1 v.roles, pa.1 v.has_a, pb.1 v.has_b, n.1 v.named),
    )
