-- ===== src/Main/Dials.antt =====
-- The dial map of `runOnce` (cmd/nl-punch/main.go), by name.
use nl_punch.Prelude.{
  ℕ, zero, suc, [], ◌∷◌, ◌++◌, List, map, Bytes, nat_eq, string_eq, bytes_eq, bytes_eq_iff,
  bytes_eq_refl, bytes_eq_ne, Bool, true, false, if◌then◌else◌, get_elem?, All, All-get_elem?,
  get_elem?-map, Option, none, some, some-injective, ◌≡◌, ◌≢◌, refl, sym, ap, ◌∙◌, Option-cases,
  Bool-cases, inl, inr,
}
use nl_punch.Prelude.Dict.{Dict, lookup, insert, lookup-insert, lookup-insert_self}
use nl_punch.Config.{ListenSpec, DialSpec, Peer, Config, validate, listen_names, dial_names}
use nl_punch.Config.Accepts.{Distinct, IsNamed, validate_iff}
use nl_punch.Main.{dial_targets, unless_already, remote_targets, dial_map}

abbrev pub or_else {ℓ} : {A : Type ℓ} → Option A → Option A → Option A
or_else none o = o
or_else (some a) o = some a

-- The port of the last dial entry of this name.
unfoldable pub own_port : Bytes → List DialSpec → Option ℕ
own_port name [] = none
own_port name (d ∷ ds) =
    or_else (own_port name ds) (if bytes_eq d.name name then some d.local_port else none)

-- The remote port of the first listen entry of this name.
asked_port : Bytes → List ListenSpec → Option ℕ
asked_port name [] = none
asked_port name (l ∷ ls) =
    or_else (if bytes_eq l.name name then some l.remote_port else none) (asked_port name ls)

or_else_assoc {ℓ} :
    {A : Type ℓ} (a b c : Option A) → or_else (or_else a b) c ≡ or_else a (or_else b c)
or_else_assoc none b c = refl
or_else_assoc (some x) b c = refl

if-or_else {ℓ} :
    {A : Type ℓ} (b : Bool) (a : A) (o : Option A)
    → (if b then some a else o) ≡ or_else (if b then some a else none) o
if-or_else true a o = refl
if-or_else false a o = refl

lookup-dial_targets :
    (name : Bytes) (ds : List DialSpec) (dials : Dict Bytes ℕ)
    → lookup name (dial_targets ds dials) ≡ or_else (own_port name ds) (lookup name dials)
unfolding dial_targets own_port
lookup-dial_targets name [] dials = refl
lookup-dial_targets name (d ∷ ds) dials =
    lookup-dial_targets name ds (insert d.name d.local_port dials)
    ∙ ap (or_else (own_port name ds)) (
        lookup-insert d.name name d.local_port dials
        ∙ if-or_else (bytes_eq d.name name) d.local_port (lookup name dials))
    ∙ sym (or_else_assoc (own_port name ds) _ (lookup name dials))

or_else-none {ℓ} : {A : Type ℓ} (o : Option A) → or_else o none ≡ o
or_else-none none = refl
or_else-none (some a) = refl

lookup-unless_already :
    (name : Bytes) (l : ListenSpec) (dials : Dict Bytes ℕ)
    → lookup name (unless_already (lookup l.name dials) l dials)
      ≡ or_else (lookup name dials) (if bytes_eq l.name name then some l.remote_port else none)
lookup-unless_already name l dials = elim (Bool-cases (bytes_eq l.name name)) [
  | inl same ↦
      let e : l.name ≡ name = (bytes_eq_iff l.name name).0 same in
      elim (Option-cases (lookup name dials)) [
        | inl new ↦ rw (same, e, new, unless_already) (lookup-insert_self name l.remote_port dials)
        | inr (port, old) ↦ rw (same, e, old, unless_already) old
      ]
  | inr apart ↦ elim (Option-cases (lookup l.name dials)) [
    | inl new ↦
        rw (apart, new, unless_already, lookup-insert l.name name l.remote_port dials)
          (rw apart (sym (or_else-none (lookup name dials))))
    | inr (port, old) ↦ rw (apart, old, unless_already) (sym (or_else-none (lookup name dials)))
  ]
]

lookup-remote_targets :
    (name : Bytes) (ls : List ListenSpec) (dials : Dict Bytes ℕ)
    → lookup name (remote_targets ls dials) ≡ or_else (lookup name dials) (asked_port name ls)
unfolding remote_targets asked_port
lookup-remote_targets name [] dials = sym (or_else-none (lookup name dials))
lookup-remote_targets name (l ∷ ls) dials =
    lookup-remote_targets name ls (unless_already (lookup l.name dials) l dials)
    ∙ ap (λ o. or_else o (asked_port name ls)) (lookup-unless_already name l dials)
    ∙ or_else_assoc (lookup name dials) _ (asked_port name ls)

-- A tag is dialed at the port of this peer's own dial entry for it, the last one of that name; with
-- no such entry, at the remote port of the other peer's first listen entry of that name; any other
-- tag is unknown.
lookup-dial_map :
    (name : Bytes) (me other : Peer)
    → lookup name (dial_map me other)
      ≡ or_else (own_port name me.dial) (asked_port name other.listen)
unfolding dial_map lookup
lookup-dial_map name me other =
    lookup-remote_targets name other.listen (dial_targets me.dial [])
    ∙ ap (λ o. or_else o (asked_port name other.listen))
        (lookup-dial_targets name me.dial [] ∙ or_else-none (own_port name me.dial))

All-append_left {ℓ κ} : {A : Type ℓ} (P : A → Type κ) (xs ys : List A) → All P (xs ++ ys) → All P xs
All-append_left P [] ys h = tt
All-append_left P (x ∷ xs) ys h = (h.0, All-append_left P xs ys h.1)

pub Distinct-append : (xs ys : List Bytes) → Distinct (xs ++ ys) → Distinct xs
Distinct-append [] ys h = tt
Distinct-append (x ∷ xs) ys h = (All-append_left (λ m. m ≢ x) xs ys h.0, Distinct-append xs ys h.1)

asked_port-Distinct :
    (ls : List ListenSpec) (i : ℕ) (l : ListenSpec)
    → Distinct (map (λ l. l.name) ls)
    → get_elem? ls i ≡ some l
    → asked_port l.name ls ≡ some l.remote_port
unfolding asked_port
asked_port-Distinct [] i l d at = cc at
asked_port-Distinct (x ∷ ls) zero l d at =
    let e : x ≡ l = some-injective _ _ at in rw (e, bytes_eq_refl l.name)
asked_port-Distinct (x ∷ ls) (suc i) l d at =
    let apart =
      All-get_elem? (λ m. m ≢ x.name) (map (λ l. l.name) ls) i d.0
        (get_elem?-map (λ l. l.name) ls i at) in
    rw (bytes_eq_ne x.name l.name (λ e. apart (sym e))) (asked_port-Distinct ls i l d.1 at)

-- Under a configuration that `validate` accepts, this peer knows the tag of every listen entry of
-- the other one, and dials it at its own dial entry's port, else at the entry's remote port.
pub dial_map-validate :
    (c : Config) (i j : ℕ) (role : Bytes) (me other : Peer) (l : ListenSpec)
    → validate c ≡ none
    → get_elem? c.peers j ≡ some (role, other)
    → get_elem? other.listen i ≡ some l
    → lookup l.name (dial_map me other) ≡ or_else (own_port l.name me.dial) (some l.remote_port)
dial_map-validate c i j role me other l accepted peer entry =
    let named =
      All-get_elem? (λ p. IsNamed p.1) c.peers j ((validate_iff c).0 accepted).named peer in
    let distinct = Distinct-append (listen_names other) (dial_names other) named.distinct in
    lookup-dial_map l.name me other
    ∙ ap (or_else (own_port l.name me.dial)) (asked_port-Distinct other.listen i l distinct entry)
