-- ===== src/Main/Session/Deferred.antt =====
-- What the deferred calls of `runOnce` (cmd/nl-punch/main.go) undo.
use mathlib.Core.Path.{subst}
use nl_punch.Prelude.{
  ℕ, [], ◌∷◌, List, map, some-injective, Bytes, nat_eq, string_eq, bytes_eq, true, length, All,
  Option, none, some, ◌≡◌, refl, sym, ap, ◌∙◌, arith, Bool-cases, inl, inr,
}
use nl_punch.Prelude.Dict.{Dict, lookup}
use nl_punch.Config.{Config, Peer, ListenSpec, listen_names, dial_names}
use nl_punch.Config.Accepts.{Distinct, IsNamed, IsAccepted}
use nl_punch.Main.Dials.{Distinct-append}
use nl_punch.Main.Startup.{to_fwd_listen}
use nl_punch.Main.Session.{
  Process, RunError, Run, on_result, deferred, is_in, left_open, or_zero, peer_of,
}

-- How a run stands: it is up, or it has ended and has left this process.
abbrev pub Stands {ℓ} :
    {E : Type ℓ} → (Run E → Type 0) → Process → Run E → Option (RunError E) → Type 0
Stands Up p r none = Up r
Stands Up p r (some e) = r.process ≡ p

module _ {ℓ} {E : Type ℓ} (Up : Run E → Type 0) (p q : Process) (undo : Process → Process)
    (undone : undo q ≡ p) (r : Run E) where
  on_result-Stands :
      (o : Option (RunError E))
      → r.result ≡ o
      → Stands Up q r o
      → Stands Up p (on_result undo r o) r.result
  on_result-Stands none e h = subst (Stands Up p r) (sym e) h
  on_result-Stands (some x) e h =
      subst (Stands Up p (record r { process = undo r.process })) (sym e) (ap undo h ∙ undone)

  result-on_result : (o : Option (RunError E)) → (on_result undo r o).result ≡ r.result
  result-on_result none = refl
  result-on_result (some x) = refl

  -- A deferred call.
  pub deferred-Stands :
      Stands Up q r r.result → Stands Up p (deferred undo r) (deferred undo r).result
  deferred-Stands h =
      subst (Stands Up p (deferred undo r)) (sym (result-on_result r.result))
        (on_result-Stands r.result refl h)

pub is_in_all : (cs : List ℕ) → All (λ c. is_in c cs ≡ true) cs
unfolding is_in
is_in_all cs = members cs cs (λ c h. h)
  where
    members :
        (cs all : List ℕ)
        → ((c : ℕ) → is_in c cs ≡ true → is_in c all ≡ true)
        → All (λ c. is_in c all ≡ true) cs
    members [] all sub = tt
    members (c ∷ cs) all sub =
        (sub c (ground arith), members cs all (λ d h. sub d (ground (arith, h))))

pub left_open_all :
    (closed cs : List ℕ) → All (λ c. is_in c closed ≡ true) cs → left_open closed cs ≡ []
unfolding left_open
left_open_all closed [] h = refl
left_open_all closed (c ∷ cs) h = rw h.0 (left_open_all closed cs h.1)

pub length-to_fwd_listen : (ls : List ListenSpec) → length (to_fwd_listen ls) ≡ length ls
unfolding to_fwd_listen
length-to_fwd_listen [] = refl
length-to_fwd_listen (l ∷ ls) = omega (arith, length-to_fwd_listen ls)

map-to_fwd_listen :
    (ls : List ListenSpec) → map (λ spec. spec.name) (to_fwd_listen ls) ≡ map (λ l. l.name) ls
unfolding to_fwd_listen
map-to_fwd_listen [] = refl
map-to_fwd_listen (l ∷ ls) = ap (λ names. l.name ∷ names) (map-to_fwd_listen ls)

All-lookup {ℓ κ} :
    {V : Type ℓ} (P : V → Type κ) (k : Bytes) (m : Dict Bytes V) (v : V)
    → All (λ p. P p.1) m
    → lookup k m ≡ some v
    → P v
unfolding lookup
All-lookup P k [] v h e = cc e
All-lookup P k ((j, w) ∷ m) v h e = elim (Bool-cases (bytes_eq j k)) [
  | inl same ↦ subst P (some-injective _ _ (rw same at e)) h.0
  | inr apart ↦ All-lookup P k m v h.1 (rw apart at e)
]

-- The names of a peer's listen entries differ.
pub listen-Distinct :
    (c : Config) (role : Bytes)
    → IsAccepted c
    → Distinct (map (λ spec. spec.name) (to_fwd_listen (peer_of c role).listen))
listen-Distinct c role v = rw (map-to_fwd_listen (peer_of c role).listen) (of_peer _ refl)
  where
    of_peer :
        (o : Option Peer)
        → lookup role c.peers ≡ o
        → Distinct (map (λ l. l.name) (or_zero o).listen)
    of_peer none e = tt
    of_peer (some peer) e =
        Distinct-append (listen_names peer) (dial_names peer)
          (All-lookup IsNamed role c.peers peer v.named e).distinct
