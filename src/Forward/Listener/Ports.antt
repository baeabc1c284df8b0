-- ===== src/Forward/Listener/Ports.antt =====
-- What `BoundPorts` of internal/forward/forward.go says after `Start`.
use nl_punch.Prelude.{
  ℕ, zero, suc, [], ◌∷◌, List, map, Bytes, nat_eq, string_eq, bytes_eq, Bool, true, false,
  if◌then◌else◌, get_elem?, All, Option, none, some, some-injective, ◌≡◌, ◌≢◌, refl, sym, ap, ◌∙◌,
  Option-cases, inl, inr,
}
use nl_punch.Prelude.Dict.{
  Dict, lookup, insert, lookup-insert, lookup-insert_self, lookup-insert_ne,
}
use nl_punch.Config.Accepts.{Distinct}
use nl_punch.Forward.Listener.{
  ListenSpec, TcpListener, new_tcp_listener, start_listeners, bound_ports,
}

abbrev map_port : (ℕ → ℕ) → Option ℕ → Option ℕ
map_port port_of none = none
map_port port_of (some ln) = some (port_of ln)

if_found :
    (port_of : ℕ → ℕ) (b : Bool) (ln : ℕ) (p q : Option ℕ)
    → p ≡ map_port port_of q
    → (if b then some (port_of ln) else p) ≡ map_port port_of (if b then some ln else q)
if_found port_of true ln p q e = refl
if_found port_of false ln p q e = e

lookup-bound_ports :
    (port_of : ℕ → ℕ) (name : Bytes) (lns : Dict Bytes ℕ)
    → lookup name (bound_ports port_of lns) ≡ map_port port_of (lookup name lns)
unfolding bound_ports lookup
lookup-bound_ports port_of name [] = refl
lookup-bound_ports port_of name ((n, ln) ∷ lns) =
    lookup-insert n name (port_of ln) (bound_ports port_of lns)
    ∙ if_found port_of (bytes_eq n name) ln _ _ (lookup-bound_ports port_of name lns)

-- A listener that is bound stays in the table while others are.
start_listeners-keeps :
    (bind : ListenSpec → Option ℕ) (specs : List ListenSpec) (l : TcpListener) (name : Bytes)
    (ln : ℕ)
    → All (λ m. m ≢ name) (map (λ spec. spec.name) specs)
    → (start_listeners bind specs l).1 ≡ true
    → lookup name l.listeners ≡ some ln
    → lookup name (start_listeners bind specs l).0.listeners ≡ some ln
unfolding start_listeners
start_listeners-keeps bind [] l name ln apart up e = e
start_listeners-keeps bind (spec ∷ specs) l name ln apart up e = elim (Option-cases (bind spec)) [
  | inl refused ↦ cc (rw (start_listeners, refused) at up)
  | inr (sock, bound) ↦
      rw (start_listeners, bound)
        (start_listeners-keeps bind specs
          (record l { listeners = insert spec.name sock l.listeners; sockets = sock ∷ l.sockets })
          name ln apart.1 (rw (start_listeners, bound) at up)
          (lookup-insert_ne spec.name name sock l.listeners apart.0 ∙ e))
]

start_listeners-finds :
    (bind : ListenSpec → Option ℕ) (specs : List ListenSpec) (l : TcpListener) (i : ℕ)
    (s : ListenSpec)
    → Distinct (map (λ spec. spec.name) specs)
    → (start_listeners bind specs l).1 ≡ true
    → get_elem? specs i ≡ some s
    → (ln : ℕ) × (bind s ≡ some ln)
      × (lookup s.name (start_listeners bind specs l).0.listeners ≡ some ln)
unfolding start_listeners
start_listeners-finds bind [] l i s d up at = cc at
start_listeners-finds bind (spec ∷ specs) l zero s d up at = elim (Option-cases (bind spec)) [
  | inl refused ↦ cc (rw (start_listeners, refused) at up)
  | inr (sock, bound) ↦
      let same : s ≡ spec = sym (some-injective _ _ at) in
      rw (start_listeners, bound)
        (
          sock,
          ap bind same ∙ bound,
          ap
                (λ n.
                  lookup n
                    (start_listeners bind specs (record l {
                      listeners = insert spec.name sock l.listeners;
                      sockets = sock ∷ l.sockets;
                    })).0.listeners)
                (ap (λ x. x.name) same)
              ∙ start_listeners-keeps bind specs _ spec.name sock d.0
                  (rw (start_listeners, bound) at up)
                  (lookup-insert_self spec.name sock l.listeners),
        )
]
start_listeners-finds bind (spec ∷ specs) l (suc i) s d up at = elim (Option-cases (bind spec)) [
  | inl refused ↦ cc (rw (start_listeners, refused) at up)
  | inr (sock, bound) ↦
      rw (start_listeners, bound)
        (start_listeners-finds bind specs
          (record l { listeners = insert spec.name sock l.listeners; sockets = sock ∷ l.sockets }) i
          s d.1 (rw (start_listeners, bound) at up) at)
]

-- When `Start` has bound specs of different names, `BoundPorts` has each of these names, with the port
-- of the socket that was bound for its spec.
pub start_listeners-bound_ports :
    (bind : ListenSpec → Option ℕ) (port_of : ℕ → ℕ) (specs : List ListenSpec) (i : ℕ)
    (s : ListenSpec)
    → Distinct (map (λ spec. spec.name) specs)
    → (start_listeners bind specs new_tcp_listener).1 ≡ true
    → get_elem? specs i ≡ some s
    → (ln : ℕ) × (bind s ≡ some ln)
      × (lookup s.name
            (bound_ports port_of (start_listeners bind specs new_tcp_listener).0.listeners)
          ≡ some (port_of ln))
start_listeners-bound_ports bind port_of specs i s d up at =
    let (ln, bound, found) = start_listeners-finds bind specs new_tcp_listener i s d up at in
    (
      ln,
      bound,
      lookup-bound_ports port_of s.name (start_listeners bind specs new_tcp_listener).0.listeners
          ∙ ap (map_port port_of) found,
    )
