-- ===== src/Forward/Listener/Sockets.antt =====
-- The sockets of a `TCPListener` (internal/forward/forward.go): each is in the table, so that
-- `Close` finds it.
use nl_punch.Prelude.{
  ℕ, ◌+◌, [], ◌∷◌, List, map, Bytes, nat_eq, string_eq, bytes_eq, Bool, true, false, length, All,
  Option, none, ◌≡◌, ◌≢◌, refl, sym, ap, ◌∙◌, arith, Option-cases, Bool-cases, inl, inr,
}
use nl_punch.Prelude.Dict.{Dict, lookup, insert, delete, lookup-insert_ne}
use nl_punch.Config.Accepts.{Distinct}
use nl_punch.Forward.Listener.{
  ListenSpec, TcpListener, new_tcp_listener, close_socket, close_listeners, close, start_listeners,
}

-- The table has exactly the open sockets.
abbrev IsTracked : TcpListener → Type 0
IsTracked l = (l.sockets ≡ map (λ p. p.1) l.listeners) × (l.closed ≡ false)

delete_missing :
    (name : Bytes) (lns : Dict Bytes ℕ) → lookup name lns ≡ none → delete name lns ≡ lns
unfolding delete lookup
delete_missing name [] h = refl
delete_missing name ((n, ln) ∷ lns) h = elim (Bool-cases (bytes_eq n name)) [
  | inl same ↦ cc (rw same at h)
  | inr apart ↦ rw apart (ap (λ m. (n, ln) ∷ m) (delete_missing name lns (rw apart at h)))
]

close_listeners_nil : (lns : Dict Bytes ℕ) → close_listeners lns [] ≡ []
unfolding close_listeners close_socket
close_listeners_nil [] = refl
close_listeners_nil ((n, ln) ∷ lns) = close_listeners_nil lns

-- Closing in between the sockets that are closed anyway makes no difference.
close_socket-sub : (ln : ℕ) (s : ℕ) (ss : List ℕ) → close_socket ln (ln ∷ ss) ≡ close_socket ln ss
unfolding close_socket
close_socket-sub ln s ss = ground arith

close_socket_swap :
    (a b : ℕ) (ss : List ℕ)
    → close_socket a (close_socket b ss) ≡ close_socket b (close_socket a ss)
unfolding close_socket
close_socket_swap a b [] = refl
close_socket_swap a b (s ∷ ss) = ground (arith, close_socket_swap a b ss)

close_listeners-close_socket :
    (lns : Dict Bytes ℕ) (a : ℕ) (ss : List ℕ)
    → close_listeners lns (close_socket a ss) ≡ close_socket a (close_listeners lns ss)
unfolding close_listeners
close_listeners-close_socket [] a ss = refl
close_listeners-close_socket ((n, ln) ∷ lns) a ss =
    ap (close_listeners lns) (close_socket_swap ln a ss)
    ∙ close_listeners-close_socket lns a (close_socket ln ss)

close_listeners_all : (lns : Dict Bytes ℕ) → close_listeners lns (map (λ p. p.1) lns) ≡ []
unfolding close_listeners close_socket
close_listeners_all [] = refl
close_listeners_all ((n, ln) ∷ lns) =
    ap (close_listeners lns) (close_socket-sub ln ln (map (λ p. p.1) lns))
    ∙ close_listeners-close_socket lns ln (map (λ p. p.1) lns)
    ∙ ap (close_socket ln) (close_listeners_all lns)

close-IsTracked : (l : TcpListener) → IsTracked l → (close l).sockets ≡ []
unfolding close
close-IsTracked l (same, up) = rw (up, same) (close_listeners_all l.listeners)

abbrev AreNew : List ListenSpec → Dict Bytes ℕ → Type 0
AreNew specs lns = All (λ spec. lookup spec.name lns ≡ none) specs

AreNew-insert :
    (name : Bytes) (ln : ℕ) (specs : List ListenSpec) (lns : Dict Bytes ℕ)
    → All (λ m. m ≢ name) (map (λ spec. spec.name) specs)
    → AreNew specs lns
    → AreNew specs (insert name ln lns)
AreNew-insert name ln [] lns apart h = tt
AreNew-insert name ln (spec ∷ specs) lns apart h = (
  lookup-insert_ne name spec.name ln lns (λ e. apart.0 (sym e)) ∙ h.0,
  AreNew-insert name ln specs lns apart.1 h.1,
)

insert-IsTracked :
    (name : Bytes) (ln : ℕ) (l : TcpListener)
    → lookup name l.listeners ≡ none
    → IsTracked l
    → IsTracked (record l { listeners = insert name ln l.listeners; sockets = ln ∷ l.sockets })
unfolding insert
insert-IsTracked name ln l new (same, up) =
    (rw (delete_missing name l.listeners new, same) refl, up)

-- What `Start` leaves, with the number of sockets that are open.
record IsStarted (n : ℕ) (l : TcpListener × Bool) : Type 0 where
  pub failed : l.1 ≡ false → l.0.sockets ≡ []
  all_bound : l.1 ≡ true → (length l.0.sockets ≡ n) × IsTracked l.0

start_listeners-IsStarted :
    (bind : ListenSpec → Option ℕ) (specs : List ListenSpec) (l : TcpListener)
    → Distinct (map (λ spec. spec.name) specs)
    → AreNew specs l.listeners
    → IsTracked l
    → IsStarted (length specs + length l.sockets) (start_listeners bind specs l)
unfolding start_listeners
start_listeners-IsStarted bind [] l d new t = record {
  failed = λ e. cc e;
  all_bound = λ e. (omega arith, t);
}
start_listeners-IsStarted bind (spec ∷ specs) l d new t = elim (Option-cases (bind spec)) [
  | inl refused ↦
      rw (start_listeners, refused)
        (record { failed = λ e. close-IsTracked l t; all_bound = λ e. cc e })
  | inr (ln, bound) ↦
      let l' : TcpListener = record l {
        listeners = insert spec.name ln l.listeners;
        sockets = ln ∷ l.sockets;
      } in
      let rest =
        start_listeners-IsStarted bind specs l' d.1
          (AreNew-insert spec.name ln specs l.listeners d.0 new.1)
          (insert-IsTracked spec.name ln l new.0 t) in
      rw (start_listeners, bound)
        (record {
          failed = rest.failed;
          all_bound = λ e. (omega (arith, (rest.all_bound e).0), (rest.all_bound e).1);
        })
]

none_new : (specs : List ListenSpec) → AreNew specs []
unfolding lookup
none_new [] = tt
none_new (spec ∷ specs) = (refl, none_new specs)

-- `Start` on specs of different names leaves no socket open if one cannot be bound; otherwise it
-- leaves one for each spec, and `Close` then closes them all.
pub start_listeners_lem :
    (bind : ListenSpec → Option ℕ) (specs : List ListenSpec)
    → Distinct (map (λ spec. spec.name) specs)
    → let o = start_listeners bind specs new_tcp_listener in
      (o.1 ≡ false → o.0.sockets ≡ [])
      × (o.1 ≡ true → (length o.0.sockets ≡ length specs) × ((close o.0).sockets ≡ []))
start_listeners_lem bind specs d =
    let s = start_listeners-IsStarted bind specs new_tcp_listener d (none_new specs) (refl, refl) in
    (s.failed, λ e. (omega (arith, (s.all_bound e).0), close-IsTracked _ (s.all_bound e).1))
