-- ===== src/Main/EndToEnd.antt =====
-- From the configuration (internal/config/config.go) over the dial map of cmd/nl-punch/main.go to the
-- dials of the router (internal/forward/forward.go).
use nl_punch.Prelude.{
  ℕ, ◌^◌, ◌<◌, ◌≤◌, [], ◌∷◌, List, map, Bytes, nat_eq, string_eq, Bool, true, length, get_elem?,
  All, All-append_parts, All-get_elem?, get_elem?-map, none, some, ◌≡◌, ◌≢◌, refl, sym, ap, ◌∙◌,
  arith,
}
use nl_punch.Prelude.Dict.{lookup}
use nl_punch.Stream.{IsByte, Writer}
use nl_punch.Config.{Config, Peer, ListenSpec, validate, listen_names, dial_names}
use nl_punch.Config.Accepts.{IsNamed, validate_iff}
use nl_punch.Forward.Listener.Sequence.{Inbound, IsInbound, routed, routed_lem}
use nl_punch.Forward.Pump.{IsRead, IsUnbroken}
use nl_punch.Forward.Tunnel.Exact.{IsTunnelled, tunnel_exact}
use nl_punch.Forward.Router.{new_accept_router, dial_group}
use nl_punch.Main.{dial_map}
use nl_punch.Main.Dials.{or_else, own_port, dial_map-validate}

-- A connection at a listen entry of the other peer, whose name a header can carry, and the port that
-- the two configurations give it.
pub record IsConfigured (me other : Peer) (x : Inbound) : Type 0 where
  pub index : ℕ
  pub spec : ListenSpec
  pub entry : get_elem? other.listen index ≡ some spec
  pub named : x.name ≡ spec.name
  pub bytes : All IsByte x.name
  pub fits : length x.name ≤ 255
  pub small : x.random < 2 ^ 64
  pub opened : x.opens 0 ≡ some (record { written = []; room = none })
  pub target : or_else (own_port spec.name me.dial) (some spec.remote_port) ≡ some x.port

length-given : (s : Bytes) → s ≢ [] → 0 < length s
length-given [] given = absurd (given refl)
length-given (b ∷ s) given = omega arith

-- No listen entry of an accepted configuration has an empty name.
listen_given :
    (c : Config) (i j : ℕ) (role : Bytes) (other : Peer) (l : ListenSpec)
    → validate c ≡ none
    → get_elem? c.peers j ≡ some (role, other)
    → get_elem? other.listen i ≡ some l
    → l.name ≢ []
listen_given c i j role other l accepted peer entry =
    let named =
      All-get_elem? (λ p. IsNamed p.1) c.peers j ((validate_iff c).0 accepted).named peer in
    let (listens, _) =
      All-append_parts (λ n. n ≢ []) (listen_names other) (dial_names other) named.given in
    All-get_elem? (λ n. n ≢ []) (listen_names other) i listens
      (get_elem?-map (λ l. l.name) other.listen i entry)

module _ (c : Config) (j : ℕ) (role : Bytes) (me other : Peer) (accepted : validate c ≡ none)
    (peer : get_elem? c.peers j ≡ some (role, other)) where
  IsConfigured-IsInbound : (x : Inbound) → IsConfigured me other x → IsInbound (dial_map me other) x
  IsConfigured-IsInbound x v =
      let given = listen_given c v.index j role other v.spec accepted peer v.entry in
      record {
        tag = record {
          bytes = v.bytes;
          given = length-given x.name (λ e. given (sym v.named ∙ e));
          fits = v.fits;
        };
        small = v.small;
        opened = v.opened;
        known =
            ap (λ n. lookup n (dial_map me other)) v.named
            ∙ dial_map-validate c v.index j role me other v.spec accepted peer v.entry
            ∙ v.target;
      }

  All-IsInbound :
      (xs : List Inbound) → All (IsConfigured me other) xs → All (IsInbound (dial_map me other)) xs
  All-IsInbound [] v = tt
  All-IsInbound (x ∷ xs) (here, rest) = (IsConfigured-IsInbound x here, All-IsInbound xs rest)

  -- Under a configuration that `validate` accepts, every connection at a listen entry of the other
  -- peer is dialed here: at the port of this peer's own dial entry of that name, else at the entry's
  -- remote port; in whatever order their streams arrive, and the table of the router is empty again
  -- after each. The names fit a header, and the connections of the streams hold.
  pub routed-dial_map :
      (ports : ℕ → Bool) (xs : List Inbound)
      → All (IsConfigured me other) xs
      → routed ports (new_accept_router (dial_map me other)) xs ≡ (
        new_accept_router (dial_map me other),
        map (λ x. dial_group ports x.port (some x.stream ∷ [])) xs,
      )
  routed-dial_map ports xs v = routed_lem ports (dial_map me other) xs (All-IsInbound xs v)

  -- Under a configuration that `validate` accepts, what a client sends into a listen entry of the other
  -- peer is what a service of this one gets: the one at this peer's own dial entry of that name, else
  -- at the entry's remote port. The name fits a header; the stream, the dial and the connection to the
  -- service hold; there are fewer than 2 ^ 32 reads, of at most 64 KiB each.
  pub tunnel-dial_map :
      (x : Inbound) (ports : ℕ → Bool) (reads : List Bytes) (picks : List ℕ) (counter total : ℕ)
      (dst : Writer)
      → IsConfigured me other x
      → ports x.port ≡ true
      → length reads < 2 ^ 32
      → counter < 2 ^ 64
      → total < 2 ^ 64
      → All IsRead reads
      → All (λ i. i < 1) picks
      → length reads ≤ length picks
      → IsUnbroken dst
      → (w : Writer) × (n : ℕ) × IsTunnelled ports
          (dial_map me other)
          x
          reads
          picks
          counter
          total
          dst
          w
          n
  tunnel-dial_map x ports reads picks counter total dst v =
      tunnel_exact (dial_map me other) x (IsConfigured-IsInbound x v) ports reads picks counter
        total dst
