-- ===== src/Forward/Listener/Reaches.antt =====
-- From a connection at the listener of one peer to the dial of the other (internal/forward/forward.go).
use nl_punch.Prelude.{
  ℕ, ◌^◌, ◌<◌, ◌≤◌, [], ◌∷◌, ◌++◌, Bytes, nat_eq, string_eq, Bool, length, All, Option, none, some,
  ◌≡◌, refl, arith,
}
use nl_punch.Prelude.Dict.{lookup}
use nl_punch.Stream.{IoError, Writer, IsByte}
use nl_punch.Forward.Header.{header_bytes, write_stream_header}
use nl_punch.Forward.Header.Codec.{IsValid, read-write_stream_header}
use nl_punch.Forward.Listener.{session_of, stripe_header, open_stripes, accept_conn, pumping}
use nl_punch.Forward.Router.{
  AcceptRouter, handle, handle_header, join_group, all_ready, dial_group, by_port, or_new,
}

-- A name that a header can carry.
pub record IsTag (name : Bytes) : Type 0 where
  pub bytes : All IsByte name
  pub given : 0 < length name
  pub fits : length name ≤ 255

session_of-lt : (random : ℕ) → random < 2 ^ 64 → session_of random < 2 ^ 64
session_of-lt random small = ground arith

pub first_header-IsValid :
    (name : Bytes) (random : ℕ)
    → IsTag name
    → random < 2 ^ 64
    → IsValid (stripe_header name (session_of random) 1 0)
first_header-IsValid name random t small = record {
  tag_bytes = t.bytes;
  tag_nonempty = t.given;
  tag_fits = t.fits;
  session_fits = session_of-lt random small;
  stripe_fits = omega arith;
  stripes_fit = omega arith;
  stripes_pos = omega arith;
}

pub accept_conn-fresh :
    (name : Bytes) (random : ℕ) (opens : ℕ → Option Writer) (w : Writer)
    → opens 0 ≡ some w
    → write_stream_header w (stripe_header name (session_of random) 1 0) ≡ (
      record w { written = w.written ++ header_bytes (stripe_header name (session_of random) 1 0) },
      none,
    )
    → accept_conn name random opens
      ≡ pumping (
          record w {
            written = w.written ++ header_bytes (stripe_header name (session_of random) 1 0);
          }
          ∷ [])
unfolding accept_conn open_stripes
accept_conn-fresh name random opens w e written = rw (e, written)

handle_header-single :
    (ports : ℕ → Bool) (a : AcceptRouter) (s : ℕ) (name : Bytes) (session port : ℕ)
    → lookup name a.dials ≡ some port
    → lookup session a.groups ≡ none
    → (handle_header ports a s (stripe_header name session 1 0)).1
      ≡ dial_group ports port (some s ∷ [])
unfolding handle_header join_group all_ready
handle_header-single ports a s name session port known new = rw (known, by_port, new, or_new) refl

-- A TCP connection at a listener reaches the port that the other peer's dial map has for its name:
-- the stream that the listener opens carries a header that the router reads, and the router dials
-- with that one stream, as far as the connection of the streams holds and the session id is not in
-- use.
accept_conn-handle :
    (name : Bytes) (random : ℕ) (opens : ℕ → Option Writer) (w : Writer) (later : Bytes)
    (fault : IoError) (ports : ℕ → Bool) (a : AcceptRouter) (s port : ℕ)
    → IsTag name
    → random < 2 ^ 64
    → opens 0 ≡ some w
    → w.room ≡ none
    → w.written ≡ []
    → lookup name a.dials ≡ some port
    → lookup (session_of random) a.groups ≡ none
    → (sent : Writer) × (accept_conn name random opens ≡ pumping (sent ∷ []))
      × ((handle ports a s (record { rest = sent.written ++ later; fault = fault })).1
          ≡ dial_group ports port (some s ∷ []))
unfolding handle
accept_conn-handle name random opens w later fault ports a s port tag small e free fresh known new =
    let h = stripe_header name (session_of random) 1 0 in
    let v = first_header-IsValid name random tag small in
    let (written, read) = read-write_stream_header h later fault w v free in
    (
      record w { written = w.written ++ header_bytes h },
      accept_conn-fresh name random opens w e written,
      rw (fresh, handle, read)
          (handle_header-single ports a s name (session_of random) port known new),
    )
