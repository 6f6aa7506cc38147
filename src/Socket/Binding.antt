-- ===== src/Socket/Binding.antt =====
-- The address and the family of a socket that `new_socket` of src/net_util.rs makes.
use Prim.Native.String.{◌++◌}
use iperf3_rust.Common.{
  String, Bool, true, false, ◌≡◌, refl, sym, ap, ◌∙◌, Option, none, some, if◌then◌else◌, arith,
}
use iperf3_rust.Error.{Error, Io, done, failed}
use iperf3_rust.Outcome.{Result, ok, continue_with, continue_with-eq-ok}
use iperf3_rust.Net.Interface.{Net}
use iperf3_rust.Host.{Host}
use iperf3_rust.Socket.{new_socket, socket_addr, io_error, parsed}

module _ {n : Net} (h : Host n) where
  -- The address that the options ask for.
  abbrev pub Asked : Option String → Bool → h.SocketAddr → Type 0
  Asked (some addr) prefer_ipv6 a = h.parse_addr (addr ++ ":0") ≡ some a
  Asked none true a = a ≡ h.unspecified_v6 0
  Asked none false a = a ≡ h.unspecified_v4 0

  parsed-eq-ok :
      (o : Option h.SocketAddr) (a : h.SocketAddr) (w : h.World)
      → (parsed o w).0 ≡ ok a
      → o ≡ some a
  parsed-eq-ok (some x) a w e = cc
  parsed-eq-ok none a w e = cc

  socket_addr-Asked :
      (bind_addr : Option String) (prefer_ipv6 : Bool) (a : h.SocketAddr) (w : h.World)
      → (socket_addr h bind_addr prefer_ipv6 w).0 ≡ ok a
      → Asked bind_addr prefer_ipv6 a
  socket_addr-Asked (some addr) prefer_ipv6 a w e = parsed-eq-ok (h.parse_addr (addr ++ ":0")) a w e
  socket_addr-Asked none true a w e = cc
  socket_addr-Asked none false a w e = cc

  socket_addr-world :
      (bind_addr : Option String) (prefer_ipv6 : Bool) (w : h.World)
      → (socket_addr h bind_addr prefer_ipv6 w).1 ≡ w
  socket_addr-world bind_addr prefer_ipv6 w = ground arith

  -- What follows once there is an address, and once there is a socket.
  abbrev bound_to : h.SocketAddr → Io h.Socket × h.World → Result Error h.Socket × h.World
  bound_to a made =
      continue_with (io_error made)
        λ s w1. continue_with (io_error (h.bind a s w1)) λ _ w2. (ok s, w2)

  kept_socket :
      (r : Io (Unit {0}) × h.World) (s socket : h.Socket)
      → (continue_with {E = Error} (io_error r) λ _ w2. (ok s, w2)).0 ≡ ok socket
      → (s ≡ socket)
        × (r ≡ (done tt, (continue_with {E = Error} (io_error r) λ _ w2. (ok s, w2)).1))
  kept_socket (done tt, w2) s socket e = (cc, refl)
  kept_socket (failed x, w2) s socket e = cc

  bound_to-eq-ok :
      (a : h.SocketAddr) (made : Io h.Socket × h.World) (socket : h.Socket)
      → (bound_to a made).0 ≡ ok socket
      → (w1 : h.World) × (made ≡ (done socket, w1))
        × (h.bind a socket w1 ≡ (done tt, (bound_to a made).1))
  bound_to-eq-ok a (done s, w1) socket e =
      let (same, b) = kept_socket (h.bind a s w1) s socket e in
      (w1, ap (λ x. (done x, w1)) same, ap (λ x. h.bind a x w1) (sym same) ∙ b)
  bound_to-eq-ok a (failed x, w1) socket e = cc

  -- If `new_socket` succeeds, the address is the one that was asked for with port 0, or without
  -- one the unspecified address of the preferred family; the socket was made in the family of this
  -- address, and it is then bound to this address.
  pub new_socket_bound :
      (bind_addr : Option String) (prefer_ipv6 : Bool) (w : h.World) (socket : h.Socket)
      → (new_socket h bind_addr prefer_ipv6 w).0 ≡ ok socket
      → (a : h.SocketAddr) × (w1 : h.World) × Asked bind_addr prefer_ipv6 a
        × ((if h.is_ipv4 a then h.new_v4 w else h.new_v6 w) ≡ (done socket, w1))
        × (h.bind a socket w1 ≡ (done tt, (new_socket h bind_addr prefer_ipv6 w).1))
  unfolding new_socket
  new_socket_bound bind_addr prefer_ipv6 w socket q =
      let (a, at, same) = continue_with-eq-ok (socket_addr h bind_addr prefer_ipv6 w) _ q in
      let from : new_socket h bind_addr prefer_ipv6 w
          ≡ bound_to a (if h.is_ipv4 a then h.new_v4 w else h.new_v6 w) =
        same
        ∙ ap (λ v. bound_to a (if h.is_ipv4 a then h.new_v4 v else h.new_v6 v))
            (socket_addr-world bind_addr prefer_ipv6 w) in
      let (w1, made, bound) = bound_to-eq-ok a _ socket (rw from at q) in
      (a, w1, socket_addr-Asked bind_addr prefer_ipv6 a w at, made, rw from bound)
