-- ===== src/Socket.antt =====
-- The sockets of data and control connections: `new_socket` and `TcpStreamExt` of src/net_util.rs and `set_mss` of
-- src/net_util_linux.rs.
pub mod Binding
use Prim.Native.String.{◌++◌}
use iperf3_rust.Common.{ℕ, ◌%◌, ◌^◌, String, Bool, Option, none, some, ◌==◌, if◌then◌else◌}
use iperf3_rust.Error.{Error, call_libc_error, parse_address_error, Io, done, failed}
use iperf3_rust.Outcome.{Result, ok, err, Action, ◌>>=◌, ◌>>◌, pure, throw}
use iperf3_rust.Net.Interface.{Net}
use iperf3_rust.Host.{Host}

-- `?` on an `io::Result` in a function that returns `Error`.
abbrev pub io_error : {S A : Type 0} → Io A × S → Result Error A × S
io_error (done a, s) = (ok a, s)
io_error (failed e, s) = (err (Error.io_error e), s)

-- `?` on the result of `parse`.
abbrev pub parsed : {S A : Type 0} → Option A → Action Error S A
parsed (some a) = pure a
parsed none = throw parse_address_error

module _ {n : Net} (h : Host n) where
  open h use {World, SocketAddr, Socket}

  abbrev pub socket_addr : Option String → Bool → Action Error World SocketAddr
  socket_addr (some addr) prefer_ipv6 = parsed (h.parse_addr (addr ++ ":0"))
  socket_addr none prefer_ipv6 =
      pure (if prefer_ipv6 then h.unspecified_v6 0 else h.unspecified_v4 0)

  -- `TcpStreamExt`
  abbrev addr_string : Io SocketAddr → String
  addr_string (done addr) = h.display_addr addr
  addr_string (failed e) = "<UNKNOWN:" ++ h.debug_io_error e ++ ">"

  abbrev pub local_addr_string : n.Stream → String
  local_addr_string stream = addr_string (h.local_addr stream)

  abbrev pub peer_addr_string : n.Stream → String
  peer_addr_string stream = addr_string (h.peer_addr stream)

  unfoldable pub new_socket : Option String → Bool → Action Error World Socket
  new_socket bind_addr prefer_ipv6 = do
    addr ← socket_addr bind_addr prefer_ipv6
    socket ← λ w. io_error (if h.is_ipv4 addr then h.new_v4 w else h.new_v6 w)
    (λ w. io_error (h.bind addr socket w))
    pure socket

  -- `mss as i32` keeps the low 32 bits.
  unfoldable pub set_mss : Socket → ℕ → Action Error World (Unit {0})
  set_mss socket mss w =
      let (ret, w') = h.setsockopt_maxseg (mss % 2 ^ 32) socket w in
      (if ret == 0 then ok tt else err (call_libc_error (h.last_os_error w')), w')
