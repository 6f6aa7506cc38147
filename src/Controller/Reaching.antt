-- ===== src/Controller/Reaching.antt =====
-- A client that reaches its server connects all its data streams.
use Prim.Native.String.{◌++◌ as concat}
use iperf3_rust.Common.{
  ℕ, zero, suc, ◌+◌, ◌^◌, ◌≤◌, ◌<◌, ◌≡◌, refl, sym, ap, subst, ◌∙◌, String, Bool, Option, none,
  some, inl, inr, Bool-cases, Option-cases, ltb, ltb→lt, ltb→le, [], ◌++◌, if◌then◌else◌, arith,
}
use iperf3_rust.Message.{client, ClientMessage, ServerMessage, ClientEnvelope, ServerEnvelope}
use iperf3_rust.Error.{done}
use iperf3_rust.Outcome.{ok}
use iperf3_rust.Net.Interface.{Bytes, Net, Behaves}
use iperf3_rust.Net.Specification.{frame, Fits}
use iperf3_rust.Net.Delivery.{client_write_message_done, client_read_message_done}
use iperf3_rust.Net.Messages.{client_write_message, client_read_message}
use iperf3_rust.Host.{Host}
use iperf3_rust.Socket.{new_socket, set_mss}
use iperf3_rust.Perf.{Perf}
use iperf3_rust.Controller.State.{Controller}
use iperf3_rust.Controller.Registered.{HasRegistered, register_next}
use iperf3_rust.Controller.Streams.{
  total_streams, connect_data_stream, connect_streams, create_streams,
}
use iperf3_rust.Controller.Connecting.{
  connect-HasRegistered, connect-world, connect_round, connect_stop, create_streams_lem,
  create_streams_complete,
}

-- A system on which sockets are made and bound, and each connection leads to a server that
-- greets: what is pending begins with the welcome, and nothing is written yet.
pub record Reaches {n : Net} (b : Behaves n) (h : Host n) (welcome : Bytes) : Type 0 where
  pub made_v4 : (w : h.World) → (s : h.Socket) × (w' : h.World) × (h.new_v4 w ≡ (done s, w'))
  pub made_v6 : (w : h.World) → (s : h.Socket) × (w' : h.World) × (h.new_v6 w ≡ (done s, w'))
  pub bound :
      (a : h.SocketAddr) (s : h.Socket) (w : h.World)
      → (w' : h.World) × (h.bind a s w ≡ (done tt, w'))
  pub connected :
      (a : h.SocketAddr) (s : h.Socket) (w : h.World)
      → (stream : n.Stream) × (w' : h.World) × (rest : Bytes) × (h.connect a s w
          ≡ (done stream, w'))
        × b.IsUp stream
        × (b.pending stream ≡ frame n welcome ++ rest)
        × (b.written stream ≡ [])

module _ {n : Net} (b : Behaves n) (h : Host n) (welcome : Bytes) (p : Reaches b h welcome) where
  -- The address to bind to, if there is one, is an address.
  abbrev pub Parses : Option String → Type 0
  Parses none = Unit
  Parses (some addr) = (a : h.SocketAddr) × (h.parse_addr (concat addr ":0") ≡ some a)

  made :
      (a : h.SocketAddr) (w : h.World)
      → (s : h.Socket) × (w' : h.World) × ((if h.is_ipv4 a then h.new_v4 w else h.new_v6 w)
          ≡ (done s, w'))
  made a w = elim (Bool-cases (h.is_ipv4 a)) [
    | inl t ↦ let (s, w', e) = p.made_v4 w in (s, w', rw (t, e) refl)
    | inr t ↦ let (s, w', e) = p.made_v6 w in (s, w', rw (t, e) refl)
  ]

  pub new_socket_done :
      (bind_addr : Option String) (prefer_ipv6 : Bool) (w : h.World)
      → Parses bind_addr
      → (s : h.Socket) × (w' : h.World) × (new_socket h bind_addr prefer_ipv6 w ≡ (ok s, w'))
  unfolding new_socket
  new_socket_done (some addr) prefer_ipv6 w (a, e) =
      let (s, w1, r) = made a w in
      let (w2, r2) = p.bound a s w1 in (s, w2, rw (e, r, r2, new_socket) refl)
  new_socket_done none prefer_ipv6 w tt =
      let a = if prefer_ipv6 then h.unspecified_v6 0 else h.unspecified_v4 0 in
      let (s, w1, r) = made a w in
      let (w2, r2) = p.bound a s w1 in (s, w2, rw (r, r2, new_socket) refl)

  -- A test whose addresses are addresses, and whose hello fits, as the welcome does.
  pub record CanConnect (test : Perf n h.Stats) : Type 0 where
    pub address : String
    pub hello : Bytes
    pub remote_addr : h.SocketAddr
    pub to_server : test.server_address ≡ some address
    pub parses : h.parse_addr address ≡ some remote_addr
    pub binds : Parses test.bind_address
    pub hello_fits :
        Fits n.client_codec (ClientEnvelope.message (ClientMessage.hello test.cookie)) hello
    pub welcome_fits : Fits n.server_codec (ServerEnvelope.message ServerMessage.welcome) welcome

  -- A connection on which the client says its hello and is welcomed.
  greeted :
      (test : Perf n h.Stats) (socket : h.Socket) (w : h.World) (k : CanConnect test)
      → (s s1 s2 : n.Stream) × (w' : h.World) × (h.connect k.remote_addr socket w ≡ (done s, w'))
        × (client_write_message n (ClientMessage.hello test.cookie) s ≡ (ok tt, s1))
        × (client_read_message n s1 ≡ (ok ServerMessage.welcome, s2))
  greeted test socket w k =
      let (s, w', rest, r, up, pending, fresh) = p.connected k.remote_addr socket w in
      let (s1, r1, sent) = client_write_message_done n b k.hello s up _ k.hello_fits in
      let (s2, r2, left) =
        client_read_message_done n b welcome s1 sent.0 rest (sent.1 ∙ pending) _ k.welcome_fits in
      (s, s1, s2, w', r, r1, r2)

  connect_done :
      (c : Controller n h)
      → CanConnect c.perf
      → (stream : n.Stream) × (connect_data_stream c ≡ (ok stream, (connect_data_stream c).1))
  unfolding connect_data_stream
  connect_done c k =
      let (socket, w1, r1) = new_socket_done c.bind_address c.params.prefer_ipv6 c.world k.binds in
      elim (Option-cases c.params.mss) [
        | inl m ↦
            let (s, s1, s2, w', r, q1, q2) = greeted c.perf socket w1 k in
            (s2, rw (r1, k.to_server, k.parses, m, r, q1, q2) refl)
        | inr (mss, m) ↦
            let (s, s1, s2, w', r, q1, q2) = greeted c.perf socket (set_mss h socket mss w1).1 k in
            (s2, rw (r1, k.to_server, k.parses, m, r, q1, q2) refl)
      ]

  stopped :
      (fuel total : ℕ) (c : Controller n h)
      → HasRegistered client total c
      → (connect_streams fuel total c).0 ≡ ok tt
  stopped fuel total c a = ap (λ x. x.0) (connect_stop fuel total c (omega (arith, a.next)))

  connect_streams_done :
      (fuel k total : ℕ) (c : Controller n h)
      → HasRegistered client k c
      → k ≤ total
      → total < 2 ^ 16
      → total ≤ fuel + k
      → CanConnect c.perf
      → (connect_streams fuel total c).0 ≡ ok tt
  connect_streams_done zero k total c a l bound enough can =
      let all : k ≡ total = omega arith in stopped zero total c (rw all at a)
  connect_streams_done (suc fuel) k total c a l bound enough can = elim (Bool-cases (ltb k total)) [
    | inr t ↦
        let all : k ≡ total = omega (arith, ltb→le k total t) in
        stopped (suc fuel) total c (rw all at a)
    | inl t ↦
        let less : c.stream_index < total = omega (arith, ltb→lt k total t, a.next) in
        let (stream, e) = connect_done c can in
        let c1 = (connect_data_stream c).1 in
        let (c2, r, same, a2) =
          register_next client k stream c1 (connect-HasRegistered k c a) (omega (arith, a.next)) in
        let same' : c2.perf ≡ c.perf =
          same ∙ ap (λ (d : Controller n h). d.perf) (connect-world c) in
        ap (λ x. x.0) (connect_round fuel total stream c c1 c2 less e r)
        ∙ connect_streams_done fuel (suc k) total c2 a2 (omega (arith, a.next)) bound (omega arith)
            (subst CanConnect (sym same') can)
  ]

  -- If sockets are made and bound, and each connection leads to a server that greets, a client
  -- with no stream yet, whose addresses are addresses, and whose hello fits as the welcome does,
  -- succeeds in creating its streams; it then has one worker for each stream of the test, numbered
  -- from 0, and the test is otherwise unchanged.
  pub create_streams_succeeds :
      (c : Controller n h)
      → HasRegistered client 0 c
      → CanConnect c.perf
      → (c' : Controller n h) × (create_streams c ≡ (ok tt, c'))
        × (c'.perf ≡ c.perf)
        × HasRegistered client (total_streams c.perf) c'
  create_streams_succeeds c a can =
      let total = total_streams c.perf in
      let succeeds : (create_streams c).0 ≡ ok tt =
        ap (λ x. x.0) (create_streams_lem c a.serves)
        ∙ connect_streams_done total 0 total c a (omega arith) (omega arith) (omega arith) can in
      let (a', same, again) = create_streams_complete c a succeeds in
      ((create_streams c).1, λ i. (succeeds i, (create_streams c).1), same, a')
