-- ===== src/Controller/Agreement.antt =====
-- What the two sides agree on across the control connection: the state and the results.
use iperf3_rust.Common.{String, ◌≡◌, refl, ap, ◌∙◌, some, ◌++◌}
use iperf3_rust.Common.HashMap.{HashMap, map_values}
use iperf3_rust.Message.{
  client, server, ClientMessage, ServerMessage, ClientEnvelope, ServerEnvelope, State, StreamStats,
}
use iperf3_rust.Error.{Error}
use iperf3_rust.Outcome.{ok, err}
use iperf3_rust.Net.Interface.{Bytes, Net, Behaves}
use iperf3_rust.Net.Specification.{frame, Leaves, Sent, Fits}
use iperf3_rust.Net.Delivery.{
  client_write_message_done, client_read_message_done, server_write_message_done,
  server_read_message_done,
}
use iperf3_rust.Perf.{Perf, set_state}
use iperf3_rust.Host.{Host}
use iperf3_rust.Controller.State.{Controller}
use iperf3_rust.Controller.Results.{client_exchange, server_exchange, mark_peer}
use iperf3_rust.Controller.Run.{select, control}

module _ (n : Net) (b : Behaves n) where
  open n use {Stream, client_codec, server_codec}
  open b use {IsUp, pending, written}

  -- On a server whose control connection works, setting a state whose announcement fits succeeds,
  -- writes that one announcement, sets the state, and changes nothing else.
  pub set_state_announced :
      {Stats : Type 0} (state : State) (payload : Bytes) (p : Perf n Stats)
      → p.role ≡ server
      → IsUp p.control_socket
      → Fits server_codec (ServerEnvelope.message (ServerMessage.set_state state)) payload
      → (s' : Stream) × (set_state state p
          ≡ (ok tt, record p { state = state; control_socket = s' }))
        × Sent b payload p.control_socket s'
  unfolding set_state
  set_state_announced state payload p role up fits =
      let (s', r, sent) = server_write_message_done n b payload p.control_socket up _ fits in
      (s', rw (role, r, set_state) refl, sent)

  -- On a client whose control connection works and has the announcement of a state at the head of
  -- what is pending, the pass that reads it takes over this state, leaves the bytes behind it, and
  -- changes nothing else.
  pub control_follows :
      {h : Host n} (state : State) (payload rest : Bytes) (c : Controller n h)
      → c.role ≡ client
      → IsUp c.control_socket
      → Fits server_codec (ServerEnvelope.message (ServerMessage.set_state state)) payload
      → pending c.control_socket ≡ frame n payload ++ rest
      → (s' : Stream) × (select client control c
          ≡ (ok tt, record c { perf = record (c.perf) { state = state; control_socket = s' } }))
        × Leaves b (some rest) c.control_socket s'
  unfolding select set_state
  control_follows state payload rest c role up fits p =
      let (s', r, left) = client_read_message_done n b payload c.control_socket up rest p _ fits in
      (s', rw (r, role, select) refl, left)

  -- If both connections work, the two messages fit, and each message stands at the head of what is
  -- pending for the other side, then the client and the server both succeed in the exchange of
  -- results, each with the other's results marked as the peer's, and each has written exactly its
  -- own message.
  pub exchange_agrees :
      (local remote : HashMap StreamStats) (sent answer rest rest' : Bytes) (c s : Stream)
      → IsUp c
      → IsUp s
      → Fits client_codec (ClientEnvelope.message (ClientMessage.send_results local)) sent
      → Fits server_codec (ServerEnvelope.message (ServerMessage.send_results remote)) answer
      → pending s ≡ frame n sent ++ rest
      → pending c ≡ frame n answer ++ rest'
      → (c' s' : Stream) × (client_exchange n local c ≡ (ok (map_values mark_peer remote), c'))
        × (server_exchange n remote s ≡ (ok (map_values mark_peer local), s'))
        × (written c' ≡ written c ++ frame n sent)
        × (written s' ≡ written s ++ frame n answer)
  unfolding client_exchange server_exchange
  exchange_agrees local remote sent answer rest rest' c s upc ups fc fs ps pc =
      let (c1, w1, s1) = client_write_message_done n b sent c upc _ fc in
      let (c2, r2, l2) = client_read_message_done n b answer c1 s1.0 rest' (s1.1 ∙ pc) _ fs in
      let (s2, r3, l3) = server_read_message_done n b sent s ups rest ps _ fc in
      let (s3, w4, s4) = server_write_message_done n b answer s2 l3.0 _ fs in
      (
        c2,
        s3,
        rw (w1, r2, client_exchange) refl,
        rw (r3, w4, server_exchange) refl,
        l2.2 ∙ s1.2,
        s4.2 ∙ ap (λ x. x ++ frame n answer) l3.2,
      )

  -- If the server's connection works and a hello that fits is at the head of what is pending, the
  -- exchange of results fails with the unexpected message, and the server writes none of its
  -- results.
  server_exchange_refuses :
      (local : HashMap StreamStats) (cookie : String) (sent rest : Bytes) (s : Stream)
      → IsUp s
      → Fits client_codec (ClientEnvelope.message (ClientMessage.hello cookie)) sent
      → pending s ≡ frame n sent ++ rest
      → (s' : Stream) × (server_exchange n local s
          ≡ (err (Error.unexpected_client_message (ClientMessage.hello cookie)), s'))
        × (written s' ≡ written s)
  unfolding server_exchange
  server_exchange_refuses local cookie sent rest s up fits p =
      let (s1, r, left) = server_read_message_done n b sent s up rest p _ fits in
      (s1, rw (r, server_exchange) refl, left.2)
