-- ===== src/Controller/Streams.antt =====
-- The data streams: `create_streams`, `connect_data_stream`, `create_and_register_stream_worker`
-- and `accept_stream`.
use iperf3_rust.Common.{
  ℕ, zero, suc, ◌+◌, ◌%◌, ◌^◌, Bool, true, false, not, ◌&&◌, Option, none, some, length, ltb, ◌==◌,
  if◌then◌else◌,
}
use iperf3_rust.Common.HashMap.{insert}
use iperf3_rust.Message.{Role, client, server, Direction, bidirectional, ClientMessage, State}
use iperf3_rust.Error.{Error}
use iperf3_rust.Outcome.{ok, panic, hang, Action, continue_with, ◌>>=◌, ◌>>◌, pure, assert}
use iperf3_rust.Net.Interface.{Net}
use iperf3_rust.Net.Messages.{client_write_message, client_read_message}
use iperf3_rust.Host.{Host, new_stream_worker}
use iperf3_rust.Socket.{new_socket, set_mss, io_error, parsed}
use iperf3_rust.Perf.{Perf, set_state}
use iperf3_rust.Controller.State.{Controller, on_perf, on_world}

abbrev pub is_client : Role → Bool
is_client client = true
is_client server = false

abbrev pub is_server : Role → Bool
is_server r = not (is_client r)

abbrev pub is_bidirectional : Direction → Bool
is_bidirectional bidirectional = true
is_bidirectional _ = false

-- An action on a connection that is at hand, as one of the controller.
abbrev on_stream : {C S A : Type 0} → Action Error S A → S → Action Error C (A × S)
on_stream m s c = let (r, s') = m s in continue_with (r, c) λ a. pure (a, s')

module _ {n : Net} {Stats : Type 0} where
  -- `num_send_streams + num_receive_streams` on `u16`.
  abbrev pub total_streams : Perf n Stats → ℕ
  total_streams p = (p.num_send_streams + p.num_receive_streams) % 2 ^ 16

  -- Which end of stream `stream_index` this side is.
  unfoldable pub is_sending_end : Perf n Stats → ℕ → Bool
  is_sending_end p stream_index =
      let is_sending = ltb stream_index p.num_send_streams in
      if is_server p.role && is_bidirectional p.params.direction then not is_sending else is_sending

module _ {n : Net} {h : Host n} where
  abbrev pub set_mss_best_effort : h.Socket → Option ℕ → Action Error (Controller n h) (Unit {0})
  set_mss_best_effort socket none c = (ok tt, c)
  set_mss_best_effort socket (some mss) c =
      (ok tt, record c { world = (set_mss h socket mss c.world).1 })

  abbrev pub expect : {A : Type 0} → Option A → Action Error (Controller n h) A
  expect (some a) c = (ok a, c)
  expect none c = (panic, c)

  unfoldable pub connect_data_stream : Action Error (Controller n h) n.Stream
  connect_data_stream c =
      (do
        socket ← on_world (new_socket h c.bind_address c.params.prefer_ipv6)
        server_address ← expect c.server_address
        remote_addr ← parsed (h.parse_addr server_address)
        set_mss_best_effort socket c.params.mss
        stream ← on_world (λ w. io_error (h.connect remote_addr socket w))
        written ← on_stream (client_write_message n (ClientMessage.hello c.cookie)) stream
        answered ← on_stream (client_read_message n) written.1
        pure answered.1)
        c

  -- The controller with one more worker, which has the subscription `receiver`.
  unfoldable pub registered : n.Stream → h.Stats → h.Subscription → Controller n h → Controller n h
  registered stream stats receiver c =
      let is_sending = is_sending_end c.perf c.stream_index in
      let worker = new_stream_worker c.stream_index stream c.params is_sending stats receiver in
      let (handler, w) = h.spawn worker c.sender c.world in
      record c {
        workers = insert c.stream_index handler c.workers;
        stream_index = (c.stream_index + 1) % 2 ^ 16;
        world = w;
      }

  abbrev pub subscribed : Controller n h → Controller n h
  subscribed c = record c { world = (h.subscribe c.publisher c.world).1 }

  unfoldable pub create_and_register_stream_worker :
      n.Stream → Action Error (Controller n h) (Unit {0})
  unfolding registered
  create_and_register_stream_worker stream c =
      let receiver = (h.subscribe c.publisher c.world).0 in
      continue_with (expect c.stats_sender (subscribed c))
        λ stats c'. (ok tt, registered stream stats receiver c')

  -- The `while` of `create_streams`, for at most `fuel` rounds.
  unfoldable pub connect_streams : (fuel total : ℕ) → Action Error (Controller n h) (Unit {0})
  connect_streams zero total c = (if ltb c.stream_index total then hang else ok tt, c)
  connect_streams (suc fuel) total c = elim (ltb c.stream_index total) [
    | false ↦ (ok tt, c)
    | true ↦ continue_with (connect_data_stream c) λ stream c1.
        continue_with (create_and_register_stream_worker stream c1)
          λ _ c2. connect_streams fuel total c2
  ]

  unfoldable pub create_streams : Action Error (Controller n h) (Unit {0})
  create_streams c =
      (do assert (is_client c.role); connect_streams (total_streams c.perf) (total_streams c.perf))
        c

  unfoldable pub accept_stream : n.Stream → Action Error (Controller n h) (Unit {0})
  accept_stream stream c =
      let total_needed_stream = total_streams c.perf in
      continue_with (assert (is_server c.role) c) λ _ c0.
        continue_with (create_and_register_stream_worker stream c0) λ _ c1.
          if length c1.workers == total_needed_stream
          then on_perf (set_state State.running) c1
          else (ok tt, c1)
