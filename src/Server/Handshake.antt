-- ===== src/Server/Handshake.antt =====
-- `read_cookie`, `create_perf` and `handle_create_stream`.
use text.Mathlib.Text.{◌==◌ as str_eq}
use iperf3_rust.Common.{String, Bool, true, false, none, if◌then◌else◌}
use iperf3_rust.Message.{
  server, ClientMessage, ServerMessage, perf_test_already_in_flight, Parameters, State,
}
use iperf3_rust.Error.{Error, unexpected_client_message, protocol_read_timeout}
use iperf3_rust.Outcome.{Result, ok, err, Action, continue_with, ◌>>=◌, ◌>>◌, pure, throw}
use iperf3_rust.Net.Interface.{Net}
use iperf3_rust.Net.Messages.{server_read_message, server_write_message, server_write_error}
use iperf3_rust.Host.{Host, ControllerMessage}
use iperf3_rust.Perf.{Perf, new_with_stats_receiver}

-- The `match` of `read_cookie` and that of `create_perf`.
abbrev pub hello_cookie : {S : Type 0} → ClientMessage → Action Error S String
hello_cookie (ClientMessage.hello cookie) = pure cookie
hello_cookie m = throw (unexpected_client_message m)

abbrev pub sent_parameters : {S : Type 0} → ClientMessage → Action Error S Parameters
sent_parameters (ClientMessage.send_parameters params) = pure params
sent_parameters m = throw (unexpected_client_message m)

module _ (n : Net) where
  unfoldable pub read_cookie : Action Error n.Stream String
  read_cookie = do m ← server_read_message n; hello_cookie m

  -- `timeout(PROTOCOL_TIMEOUT, ..)`: whether the message comes in time is an input.
  abbrev pub read_in_time : Bool → Action Error n.Stream ClientMessage
  read_in_time true s = server_read_message n s
  read_in_time false s = (err protocol_read_timeout, s)

  -- Up to `Perf::new_with_stats_receiver`: the cookie and the parameters.
  unfoldable pub receive_parameters : Bool → Action Error n.Stream (String × Parameters)
  unfolding read_cookie
  receive_parameters in_time = do
    cookie ← read_cookie
    server_write_message n ServerMessage.welcome
    m ← read_in_time in_time
    params ← sent_parameters m
    pure (cookie, params)

  unfoldable pub create_perf :
      {Stats : Type 0} → Bool → Stats → n.Stream → Result Error (Perf n Stats)
  unfolding receive_parameters
  create_perf in_time tx control_socket =
      (continue_with (receive_parameters in_time control_socket) λ (cookie, params) s.
        (ok (new_with_stats_receiver none none cookie server params s tx), s)).0

module _ {n : Net} (h : Host n) where
  -- Refusing a connection; an error of the write is dropped.
  unfoldable pub reject : n.Stream → n.Stream
  reject inbound = (server_write_error n perf_test_already_in_flight inbound).1

  -- A connection while a test is in flight: what becomes of it and of the world.
  unfoldable pub handle_create_stream :
      State → h.Sender → Action Error (n.Stream × h.World) (Unit {0})
  unfolding read_cookie
  handle_create_stream (State.create_streams cookie) controller_sender (inbound, w) =
      let (r, s1) = read_cookie n inbound in
      continue_with (r, (s1, w))
        λ client_cookie (s, v).
          if str_eq client_cookie cookie
          then (let (r', s2) = server_write_message n ServerMessage.welcome s in
              continue_with (r', (s2, v))
                λ _ (t, u).
                  (ok tt, (t, h.try_send (ControllerMessage.create_stream t) controller_sender u)))
          else (ok tt, (reject s, v))
  handle_create_stream _ controller_sender (inbound, w) = (ok tt, (reject inbound, w))
