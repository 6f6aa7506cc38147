-- ===== src/Server/Starting.antt =====
-- A connection while no test lives, and one that says nothing while a test waits for streams.
use iperf3_rust.Common.{
  ℕ, String, Bool, true, ◌≡◌, refl, sym, ap, subst, ◌∙◌, Option, none, some, List, ◌++◌, eq→==,
}
use iperf3_rust.Common.HashMap.{HashMap, get-insert}
use iperf3_rust.Constant.{internal_port_buffer}
use iperf3_rust.Message.{
  server, ClientMessage, ServerMessage, ClientEnvelope, ServerEnvelope, State, Parameters,
}
use iperf3_rust.Error.{Error, NetUtilError, unexpected_eof}
use iperf3_rust.Outcome.{ok, err}
use iperf3_rust.Net.Interface.{Bytes, Net, Behaves}
use iperf3_rust.Net.Specification.{frame, Fits}
use iperf3_rust.Net.RoundTrip.{Implements-eof}
use iperf3_rust.Net.Messages.{server_read_message}
use iperf3_rust.Host.{Host, ControllerMessage, PerfStats}
use iperf3_rust.Socket.{peer_addr_string}
use iperf3_rust.Perf.{new_with_stats_receiver}
use iperf3_rust.Server.Handshake.{read_cookie, create_perf, handle_create_stream}
use iperf3_rust.Server.Admission.{receive_parameters_done}
use iperf3_rust.Server.Accept.{
  Listener, Event, inbound, again, upgrade, dispatched, accept_inbound, accept_step, listener_after,
  listening,
}
use iperf3_rust.Server.InFlight.{busy_connection}
use iperf3_rust.Server.Ownership.{IsMade, owns_channel}

upgraded :
    (r : Option ℕ) (tests : HashMap State) (state : State)
    → upgrade r tests ≡ some state
    → (k : ℕ) × (r ≡ some k)
upgraded none tests state e = cc
upgraded (some k) tests state e = (k, refl)

module _ (n : Net) (b : Behaves n) (h : Host n) where
  open n use {Stream, client_codec, server_codec}
  open b use {IsUp, pending, written}

  -- If no test lives, a working connection whose pending bytes begin with a hello and parameters
  -- that fit, and whose parameters come in time, is sent a welcome, if that fits, and becomes the
  -- control connection of a new test with this cookie and these parameters, whose statistics the
  -- user interface gets with the address of the peer, and which is then the one in flight, at its
  -- start.
  pub idle_starts_test :
      (l : Listener n h) (cookie : String) (params : Parameters)
      (hello welcome parameters rest : Bytes) (s : Stream)
      → upgrade l.in_flight_test_state l.tests ≡ none
      → IsUp s
      → Fits client_codec (ClientEnvelope.message (ClientMessage.hello cookie)) hello
      → Fits server_codec (ServerEnvelope.message ServerMessage.welcome) welcome
      → Fits client_codec (ClientEnvelope.message (ClientMessage.send_parameters params)) parameters
      → pending s ≡ frame n hello ++ (frame n parameters ++ rest)
      → (s' : Stream) × (l' : Listener n h) × (accept_step (inbound s true) l ≡ (ok again, l'))
        × (l' ≡ (
            let (tx, w) = h.stats_channel internal_port_buffer l.world in
            let stats : PerfStats h.Stats = record {
              peer_addr = peer_addr_string h s;
              receiver = tx;
            } in
            dispatched
              (new_with_stats_receiver none none cookie server params s' tx)
              (h.send_perf_stats stats w)
              l))
        × (upgrade l'.in_flight_test_state l'.tests ≡ some State.start)
        × (written s' ≡ written s ++ frame n welcome)
  unfolding accept_step accept_inbound create_perf new_with_stats_receiver
  idle_starts_test l cookie params hello welcome parameters rest s idle up fh fw fp ps =
      let (s', r, q, up', left) =
        receive_parameters_done n b cookie params hello welcome parameters rest s up fh fw fp ps in
      (
        s',
        _,
        rw (idle, r, accept_inbound, create_perf) refl,
        refl,
        rw
            (
              get-insert l.allocated l.allocated State.start l.tests,
              eq→== l.allocated l.allocated refl,
            )
            refl,
        q,
      )

  read_cookie_eof :
      (s : Stream)
      → IsUp s
      → b.get_u32 (pending s) ≡ none
      → (s' : Stream) × (e : Error) × (read_cookie n s ≡ (err e, s'))
  unfolding read_cookie server_read_message
  read_cookie_eof s up short =
      let (s', r, x) = Implements-eof n b client_codec s up short in
      (s', Error.server_read_error (NetUtilError.io_error unexpected_eof), rw r refl)

  -- While the test in flight waits for streams, after any events, a working connection that ends
  -- before it has sent the length of a message has the server send Terminate, and do nothing else
  -- but go on, to the sender of the controller which one of the events made together with the test
  -- of the number that is in flight.
  pub stranger_terminates_test :
      (events : List (Event n.Stream)) (w : h.World) (l : Listener n h) (cookie : String)
      (s : Stream) (in_time : Bool)
      → l ≡ listener_after events w
      → upgrade l.in_flight_test_state l.tests ≡ some (State.create_streams cookie)
      → IsUp s
      → b.get_u32 (pending s) ≡ none
      → (k : ℕ) × (tx : h.Sender) × (l.in_flight_test_state ≡ some k)
        × IsMade {n = n} {h = h} events (listening w) k tx
        × (accept_step (inbound s in_time) l
            ≡ (ok again, record l { world = h.try_send ControllerMessage.terminate tx l.world }))
  unfolding handle_create_stream
  stranger_terminates_test events w l cookie s in_time reached live up short =
      let (k, at) = upgraded l.in_flight_test_state l.tests (State.create_streams cookie) live in
      let (s', e, r) = read_cookie_eof s up short in
      let (tx, w', c, step, same) = busy_connection h events w l _ s in_time reached live in
      let (tx', c', made) =
        owns_channel events w k
          (subst (λ (x : Listener n h). x.in_flight_test_state ≡ some k) reached at) in
      let here : tx' ≡ tx =
        let e : some tx' ≡ some tx =
          sym c' ∙ sym (ap (λ (x : Listener n h). x.controller_channel) reached) ∙ c in
        cc in
      (
        k,
        tx,
        at,
        subst (IsMade {n = n} {h = h} events (listening w) k) here made,
        step ∙ rw (r, handle_create_stream) refl,
      )
