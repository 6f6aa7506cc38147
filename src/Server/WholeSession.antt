-- ===== src/Server/WholeSession.antt =====
-- A client and an idle server, from the options of the client to the results of both.
use iperf3_rust.Common.{
  ℕ, String, ◌+◌, ◌≡◌, refl, sym, ap, subst, ◌∙◌, none, List, [], ◌∷◌, ◌++◌, length, append_assoc,
  true, some,
}
use iperf3_rust.Common.HashMap.{HashMap}
use iperf3_rust.Constant.{internal_port_buffer}
use iperf3_rust.Message.{
  server, StreamStats, State, ClientMessage, ServerMessage, ClientEnvelope, ServerEnvelope,
  Parameters, from_opts,
}
use iperf3_rust.Message.Opts.{CommonOpts, ClientOpts}
use iperf3_rust.Error.{Error}
use iperf3_rust.Outcome.{Result, ok}
use iperf3_rust.Net.Interface.{Bytes, Net, Behaves}
use iperf3_rust.Net.Specification.{frame, Fits}
use iperf3_rust.Host.{Host}
use iperf3_rust.Socket.{peer_addr_string}
use iperf3_rust.Perf.{Perf, new_with_stats_receiver}
use iperf3_rust.Controller.State.{Controller, new}
use iperf3_rust.Controller.Streams.{total_streams}
use iperf3_rust.Controller.Run.{Turn, control, run_controller}
use iperf3_rust.Controller.Registered.{HasRegistered}
use iperf3_rust.Controller.Cooperation.{Cooperates}
use iperf3_rust.Controller.Finishing.{collected}
use iperf3_rust.Controller.Turns.{hears}
use iperf3_rust.Controller.Draining.{terminations, Exhausts, drained}
use iperf3_rust.Controller.Completion.{Reports}
use iperf3_rust.Controller.Reaching.{Reaches}
use iperf3_rust.Controller.Directions.{total_streams_agree}
use iperf3_rust.Controller.WholeTest.{
  server_opening, client_opening, after_turns, whole_test_completes,
}
use iperf3_rust.Client.{start_client}
use iperf3_rust.Client.Connecting.{Ready, started_IsReady}
use iperf3_rust.Server.Handshake.{create_perf}
use iperf3_rust.Server.Admission.{receive_parameters_done}
use iperf3_rust.Server.Accept.{
  Listener, inbound, again, upgrade, dispatched, accept_inbound, accept_step,
}

-- The turns of the server, with all its streams, and of the client.
abbrev pub server_turns :
    {Stream : Type 0}
    → Turn Stream
    → List Stream
    → Stream
    → List ℕ
    → Turn Stream
    → List (Turn Stream)
server_turns first streams last ids turn =
    server_opening first streams last ++ (terminations ids ++ turn ∷ [])

abbrev pub client_turns : {Stream : Type 0} → Turn Stream → List (Turn Stream)
client_turns turn = client_opening ++ hears control ∷ turn ∷ []

module _ {n : Net} (h : Host n) where
  -- The world of the listener once the user interface has the statistics of a new test.
  abbrev pub announced : n.Stream → Listener n h → h.World
  announced t l =
      let (tx, w) = h.stats_channel internal_port_buffer l.world in
      h.send_perf_stats (record { peer_addr = peer_addr_string h t; receiver = tx }) w

  -- What `create_perf` makes of a connection of an idle listener.
  abbrev pub perf_for : n.Stream → Listener n h → Result Error (Perf n h.Stats)
  perf_for t l = create_perf n true (h.stats_channel internal_port_buffer l.world).0 t

  -- The controller that the listener spawns for it.
  abbrev pub spawned : Perf n h.Stats → n.Stream → Listener n h → Controller n h
  spawned s t l = new s (announced t l)

module _ (n : Net) (b : Behaves n) (h : Host n) where
  created :
      (l : Listener n h) (cookie : String) (params : Parameters)
      (hello welcome parameters rest : Bytes) (t : n.Stream) (s : Perf n h.Stats)
      → upgrade l.in_flight_test_state l.tests ≡ none
      → b.IsUp t
      → Fits n.client_codec (ClientEnvelope.message (ClientMessage.hello cookie)) hello
      → Fits n.server_codec (ServerEnvelope.message ServerMessage.welcome) welcome
      → Fits n.client_codec
          (ClientEnvelope.message (ClientMessage.send_parameters params))
          parameters
      → b.pending t ≡ frame n hello ++ (frame n parameters ++ rest)
      → perf_for h t l ≡ ok s
      → (u : n.Stream) × (accept_step (inbound t true) l
          ≡ (ok again, dispatched s (announced h t l) l))
        × (s
            ≡ new_with_stats_receiver none none cookie server params u
                (h.stats_channel internal_port_buffer l.world).0)
        × b.IsUp u
        × (b.pending u ≡ rest)
        × (b.written u ≡ b.written t ++ frame n welcome)
  unfolding accept_step accept_inbound create_perf
  created l cookie params hello welcome parameters rest t s idle up fh fw fp ps e =
      let (u, r, q, up', left) =
        receive_parameters_done n b cookie params hello welcome parameters rest t up fh fw fp ps in
      let tx = (h.stats_channel internal_port_buffer l.world).0 in
      let made : perf_for h t l ≡ ok (new_with_stats_receiver none none cookie server params u tx) =
        rw (r, create_perf) refl in
      let same : s ≡ new_with_stats_receiver none none cookie server params u tx = cc in
      (u, rw (idle, accept_inbound, e) refl, same, up', left, q)

  new_registered :
      (cookie : String) (params : Parameters) (u : n.Stream) (tx : h.Stats) (w : h.World)
      (s : Perf n h.Stats)
      → s ≡ new_with_stats_receiver none none cookie server params u tx
      → HasRegistered server 0 (new {h = h} s w)
  unfolding new new_with_stats_receiver
  new_registered cookie params u tx w s e = record {
    serves = ap (λ (x : Perf n h.Stats). x.role) e;
    next = refl;
    keys = tt;
    count = refl;
    stats = (tx, ap (λ (x : Perf n h.Stats). x.stats_sender) e);
  }

module _ (n : Net) (b : Behaves n) {hc hs : Host n} (pc : Cooperates hc) (ps : Cooperates hs) where
  open n use {client_codec, server_codec}
  open b use {IsUp, pending, written}

  -- Let a client have started, on a system that lets it connect; let what it has written, and its
  -- results behind that, be pending on a working connection that reaches a server where no test
  -- lives, and what the server says from the creation of streams to its results be pending for the
  -- client; let all these messages fit, the hosts cooperate, the server be handed as many streams
  -- as the client's test has, and be told that each of its workers has ended. Then the accept loop
  -- makes a test of the connection, of the client's cookie and of the parameters of its options;
  -- the controllers of both sides leave their loops with success after the given turns; the client
  -- has written its results and nothing else since it started, the server the welcome, the
  -- creation of streams, the start, the exchange and its results, in this order; and each user
  -- interface has the results of its own side and of the peer.
  pub whole_session_completes :
      (version : String) (common : CommonOpts) (opts : ClientOpts) (w w' : hc.World)
      (creating running announcement sent answer welcome rest rest' : Bytes) (id : ℕ) (ids : List ℕ)
      (first turn turn' : Turn n.Stream) (streams : List n.Stream) (last t : n.Stream)
      (reaches : Reaches b hc welcome) (r : Ready b hc welcome reaches version common opts)
      (c : Controller n hc) (l : Listener n hs) (s : Perf n hs.Stats)
      (local remote : HashMap StreamStats)
      → start_client hc version common opts w ≡ (ok c, w')
      → upgrade l.in_flight_test_state l.tests ≡ none
      → IsUp t
      → pending t ≡ written c.control_socket ++ (frame n sent ++ rest)
      → perf_for hs t l ≡ ok s
      → length streams + 1 ≡ total_streams c.perf
      → Exhausts
          (id ∷ ids)
          (after_turns (server_opening first streams last) (spawned hs s t l)).workers
      → local
        ≡ collected hc pc
            (after_turns client_opening c).workers
            (after_turns client_opening c).stream_results
      → remote
        ≡ drained hs ps
            (id ∷ ids)
            (after_turns (server_opening first streams last) (spawned hs s t l)).workers
            (after_turns (server_opening first streams last) (spawned hs s t l)).stream_results
      → Fits server_codec
          (ServerEnvelope.message (ServerMessage.set_state (State.create_streams s.cookie)))
          creating
      → Fits server_codec (ServerEnvelope.message (ServerMessage.set_state State.running)) running
      → Fits server_codec
          (ServerEnvelope.message (ServerMessage.set_state State.exchange_results))
          announcement
      → Fits client_codec (ClientEnvelope.message (ClientMessage.send_results local)) sent
      → Fits server_codec (ServerEnvelope.message (ServerMessage.send_results remote)) answer
      → pending c.control_socket
        ≡ frame n creating
          ++ (frame n running ++ (frame n announcement ++ (frame n answer ++ rest')))
      → (c' : Controller n hc) × (s' : Controller n hs) × (accept_step (inbound t true) l
          ≡ (ok again, dispatched s (announced hs t l) l))
        × (s.cookie ≡ c.cookie)
        × (s.params ≡ from_opts version opts)
        × (run_controller (client_turns turn) c ≡ (ok true, c'))
        × (run_controller (server_turns first streams last (id ∷ ids) turn') (spawned hs s t l)
            ≡ (ok true, s'))
        × (written c'.control_socket ≡ written c.control_socket ++ frame n sent)
        × (written s'.control_socket
            ≡ ((((written t ++ frame n welcome) ++ frame n creating) ++ frame n running)
                ++ frame n announcement)
              ++ frame n answer)
        × Reports n pc local remote c'.world
        × Reports n ps remote local s'.world
  unfolding new new_with_stats_receiver
  whole_session_completes version common opts w w' creating running announcement sent answer welcome
        rest rest' id ids first turn turn' streams last t reaches r c l s local remote started idle
        up pt es count all el er fc fr fa fs fw dc =
      let k = started_IsReady b hc welcome reaches version common opts w w' r c started in
      let tx = (hs.stats_channel internal_port_buffer l.world).0 in
      let (u, step, same, up', left, greeted) =
        created n b hs l (hc.new_uuid k.v).0 (from_opts version opts) (r.hello k.v) welcome
          r.parameters (frame n sent ++ rest) t s idle up (r.hello_fits k.v) r.welcome_fits
          r.parameters_fit
          (pt
            ∙ ap (λ x. x ++ (frame n sent ++ rest)) k.introduced
            ∙ append_assoc (frame n (r.hello k.v)) (frame n r.parameters) (frame n sent ++ rest))
          es in
      let socket : s.control_socket ≡ u = ap (λ (x : Perf n hs.Stats). x.control_socket) same in
      let counted : length streams + 1 ≡ total_streams s =
        count
        ∙ ap (λ (x : Perf n hc.Stats). total_streams x) k.test
        ∙ total_streams_agree n common.bind (some k.address) (hc.new_uuid k.v).0
            (from_opts version opts) c.control_socket u k.tx tx
        ∙ sym (ap (λ (x : Perf n hs.Stats). total_streams x) same) in
      let (c', s', rc, rs, wc, ws, uc, us) =
        whole_test_completes n b pc ps creating running announcement sent answer welcome rest rest'
          id ids first turn turn' streams last c (spawned hs s t l) reaches local remote
          k.registered
          (new_registered n b hs (hc.new_uuid k.v).0 (from_opts version opts) u tx
            (announced hs t l) s same)
          (ap (λ (x : Perf n hc.Stats). x.state) k.test)
          (ap (λ (x : Perf n hs.Stats). x.state) same) k.can_connect counted all el er k.up
          (subst IsUp (sym socket) up') fc fr fa fs fw (ap pending socket ∙ left) dc in
      (
        c',
        s',
        step,
        ap (λ (x : Perf n hs.Stats). x.cookie) same
            ∙ sym (ap (λ (x : Perf n hc.Stats). x.cookie) k.test),
        ap (λ (x : Perf n hs.Stats). x.params) same,
        rc,
        rs,
        wc,
        ws
            ∙ ap
                (λ x.
                  (((written x ++ frame n creating) ++ frame n running) ++ frame n announcement)
                  ++ frame n answer)
                socket
            ∙ ap
                (λ x.
                  (((x ++ frame n creating) ++ frame n running) ++ frame n announcement)
                  ++ frame n answer)
                greeted,
        uc,
        us,
      )
