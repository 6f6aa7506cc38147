-- ===== src/Server/Session.antt =====
-- A client and a server that come together on the two sides of one test.
use iperf3_rust.Common.{
  ℕ, Option, String, ◌<◌, ◌≡◌, refl, sym, ap, subst, ◌∙◌, true, not, none, some, ◌++◌, append_assoc,
}
use iperf3_rust.Message.{client, server, State, Parameters, from_opts}
use iperf3_rust.Constant.{internal_port_buffer}
use iperf3_rust.Message.Opts.{CommonOpts, ClientOpts}
use iperf3_rust.Outcome.{ok}
use iperf3_rust.Net.Interface.{Bytes, Net, Behaves}
use iperf3_rust.Net.Specification.{frame}
use iperf3_rust.Host.{Host}
use iperf3_rust.Perf.{Perf, new_with_stats_receiver}
use iperf3_rust.Controller.State.{Controller}
use iperf3_rust.Controller.Streams.{total_streams, is_sending_end}
use iperf3_rust.Controller.Directions.{total_streams_agree, ends_opposite}
use iperf3_rust.Controller.Reaching.{Reaches}
use iperf3_rust.Client.{start_client}
use iperf3_rust.Client.Connecting.{Ready, started_IsReady}
use iperf3_rust.Server.Accept.{Listener, inbound, again, upgrade, dispatched, accept_step}
use iperf3_rust.Server.Starting.{idle_starts_test}

module _ (n : Net) (b : Behaves n) (hc hs : Host n) (welcome : Bytes)
    (reaches : Reaches b hc welcome) where
  -- Two sides of one test: the same cookie and parameters, the same number of streams, and
  -- opposite ends of stream `i`.
  pub record SameTest (i : ℕ) (c : Perf n hc.Stats) (s : Perf n hs.Stats) : Type 0 where
    pub cookie : s.cookie ≡ c.cookie
    pub params : s.params ≡ c.params
    pub total : total_streams c ≡ total_streams s
    pub ends : is_sending_end c i ≡ not (is_sending_end s i)

  made_SameTest :
      (bind_address server_address : Option String) (cookie : String) (params : Parameters)
      (cs ss : n.Stream) (tx : hc.Stats) (tx' : hs.Stats) (i : ℕ)
      → i
        < total_streams
            (new_with_stats_receiver {n = n} bind_address server_address cookie client params cs tx)
      → SameTest i
          (new_with_stats_receiver {n = n} bind_address server_address cookie client params cs tx)
          (new_with_stats_receiver {n = n} none none cookie server params ss tx')
  unfolding new_with_stats_receiver
  made_SameTest bind_address server_address cookie params cs ss tx tx' i less = record {
    cookie = refl;
    params = refl;
    total = total_streams_agree n bind_address server_address cookie params cs ss tx tx';
    ends = ends_opposite n bind_address server_address cookie params cs ss tx tx' i less;
  }

  -- If `start_client` has given a controller, on a system that lets it connect, and what it has
  -- written on its control connection is at the head of what is pending on a working connection
  -- that reaches a server where no test lives, whose parameters come in time, then the accept loop
  -- makes a test of the connection and goes on; the test is in flight at its start, the server has
  -- written the welcome, and both sides have the same cookie, the same parameters and the same
  -- number of streams, and are at opposite ends of each stream of the client.
  pub session_agrees :
      (version : String) (common : CommonOpts) (opts : ClientOpts) (w w' : hc.World)
      (r : Ready b hc welcome reaches version common opts) (c : Controller n hc) (l : Listener n hs)
      (t : n.Stream) (rest : Bytes) (i : ℕ)
      → start_client hc version common opts w ≡ (ok c, w')
      → upgrade l.in_flight_test_state l.tests ≡ none
      → b.IsUp t
      → b.pending t ≡ b.written c.control_socket ++ rest
      → i < total_streams c.perf
      → (s : Perf n hs.Stats) × (v : hs.World) × (accept_step (inbound t true) l
          ≡ (ok again, dispatched s v l))
        × (upgrade (dispatched s v l).in_flight_test_state (dispatched s v l).tests
            ≡ some State.start)
        × (b.written s.control_socket ≡ b.written t ++ frame n welcome)
        × SameTest i c.perf s
  unfolding new_with_stats_receiver
  session_agrees version common opts w w' r c l t rest i started idle up p less =
      let k = started_IsReady b hc welcome reaches version common opts w w' r c started in
      let (s', l', step, at, in_flight, greeted) =
        idle_starts_test n b hs l (hc.new_uuid k.v).0 (from_opts version opts) (r.hello k.v) welcome
          r.parameters rest t idle up (r.hello_fits k.v) r.welcome_fits r.parameters_fit
          (p
            ∙ ap (λ x. x ++ rest) k.introduced
            ∙ append_assoc (frame n (r.hello k.v)) (frame n r.parameters) rest) in
      let s =
        new_with_stats_receiver {n = n} none none (hc.new_uuid k.v).0 server
          (from_opts version opts) s' (hs.stats_channel internal_port_buffer l.world).0 in
      (
        s,
        _,
        step ∙ ap (λ x. (ok again, x)) at,
        sym (ap (λ x. upgrade x.in_flight_test_state x.tests) at) ∙ in_flight,
        greeted,
        subst (λ x. SameTest i x s) (sym k.test)
            (made_SameTest common.bind (some k.address) (hc.new_uuid k.v).0 (from_opts version opts)
              c.control_socket s' k.tx (hs.stats_channel internal_port_buffer l.world).0 i
              (subst (λ x. i < total_streams x) k.test less)),
      )
