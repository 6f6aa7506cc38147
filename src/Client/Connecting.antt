-- ===== src/Client/Connecting.antt =====
-- A client that reaches its server gets the controller of a new test.
use Prim.Native.String.{◌++◌ as concat}
use iperf3_rust.Common.{String, ◌≡◌, refl, ap, subst, ◌∙◌, some, ◌++◌}
use iperf3_rust.Constant.{internal_port_buffer}
use iperf3_rust.Message.{
  client, State, ClientMessage, ServerMessage, ClientEnvelope, ServerEnvelope, from_opts,
}
use iperf3_rust.Message.Opts.{CommonOpts, ClientOpts}
use iperf3_rust.Outcome.{ok}
use iperf3_rust.Net.Interface.{Bytes, Net, Behaves}
use iperf3_rust.Net.Specification.{frame, Fits}
use iperf3_rust.Host.{Host}
use iperf3_rust.Perf.{new_with_stats_receiver}
use iperf3_rust.Controller.State.{Controller, new}
use iperf3_rust.Controller.Registered.{HasRegistered}
use iperf3_rust.Controller.Reaching.{Reaches, CanConnect, Parses, new_socket_done}
use iperf3_rust.Client.{start_client}
use iperf3_rust.Client.Handshake.{introduce_done}

module _ {n : Net} (b : Behaves n) (h : Host n) (welcome : Bytes) (p : Reaches b h welcome) where
  open n use {client_codec, server_codec}

  -- What the options and the system give that `start_client` wants.
  pub record Ready (version : String) (common : CommonOpts) (opts : ClientOpts) : Type 0 where
    pub host : String
    pub named : opts.client ≡ some host
    pub server_addr : h.SocketAddr
    pub parses :
        h.parse_addr (concat host (concat ":" (h.display_port common.port))) ≡ some server_addr
    pub binds : Parses b h welcome p common.bind
    pub parameters : Bytes
    pub parameters_fit :
        Fits client_codec
          (ClientEnvelope.message (ClientMessage.send_parameters (from_opts version opts)))
          parameters
    pub welcome_fits : Fits server_codec (ServerEnvelope.message ServerMessage.welcome) welcome
    pub hello : h.World → Bytes
    pub hello_fits :
        (w : h.World)
        → Fits client_codec
            (ClientEnvelope.message (ClientMessage.hello (h.new_uuid w).0))
            (hello w)

  -- A client at the start of its test, which has introduced itself under a new cookie.
  pub record IsReady {version : String} {common : CommonOpts} {opts : ClientOpts}
      (r : Ready version common opts) (c : Controller n h) : Type 0 where
    pub v : h.World
    pub tx : h.Stats
    pub address : String
    pub registered : HasRegistered client 0 c
    pub can_connect : CanConnect b h welcome p c.perf
    pub test :
        c.perf
        ≡ new_with_stats_receiver common.bind
            (some address)
            (h.new_uuid v).0
            client
            (from_opts version opts)
            c.control_socket
            tx
    pub up : b.IsUp c.control_socket
    pub introduced : b.written c.control_socket ≡ frame n (r.hello v) ++ frame n r.parameters

  -- If the options name a host, its address and the one to bind to are addresses, sockets are made
  -- and bound, each connection leads to a server that greets, and the hello, the welcome and the
  -- parameters fit, then `start_client` succeeds with a controller at the start of its test, with
  -- the parameters of the options and a new cookie, no worker yet, and a control connection that
  -- works, on which it has written exactly the hello and the parameters; this controller has what
  -- it needs to connect its streams.
  pub start_client_ready :
      (version : String) (common : CommonOpts) (opts : ClientOpts) (w : h.World)
      (r : Ready version common opts)
      → (c : Controller n h) × (w' : h.World) × (start_client h version common opts w ≡ (ok c, w'))
        × IsReady r c
        × (c.state ≡ State.start)
        × (c.params ≡ from_opts version opts)
  unfolding start_client new new_with_stats_receiver
  start_client_ready version common opts w r =
      let (socket, w1, r1) = new_socket_done b h welcome p common.bind opts.prefer_ipv6 w r.binds in
      let (s, v, rest, r2, up, pending, fresh) = p.connected r.server_addr socket w1 in
      let (s', r3, up', left, sent) =
        introduce_done b (h.new_uuid v).0 (from_opts version opts) (r.hello v) welcome r.parameters
          rest s up pending (r.hello_fits v) r.welcome_fits r.parameters_fit in
      let opened = h.stats_channel internal_port_buffer (h.new_uuid v).1 in
      let address = concat r.host (concat ":" (h.display_port common.port)) in
      let perf =
        new_with_stats_receiver common.bind (some address) (h.new_uuid v).0 client
          (from_opts version opts) s' opened.0 in
      (
        new perf opened.1,
        opened.1,
        simp (r.named, r1, r.parses, r2, r3),
        record {
          v = v;
          tx = opened.0;
          address = address;
          registered = record {
            serves = refl;
            next = refl;
            keys = tt;
            count = refl;
            stats = (_, refl);
          };
          can_connect = record {
            address = address;
            hello = r.hello v;
            remote_addr = r.server_addr;
            to_server = refl;
            parses = r.parses;
            binds = r.binds;
            hello_fits = r.hello_fits v;
            welcome_fits = r.welcome_fits;
          };
          test = refl;
          up = up';
          introduced = sent ∙ ap (λ x. (x ++ frame n (r.hello v)) ++ frame n r.parameters) fresh;
        },
        refl,
        refl,
      )

  -- The controller that `start_client` gives is at the start of its test.
  pub started_IsReady :
      (version : String) (common : CommonOpts) (opts : ClientOpts) (w w' : h.World)
      (r : Ready version common opts) (c : Controller n h)
      → start_client h version common opts w ≡ (ok c, w')
      → IsReady r c
  started_IsReady version common opts w w' r c started =
      let (c0, w0, e, ready, st, ps) = start_client_ready version common opts w r in
      let same : c0 ≡ c = cc in subst (IsReady r) same ready
