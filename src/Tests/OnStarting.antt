-- ===== src/Tests/OnStarting.antt =====
-- A client that is asked for a test in both directions, on a machine that lets it connect.
use iperf3_rust.Common.{true, false, none, some, ◌≡◌, refl, [], ◌∷◌, arith}
use iperf3_rust.Message.{State}
use iperf3_rust.Controller.State.{Controller}
use iperf3_rust.Outcome.{ok}
use iperf3_rust.Controller.Reaching.{Reaches}
use iperf3_rust.Tests.Wire.{pipes, pipes-Behaves}
use iperf3_rust.Tests.Machine.{machine, frame_of}
use iperf3_rust.Message.{from_opts}
use iperf3_rust.Message.Opts.{CommonOpts, ClientOpts}
use iperf3_rust.Client.{start_client}
use iperf3_rust.Client.Connecting.{Ready, IsReady, start_client_ready}
use iperf3_rust.Tests.OnController.{backwards}

pub machine-Reaches : Reaches pipes-Behaves machine (1 ∷ [])
machine-Reaches = record {
  made_v4 = λ w. (tt, w, refl);
  made_v6 = λ w. (tt, w, refl);
  bound = λ a s w. (w, refl);
  connected =
      λ a s w. (record { incoming = frame_of 1; outgoing = [] }, w, [], refl, tt, refl, refl);
}

abbrev pub asked : ClientOpts
asked = record backwards { reverse = false; bidir = true; parallel = 1; bytes = some 100 }

abbrev pub common : CommonOpts
common = record { port = 9201; debug = false; bind = none }

pub asked-Ready : Ready pipes-Behaves machine (1 ∷ []) machine-Reaches "0.1.0" common asked
unfolding from_opts
asked-Ready = record {
  host = "10.0.0.1";
  named = refl;
  server_addr = tt;
  parses = refl;
  binds = tt;
  parameters = 3 ∷ [];
  parameters_fit = ((refl, refl), omega arith);
  welcome_fits = ((refl, refl), omega arith);
  hello = λ w. 1 ∷ [];
  hello_fits = λ w. ((refl, refl), omega arith);
}

start_client_ready_example :
    (c : Controller pipes machine) × (w' : machine.World) × (start_client machine "0.1.0" common
        asked []
      ≡ (ok c, w'))
    × IsReady pipes-Behaves machine (1 ∷ []) machine-Reaches asked-Ready c
    × (c.state ≡ State.start)
    × (c.params ≡ from_opts "0.1.0" asked)
start_client_ready_example =
    start_client_ready pipes-Behaves machine (1 ∷ []) machine-Reaches "0.1.0" common asked []
      asked-Ready
