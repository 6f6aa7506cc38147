-- ===== src/Tests/OnSession.antt =====
-- A client that starts, and the idle server that it reaches.
use iperf3_rust.Common.{true, none, some, ◌≡◌, refl, [], ◌∷◌, ◌++◌, List, arith}
use iperf3_rust.Message.{client, State, from_opts}
use iperf3_rust.Outcome.{ok}
use iperf3_rust.Host.{ControllerMessage}
use iperf3_rust.Perf.{Perf, new_with_stats_receiver}
use iperf3_rust.Controller.State.{Controller, new}
use iperf3_rust.Client.{start_client}
use iperf3_rust.Server.Accept.{
  Listener, inbound, again, upgrade, dispatched, accept_step, listening,
}
use iperf3_rust.Server.Session.{SameTest, session_agrees}
use iperf3_rust.Tests.Wire.{Pipe, pipes, pipes-Behaves}
use iperf3_rust.Tests.Machine.{machine, frame_of}
use iperf3_rust.Tests.OnStarting.{asked, common, asked-Ready, machine-Reaches}

abbrev greeted : Pipe
greeted = record { incoming = []; outgoing = frame_of 1 ++ frame_of 3 }

abbrev started : Controller pipes machine
started =
    new
      (new_with_stats_receiver none (some "10.0.0.1:9201") "ours" client (from_opts "0.1.0" asked)
        greeted tt)
      []

start_client-started : start_client machine "0.1.0" common asked [] ≡ (ok started, [])
unfolding start_client iperf3_rust.Socket.new_socket iperf3_rust.Client.introduce
    iperf3_rust.Net.Messages.client_write_message iperf3_rust.Net.Frame.write_control_message
    iperf3_rust.Net.Messages.client_read_message iperf3_rust.Net.Frame.read_control_message
    iperf3_rust.Net.Frame.read_payload iperf3_rust.Net.Frame.read_body new
start_client-started = refl

abbrev caller : Pipe
caller = record { incoming = frame_of 1 ++ frame_of 3; outgoing = [] }

abbrev idle : Listener pipes machine
idle = listening []

session_agrees_example :
    (s : Perf pipes machine.Stats) × (v : List (ControllerMessage Pipe)) × (accept_step
        (inbound caller true)
        idle
      ≡ (ok again, dispatched s v idle))
    × (upgrade (dispatched s v idle).in_flight_test_state (dispatched s v idle).tests
        ≡ some State.start)
    × (s.control_socket.outgoing ≡ frame_of 1)
    × SameTest pipes pipes-Behaves machine machine (1 ∷ []) machine-Reaches 1 started.perf s
unfolding listening new new_with_stats_receiver from_opts
session_agrees_example =
    session_agrees pipes pipes-Behaves machine machine (1 ∷ []) machine-Reaches "0.1.0" common asked
      [] [] asked-Ready started idle caller [] 1 start_client-started refl tt refl (omega arith)
