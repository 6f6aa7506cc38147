-- ===== src/Tests/OnProtocol.antt =====
-- The server's loop as steps of the machine, for a test of two streams.
use iperf3_rust.Common.{◌≡◌, refl, some, false, List, [], ◌∷◌}
use iperf3_rust.Common.HashMap.{insert}
use iperf3_rust.Message.{server, from_opts}
use iperf3_rust.Outcome.{ok}
use iperf3_rust.Host.{ControllerMessage}
use iperf3_rust.Perf.{new_with_stats_receiver, set_state}
use iperf3_rust.Net.Messages.{server_write_message}
use iperf3_rust.Net.Frame.{write_control_message}
use iperf3_rust.Server.Accept.{listening}
use iperf3_rust.Controller.State.{new}
use iperf3_rust.Controller.Streams.{create_and_register_stream_worker, accept_stream}
use iperf3_rust.Controller.Run.{Wake, internal, control, Turn, run_controller, pass}
use iperf3_rust.Controller.Machine.{Passes}
use iperf3_rust.Controller.Protocol.{run_controller-Passes}
use iperf3_rust.Controller.Turns.{hears}
use iperf3_rust.Tests.Wire.{Pipe}
use iperf3_rust.Tests.Machine.{empty_pipe}
use iperf3_rust.Tests.OnWholeSession.{their_side}

-- The server's test waits for its second stream, which comes.
abbrev comes : Wake Pipe
comes = internal (some (ControllerMessage.create_stream empty_pipe))

abbrev waiting : List (Turn Pipe)
waiting = hears control ∷ hears comes ∷ []

waiting_on : (run_controller waiting their_side).0 ≡ ok false
unfolding run_controller pass set_state server_write_message write_control_message accept_stream
    create_and_register_stream_worker insert new new_with_stats_receiver from_opts listening
waiting_on = refl

run_controller-Passes_example :
    let s = (run_controller waiting their_side).1.state in
    let r = run_controller (hears control ∷ hears comes ∷ hears comes ∷ []) their_side in
    Passes "ours" comes s r × (r.1.cookie ≡ "ours") × (r.1.role ≡ server)
unfolding new new_with_stats_receiver from_opts listening
run_controller-Passes_example =
    run_controller-Passes waiting (hears comes) their_side refl waiting_on
