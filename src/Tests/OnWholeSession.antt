-- ===== src/Tests/OnWholeSession.antt =====
-- A client that is asked for a test in both directions, and an idle server, up to the results.
use iperf3_rust.Common.{ℕ, ◌≡◌, refl, none, some, true, [], ◌∷◌, ◌++◌, arith}
use iperf3_rust.Common.HashMap.{HashMap, get, insert, remove}
use iperf3_rust.Message.{client, server, Parameters, from_opts}
use iperf3_rust.Error.{done}
use iperf3_rust.Outcome.{ok}
use iperf3_rust.Host.{Host}
use iperf3_rust.Perf.{Perf, new_with_stats_receiver, set_state}
use iperf3_rust.Socket.{new_socket}
use iperf3_rust.Net.Messages.{
  client_write_message, client_read_message, server_write_message, server_read_message,
}
use iperf3_rust.Net.Frame.{write_control_message, read_control_message, read_payload, read_body}
use iperf3_rust.Controller.State.{Controller, new}
use iperf3_rust.Controller.Cooperation.{Cooperates}
use iperf3_rust.Controller.Streams.{
  create_streams, create_and_register_stream_worker, connect_data_stream, connect_streams,
  accept_stream,
}
use iperf3_rust.Controller.Run.{
  control, run_controller, pass, process_internal_message, process_server_message,
}
use iperf3_rust.Controller.Finishing.{collected}
use iperf3_rust.Controller.Draining.{Exhausts, drained}
use iperf3_rust.Controller.Turns.{hears}
use iperf3_rust.Controller.Completion.{Reports}
use iperf3_rust.Controller.Reaching.{Reaches}
use iperf3_rust.Controller.WholeTest.{server_opening, client_opening, after_turns}
use iperf3_rust.Client.{start_client, introduce}
use iperf3_rust.Client.Connecting.{Ready}
use iperf3_rust.Server.Handshake.{create_perf}
use iperf3_rust.Server.Accept.{Listener, inbound, again, dispatched, accept_step, listening}
use iperf3_rust.Server.WholeSession.{
  announced, perf_for, spawned, server_turns, client_turns, whole_session_completes,
}
use iperf3_rust.Tests.Wire.{Pipe, pipes, pipes-Behaves, two_results}
use iperf3_rust.Tests.Machine.{frame_of, empty_pipe}
use iperf3_rust.Tests.Desk.{desk, desk-Cooperates}
use iperf3_rust.Tests.OnStarting.{asked, common}

-- What the server says in a whole test.
abbrev said : Pipe
said = record {
  incoming = frame_of 1 ++ (frame_of 6 ++ (frame_of 2 ++ (frame_of 3 ++ (frame_of 8 ++ []))));
  outgoing = [];
}

abbrev line : Host pipes
line = record desk { connect = λ a s w. (done said, w) }

abbrev line-Cooperates : Cooperates line
line-Cooperates = record {
  result = desk-Cooperates.result;
  seen = desk-Cooperates.seen;
  publish_heard = desk-Cooperates.publish_heard;
  join_ends = desk-Cooperates.join_ends;
  join_timeout_ends = desk-Cooperates.join_timeout_ends;
  send_stats_taken = desk-Cooperates.send_stats_taken;
}

line-Reaches : Reaches pipes-Behaves line (1 ∷ [])
line-Reaches = record {
  made_v4 = λ w. (tt, w, refl);
  made_v6 = λ w. (tt, w, refl);
  bound = λ a s w. (w, refl);
  connected = λ a s w. (
    said,
    w,
    frame_of 6 ++ (frame_of 2 ++ (frame_of 3 ++ (frame_of 8 ++ []))),
    refl,
    tt,
    refl,
    refl,
  );
}

asked-Ready : Ready pipes-Behaves line (1 ∷ []) line-Reaches "0.1.0" common asked
unfolding from_opts
asked-Ready = record {
  host = "10.0.0.1";
  named = refl;
  server_addr = tt;
  parses = refl;
  binds = tt;
  parameters = 3 ∷ [];
  parameters_fit = ((refl, refl), omega arith);
  welcome_fits = ((refl, refl), omega arith);
  hello = λ w. 1 ∷ [];
  hello_fits = λ w. ((refl, refl), omega arith);
}

abbrev asked_parameters : Parameters
asked_parameters = from_opts "0.1.0" asked

abbrev ours : Controller pipes line
ours =
    new
      (new_with_stats_receiver none (some "10.0.0.1:9201") "ours" client asked_parameters
        (record {
          incoming = frame_of 6 ++ (frame_of 2 ++ (frame_of 3 ++ (frame_of 8 ++ [])));
          outgoing = frame_of 1 ++ frame_of 3;
        })
        tt)
      []

start_client-ours : start_client line "0.1.0" common asked [] ≡ (ok ours, [])
unfolding start_client new_socket introduce client_write_message write_control_message
    client_read_message read_control_message read_payload read_body new
start_client-ours = refl

abbrev caller : Pipe
caller = record { incoming = frame_of 1 ++ (frame_of 3 ++ (frame_of 8 ++ [])); outgoing = [] }

abbrev pub theirs : Perf pipes desk.Stats
theirs =
    new_with_stats_receiver none none "ours" server asked_parameters
      (record { incoming = frame_of 8 ++ []; outgoing = frame_of 1 }) tt

abbrev idle : Listener pipes desk
idle = listening []

perf_for-theirs : perf_for desk caller idle ≡ ok theirs
unfolding listening from_opts create_perf server_read_message read_control_message read_payload
    read_body server_write_message write_control_message
perf_for-theirs = refl

abbrev pub their_side : Controller pipes desk
their_side = spawned desk theirs caller idle

abbrev both : HashMap ℕ
both = (0, 0) ∷ (1, 1) ∷ []

both-Exhausts : Exhausts (0 ∷ 1 ∷ []) both
unfolding get remove
both-Exhausts = ((0, refl), ((1, refl), refl))

all_drained : two_results ≡ drained desk desk-Cooperates (0 ∷ 1 ∷ []) both []
unfolding drained get remove insert
all_drained = refl

their_workers :
    let s = after_turns (server_opening (hears control) (empty_pipe ∷ []) empty_pipe) their_side in
    (s.workers ≡ both) × (s.stream_results ≡ [])
unfolding run_controller pass set_state server_write_message write_control_message accept_stream
    create_and_register_stream_worker insert process_internal_message new new_with_stats_receiver
    from_opts listening
their_workers = (refl, refl)

our_workers :
    let c = after_turns client_opening ours in (c.workers ≡ both) × (c.stream_results ≡ [])
unfolding run_controller pass set_state client_read_message read_control_message read_payload
    read_body create_streams connect_streams connect_data_stream create_and_register_stream_worker
    insert client_write_message write_control_message new_socket process_server_message new
    new_with_stats_receiver from_opts
our_workers = (refl, refl)

all_ours : two_results ≡ collected line line-Cooperates both []
unfolding collected insert
all_ours = refl

whole_session_completes_example :
    (c' : Controller pipes line) × (s' : Controller pipes desk) × (accept_step
        (inbound caller true)
        idle
      ≡ (ok again, dispatched theirs (announced desk caller idle) idle))
    × (theirs.cookie ≡ ours.cookie)
    × (theirs.params ≡ asked_parameters)
    × (run_controller (client_turns (hears control)) ours ≡ (ok true, c'))
    × (run_controller
          (server_turns (hears control) (empty_pipe ∷ []) empty_pipe (0 ∷ 1 ∷ []) (hears control))
          their_side
        ≡ (ok true, s'))
    × (c'.control_socket.outgoing ≡ ours.control_socket.outgoing ++ frame_of 8)
    × (s'.control_socket.outgoing
        ≡ (((([] ++ frame_of 1) ++ frame_of 6) ++ frame_of 2) ++ frame_of 3) ++ frame_of 8)
    × Reports pipes line-Cooperates two_results two_results c'.world
    × Reports pipes desk-Cooperates two_results two_results s'.world
unfolding listening new new_with_stats_receiver from_opts
whole_session_completes_example =
    whole_session_completes pipes pipes-Behaves line-Cooperates desk-Cooperates "0.1.0" common asked
      [] [] (6 ∷ []) (2 ∷ []) (3 ∷ []) (8 ∷ []) (8 ∷ []) (1 ∷ []) [] [] 0 (1 ∷ []) (hears control)
      (hears control) (hears control) (empty_pipe ∷ []) empty_pipe caller line-Reaches asked-Ready
      ours idle theirs two_results two_results start_client-ours refl tt refl perf_for-theirs refl
      (rw their_workers.0 both-Exhausts) (rw (our_workers.0, our_workers.1) all_ours)
      (rw (their_workers.0, their_workers.1) all_drained) ((refl, refl), omega arith)
      ((refl, refl), omega arith) ((refl, refl), omega arith) ((refl, refl), omega arith)
      ((refl, refl), omega arith) refl
