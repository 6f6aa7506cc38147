-- ===== src/Tests/OnCompletion.antt =====
-- The end of a test on both sides, and a test that is broken off.
use iperf3_rust.Common.{◌≡◌, refl, true, some, [], ◌∷◌, ◌++◌, arith}
use iperf3_rust.Common.HashMap.{HashMap, get, insert, remove}
use iperf3_rust.Message.{client, server, ServerMessage, State, StreamStats}
use iperf3_rust.Error.{Error, NetUtilError, unexpected_eof, control_message_too_large}
use iperf3_rust.Outcome.{ok, err}
use iperf3_rust.Controller.Interrupted.{interrupted_read_fails}
use iperf3_rust.Controller.Losing.{lost_connection_drops_results}
use iperf3_rust.Net.Frame.{in_payload}
use iperf3_rust.Net.Messages.{client_read_message}
use iperf3_rust.Host.{ControllerMessage}
use iperf3_rust.Controller.State.{Controller}
use iperf3_rust.Controller.Run.{interrupting, control, run_from, run_controller}
use iperf3_rust.Controller.Finishing.{collected, closed, terminated_test_ends}
use iperf3_rust.Controller.Turns.{hears}
use iperf3_rust.Controller.Draining.{terminations, drained}
use iperf3_rust.Controller.Breaking.{breaks, Reported, broken_test_ends}
use iperf3_rust.Controller.Completion.{Reports, running_test_completes}
use iperf3_rust.Tests.Wire.{Pipe, pipes, pipes-Behaves, sample_stats}
use iperf3_rust.Tests.Machine.{frame_of, empty_pipe}
use iperf3_rust.Tests.Desk.{desk, desk-Cooperates, at_desk}

abbrev our_results : HashMap StreamStats
our_results = (0, sample_stats 0) ∷ []

abbrev their_results : HashMap StreamStats
their_results = (1, sample_stats 1) ∷ []

abbrev client_end : Controller pipes desk
client_end =
    at_desk client State.running (record { incoming = frame_of 3 ++ frame_of 4; outgoing = [] })
      ((0, 0) ∷ [])

abbrev server_end : Controller pipes desk
server_end =
    at_desk server State.running (record { incoming = frame_of 4; outgoing = [] }) ((1, 1) ∷ [])

running_test_completes_example :
    (c' s' : Controller pipes desk) × (run_from
        (hears control ∷ hears control ∷ [])
        State.running
        client_end
      ≡ (ok true, c'))
    × (run_from (terminations (1 ∷ []) ++ hears control ∷ []) State.running server_end
        ≡ (ok true, s'))
    × (c'.control_socket.outgoing ≡ frame_of 4)
    × (s'.control_socket.outgoing ≡ frame_of 3 ++ frame_of 4)
    × Reports pipes desk-Cooperates our_results their_results c'.world
    × Reports pipes desk-Cooperates their_results our_results s'.world
unfolding get remove insert collected drained
running_test_completes_example =
    running_test_completes pipes pipes-Behaves desk-Cooperates desk-Cooperates (3 ∷ []) (4 ∷ [])
      (4 ∷ []) [] [] 1 [] tt tt (hears control) (hears control) State.running State.running
      client_end server_end our_results their_results refl refl refl refl refl refl
      ((1, refl), refl) refl refl tt tt ((refl, refl), omega arith) ((refl, refl), omega arith)
      ((refl, refl), omega arith) refl refl

abbrev broken_off : Controller pipes desk
broken_off = at_desk server State.terminate empty_pipe ((0, 0) ∷ (1, 1) ∷ [])

terminated_test_ends_example :
    (w v : desk.World) × (run_controller (hears control ∷ []) broken_off ≡ (
      ok true,
      closed desk desk-Cooperates
          ((0, sample_stats 0) ∷ (1, sample_stats 1) ∷ [])
          empty_pipe
          w
          broken_off,
    ))
    × (w ≡ v ++ (sample_stats 0 ∷ sample_stats 1 ∷ []))
unfolding insert collected
terminated_test_ends_example =
    terminated_test_ends desk desk-Cooperates (hears control) [] tt broken_off refl refl

abbrev stopped_client : Controller pipes desk
stopped_client =
    at_desk client State.running (record { incoming = frame_of 7 ++ frame_of 4; outgoing = [] })
      ((0, 0) ∷ [])

broken_test_ends_example :
    (c' s' : Controller pipes desk) × (run_from
        (hears (breaks true) ∷ hears control ∷ [])
        State.running
        server_end
      ≡ (ok true, s'))
    × (run_from (hears control ∷ hears control ∷ []) State.running stopped_client ≡ (ok true, c'))
    × (s'.control_socket.outgoing ≡ frame_of 7)
    × (c'.control_socket.outgoing ≡ [])
    × (c'.control_socket.incoming ≡ frame_of 4)
    × Reported pipes desk-Cooperates pipes-Behaves stopped_client c'.world
    × Reported pipes desk-Cooperates pipes-Behaves server_end s'.world
broken_test_ends_example =
    broken_test_ends pipes pipes-Behaves desk-Cooperates desk-Cooperates true (7 ∷ []) (frame_of 4)
      tt tt (hears control) (hears control) State.running State.running stopped_client server_end
      refl refl refl refl refl refl tt tt ((refl, refl), omega arith) refl

abbrev cut_off : Controller pipes desk
cut_off = at_desk client State.running empty_pipe ((0, 0) ∷ [])

lost_connection_drops_results_example :
    (c' : Controller pipes desk) × (run_from (hears control ∷ []) State.running cut_off
      ≡ (err (Error.client_read_error (NetUtilError.io_error unexpected_eof)), c'))
    × (c'.workers ≡ (0, 0) ∷ [])
    × (c'.stream_results ≡ [])
    × (c'.stats_sender ≡ some tt)
    × (c'.state ≡ State.running)
lost_connection_drops_results_example =
    lost_connection_drops_results pipes desk-Cooperates pipes-Behaves [] State.running cut_off refl
      refl tt refl

abbrev between : Controller pipes desk
between =
    at_desk client State.running (record { incoming = frame_of 3 ++ frame_of 4; outgoing = [] })
      ((0, 0) ∷ [])

interrupted_read_fails_example :
    (s : Pipe) × (c' : Controller pipes desk) × (client_read_message pipes between.control_socket
      ≡ (ok (ServerMessage.set_state State.exchange_results), s))
    × (run_from
          (hears (interrupting (in_payload 0) (some (ControllerMessage.stream_terminated 0)))
            ∷ hears control
            ∷ [])
          State.running
          between
        ≡ (err (Error.client_read_error (control_message_too_large 50331648)), c'))
    × (c'.control_socket.outgoing ≡ [])
interrupted_read_fails_example =
    interrupted_read_fails pipes desk-Cooperates pipes-Behaves [] State.running 0 50331648 between
      (ServerMessage.set_state State.exchange_results) (3 ∷ []) (frame_of 4) (1 ∷ 4 ∷ []) refl refl
      tt ((refl, refl), omega arith) refl refl (omega arith)
