-- ===== src/Tests/OnListener.antt =====
-- The theorems on the accept loop, for a server that two clients reach.
use iperf3_rust.Common.{ℕ, ◌≡◌, ◌≢◌, refl, subst, none, some, true, List, [], ◌∷◌, ◌++◌, arith}
use iperf3_rust.Common.HashMap.{get, insert}
use iperf3_rust.Message.{server, State}
use iperf3_rust.Outcome.{ok}
use iperf3_rust.Host.{ControllerMessage}
use iperf3_rust.Perf.{new_with_stats_receiver}
use iperf3_rust.Server.Handshake.{handle_create_stream}
use iperf3_rust.Server.Accept.{
  Listener, Event, inbound, state_set, again, upgrade, dispatched, after_create_stream, accept_step,
  accept_loop, listener_after, listening,
}
use iperf3_rust.Server.InFlight.{at_most_one_test, busy_connection}
use iperf3_rust.Server.Ownership.{IsMade}
use iperf3_rust.Server.Starting.{idle_starts_test, stranger_terminates_test}
use iperf3_rust.Tests.Wire.{Pipe, pipes, pipes-Behaves, sample_parameters}
use iperf3_rust.Tests.Machine.{machine, frame_of, empty_pipe}

abbrev caller : Pipe
caller = record { incoming = frame_of 1 ++ frame_of 3; outgoing = [] }

-- A client opens a test, whose controller then waits for streams.
abbrev opening : List (Event Pipe)
opening = inbound caller true ∷ state_set 0 (State.create_streams "ours") ∷ []

abbrev opened : Listener pipes machine
opened = record {
  in_flight_test_state = some 0;
  controller_channel = some tt;
  tests = (0, State.create_streams "ours") ∷ [];
  allocated = 1;
  world = [];
}

opening_opens : opened ≡ listener_after opening []
unfolding accept_loop accept_step listening iperf3_rust.Net.Messages.server_read_message
    iperf3_rust.Net.Frame.read_control_message iperf3_rust.Net.Frame.read_payload
    iperf3_rust.Net.Frame.read_body iperf3_rust.Net.Messages.server_write_message
    iperf3_rust.Net.Frame.write_control_message iperf3_rust.Controller.State.new get insert
opening_opens = refl

abbrev first : ℕ
first = 0

first_lives : get first (listener_after {h = machine} opening []).tests ≢ none
unfolding get
first_lives = subst (λ l. get first l.tests ≢ none) opening_opens λ e. cc

at_most_one_test_example : first ≡ first
at_most_one_test_example = at_most_one_test machine opening [] first first first_lives first_lives

busy_connection_example :
    (tx : Unit {0}) × (w' : List (ControllerMessage Pipe)) × (opened.controller_channel ≡ some tx)
    × (accept_step (inbound caller true) opened
        ≡ after_create_stream tx
            (handle_create_stream machine (State.create_streams "ours") tx (caller, []))
            opened)
    × ((accept_step (inbound caller true) opened).1 ≡ record opened { world = w' })
unfolding get
busy_connection_example =
    busy_connection machine opening [] opened (State.create_streams "ours") caller true
      opening_opens refl

abbrev idle : Listener pipes machine
idle = listening []

idle_starts_test_example :
    (s' : Pipe) × (l' : Listener pipes machine) × (accept_step (inbound caller true) idle
      ≡ (ok again, l'))
    × (l'
        ≡ dispatched
            (new_with_stats_receiver none none "ours" server sample_parameters s' tt)
            []
            idle)
    × (upgrade l'.in_flight_test_state l'.tests ≡ some State.start)
    × (s'.outgoing ≡ frame_of 1)
unfolding listening
idle_starts_test_example =
    idle_starts_test pipes pipes-Behaves machine idle "ours" sample_parameters (1 ∷ []) (1 ∷ [])
      (3 ∷ []) [] caller refl tt ((refl, refl), omega arith) ((refl, refl), omega arith)
      ((refl, refl), omega arith) refl

stranger_terminates_test_example :
    (k : ℕ) × (tx : Unit {0}) × (opened.in_flight_test_state ≡ some k)
    × IsMade {n = pipes} {h = machine} opening (listening []) k tx
    × (accept_step (inbound empty_pipe true) opened
        ≡ (ok again, record opened { world = ControllerMessage.terminate ∷ [] }))
unfolding get
stranger_terminates_test_example =
    stranger_terminates_test pipes pipes-Behaves machine opening [] opened "ours" empty_pipe true
      opening_opens refl tt refl
