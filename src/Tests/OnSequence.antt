-- ===== src/Tests/OnSequence.antt =====
-- A welcome and the start of a test, one behind the other.
use iperf3_rust.Common.{◌≡◌, refl, List, [], ◌∷◌, ◌++◌, arith}
use iperf3_rust.Message.{ServerEnvelope, ServerMessage, State}
use iperf3_rust.Outcome.{ok}
use iperf3_rust.Net.Interface.{Bytes}
use iperf3_rust.Net.Frame.{write_control_message}
use iperf3_rust.Net.Sequence.{write_each, read_each, values_of, messages_in_order}
use iperf3_rust.Tests.Wire.{Pipe, pipes, pipes-Behaves}
use iperf3_rust.Tests.Machine.{empty_pipe, frame_of}

abbrev spoken : List (ServerEnvelope × Bytes)
spoken =
    (ServerEnvelope.message ServerMessage.welcome, 1 ∷ [])
    ∷ (ServerEnvelope.message (ServerMessage.set_state State.running), 2 ∷ [])
    ∷ []

abbrev heard : Pipe
heard = record { incoming = frame_of 1 ++ (frame_of 2 ++ frame_of 3); outgoing = [] }

messages_in_order_example :
    (w' r' : Pipe) × (write_each pipes pipes.server_codec (values_of spoken) empty_pipe
      ≡ (ok tt, w'))
    × (read_each pipes pipes.server_codec 2 heard ≡ (ok (values_of spoken), r'))
    × (r'.incoming ≡ frame_of 3)
    × (r'.outgoing ≡ [])
unfolding write_each write_control_message
messages_in_order_example =
    messages_in_order pipes pipes.server_codec pipes-Behaves spoken (frame_of 1 ++ frame_of 2)
      (frame_of 3) empty_pipe heard tt tt
      (((refl, refl), omega arith), (((refl, refl), omega arith), tt)) refl refl
