-- ===== src/Tests/OnWire.antt =====
-- The theorems on control messages, results and the handshake, over pipes.
use iperf3_rust.Common.{◌≡◌, refl, some, [], ◌∷◌, ◌++◌, arith}
use iperf3_rust.Common.HashMap.{map_values}
use iperf3_rust.Message.{ServerEnvelope, welcome}
use iperf3_rust.Outcome.{ok}
use iperf3_rust.Net.Specification.{Leaves}
use iperf3_rust.Net.Frame.{read_control_message}
use iperf3_rust.Net.RoundTrip.{read_control_message-parse_frame}
use iperf3_rust.Controller.Results.{client_exchange, server_exchange, mark_peer}
use iperf3_rust.Controller.Agreement.{exchange_agrees}
use iperf3_rust.Tests.Wire.{Pipe, pipes, pipes-Behaves, sample_stats}
use iperf3_rust.Tests.Machine.{frame_of}

abbrev greeted : Pipe
greeted = record { incoming = frame_of 1 ++ frame_of 3; outgoing = [] }

read_control_message-parse_frame_example :
    (s' : Pipe) × (read_control_message pipes pipes.server_codec greeted
      ≡ (ok (ServerEnvelope.message welcome), s'))
    × Leaves pipes-Behaves (some (frame_of 3)) greeted s'
read_control_message-parse_frame_example =
    read_control_message-parse_frame pipes pipes-Behaves pipes.server_codec greeted tt

abbrev asked : Pipe
asked = record { incoming = frame_of 4; outgoing = [] }

exchange_agrees_example :
    (c' s' : Pipe) × (client_exchange pipes ((0, sample_stats 0) ∷ []) asked
      ≡ (ok (map_values mark_peer ((1, sample_stats 1) ∷ [])), c'))
    × (server_exchange pipes ((1, sample_stats 1) ∷ []) asked
        ≡ (ok (map_values mark_peer ((0, sample_stats 0) ∷ [])), s'))
    × (c'.outgoing ≡ frame_of 4)
    × (s'.outgoing ≡ frame_of 4)
exchange_agrees_example =
    exchange_agrees pipes pipes-Behaves ((0, sample_stats 0) ∷ []) ((1, sample_stats 1) ∷ [])
      (4 ∷ []) (4 ∷ []) [] [] asked asked tt tt ((refl, refl), omega arith)
      ((refl, refl), omega arith) refl refl
