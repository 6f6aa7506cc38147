-- ===== src/Tests/OnServer.antt =====
-- The theorems on the connections that the server accepts.
use text.Mathlib.TextEquality.{eq_iff}
use iperf3_rust.Common.{◌≡◌, refl, [], ◌∷◌, arith}
use iperf3_rust.Message.{State}
use iperf3_rust.Outcome.{ok}
use iperf3_rust.Host.{ControllerMessage}
use iperf3_rust.Server.Handshake.{handle_create_stream}
use iperf3_rust.Server.Admission.{admits_own_cookie, refuses_other_cookie, refuses_out_of_turn}
use iperf3_rust.Tests.Wire.{Pipe, pipes, pipes-Behaves}
use iperf3_rust.Tests.Machine.{machine, frame_of}

abbrev from_us : Pipe
from_us = record { incoming = frame_of 1; outgoing = [] }

abbrev from_others : Pipe
from_others = record { incoming = frame_of 2; outgoing = [] }

admits_own_cookie_example :
    (s' : Pipe) × (handle_create_stream machine (State.create_streams "ours") tt (from_us, [])
      ≡ (ok tt, (s', ControllerMessage.create_stream s' ∷ [])))
    × (s'.incoming ≡ [])
    × (s'.outgoing ≡ frame_of 1)
admits_own_cookie_example =
    admits_own_cookie pipes pipes-Behaves machine tt from_us [] tt "ours" (1 ∷ []) (1 ∷ []) []
      ((refl, refl), omega arith) ((refl, refl), omega arith) refl

refuses_other_cookie_example :
    (s' : Pipe) × (handle_create_stream machine (State.create_streams "ours") tt (from_others, [])
      ≡ (ok tt, (s', [])))
    × (s'.outgoing ≡ frame_of 5)
refuses_other_cookie_example =
    refuses_other_cookie pipes pipes-Behaves machine tt from_others [] tt "ours" "theirs" (2 ∷ [])
      (5 ∷ []) [] (λ e. cc ((eq_iff "ours" "theirs").1 e)) ((refl, refl), omega arith)
      ((refl, refl), omega arith) refl

refuses_out_of_turn_example :
    (s' : Pipe) × (handle_create_stream machine State.running tt (from_us, []) ≡ (ok tt, (s', [])))
    × (s'.incoming ≡ frame_of 1)
    × (s'.outgoing ≡ frame_of 5)
refuses_out_of_turn_example =
    refuses_out_of_turn pipes pipes-Behaves machine tt from_us [] tt State.running (5 ∷ [])
      (λ cookie e. cc) ((refl, refl), omega arith)
