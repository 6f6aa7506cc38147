-- ===== src/Tests/OnOversize.antt =====
-- A payload of one byte more than the limit.
use iperf3_rust.Common.{ℕ, zero, suc, ◌+◌, ◌≡◌, refl, some, [], ◌∷◌, ◌++◌, length, arith}
use iperf3_rust.Constant.{max_control_message_size}
use iperf3_rust.Error.{control_message_too_large}
use iperf3_rust.Outcome.{ok, err}
use iperf3_rust.Net.Interface.{Bytes, Codec}
use iperf3_rust.Net.Frame.{write_control_message, read_control_message}
use iperf3_rust.Net.Specification.{frame}
use iperf3_rust.Net.Oversize.{oversize_refused}
use iperf3_rust.Tests.Wire.{Pipe, pipes, pipes-Behaves}
use iperf3_rust.Tests.Machine.{empty_pipe}

replicate : ℕ → ℕ → Bytes
replicate zero x = []
replicate (suc k) x = x ∷ replicate k x

length-replicate : (k x : ℕ) → length (replicate k x) ≡ k
unfolding replicate
length-replicate zero x = refl
length-replicate (suc k) x = omega (arith, length-replicate k x)

abbrev large : Bytes
large = replicate (max_control_message_size + 1) 0

-- It encodes the only value in this way.
abbrev in_large : Codec (Unit {0})
in_large = record { to_vec = λ a. some large; from_slice = λ bs. some tt }

abbrev filled : Pipe
filled = record { incoming = frame pipes large ++ []; outgoing = [] }

oversize_refused_example :
    (w' r' : Pipe) × (write_control_message pipes in_large tt empty_pipe ≡ (ok tt, w'))
    × (w'.outgoing ≡ frame pipes large)
    × (read_control_message pipes in_large filled
        ≡ (err (control_message_too_large (length large)), r'))
    × (r'.incoming ≡ large ++ [])
oversize_refused_example =
    oversize_refused pipes pipes-Behaves in_large tt large [] empty_pipe filled tt tt refl
      (omega (arith, length-replicate (max_control_message_size + 1) 0))
      (omega (arith, length-replicate (max_control_message_size + 1) 0)) refl
