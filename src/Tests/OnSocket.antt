-- ===== src/Tests/OnSocket.antt =====
-- A socket with no address asked for, under IPv6.
use iperf3_rust.Common.{true, ◌≡◌, refl, none, [], if◌then◌else◌}
use iperf3_rust.Error.{done}
use iperf3_rust.Socket.{new_socket}
use iperf3_rust.Socket.Binding.{Asked, new_socket_bound}
use iperf3_rust.Tests.Machine.{machine}

new_socket_bound_example :
    (a : Unit {0}) × (w1 : machine.World) × Asked machine none true a
    × ((if machine.is_ipv4 a then machine.new_v4 [] else machine.new_v6 []) ≡ (done tt, w1))
    × (machine.bind a tt w1 ≡ (done tt, (new_socket machine none true []).1))
unfolding new_socket
new_socket_bound_example = new_socket_bound machine none true [] tt refl
