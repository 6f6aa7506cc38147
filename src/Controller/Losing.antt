-- ===== src/Controller/Losing.antt =====
-- A client that loses its control connection in the middle of a test.
use iperf3_rust.Common.{◌≡◌, refl, none, List, ◌∷◌}
use iperf3_rust.Message.{client, State}
use iperf3_rust.Error.{Error, NetUtilError, unexpected_eof}
use iperf3_rust.Outcome.{err}
use iperf3_rust.Net.Interface.{Net, Behaves}
use iperf3_rust.Net.RoundTrip.{Implements-eof}
use iperf3_rust.Net.Messages.{client_read_message}
use iperf3_rust.Host.{Host}
use iperf3_rust.Controller.State.{Controller}
use iperf3_rust.Controller.Run.{Turn, control, select, run_from}
use iperf3_rust.Controller.Cooperation.{Cooperates}
use iperf3_rust.Controller.Turns.{hears}
use iperf3_rust.Controller.Draining.{pass_running}

module _ (n : Net) {h : Host n} (p : Cooperates h) (b : Behaves n) where
  client_read_message_eof :
      (s : n.Stream)
      → b.IsUp s
      → b.get_u32 (b.pending s) ≡ none
      → (s' : n.Stream) × (client_read_message n s
          ≡ (err (Error.client_read_error (NetUtilError.io_error unexpected_eof)), s'))
  unfolding client_read_message
  client_read_message_eof s up short =
      let (s', r, x) = Implements-eof n b n.server_codec s up short in (s', rw r refl)

  -- On a host that cooperates, a running client whose control connection works and ends before the
  -- length of a message leaves its loop with the read error for an unexpected end, whatever turns
  -- are given behind; its workers, its results and the sender to the user interface are then as
  -- before, so that no worker is joined and no result is collected, and the state is still
  -- running.
  pub lost_connection_drops_results :
      (turns : List (Turn n.Stream)) (old : State) (c : Controller n h)
      → c.role ≡ client
      → c.state ≡ State.running
      → b.IsUp c.control_socket
      → b.get_u32 (b.pending c.control_socket) ≡ none
      → (c' : Controller n h) × (run_from (hears control ∷ turns) old c
          ≡ (err (Error.client_read_error (NetUtilError.io_error unexpected_eof)), c'))
        × (c'.workers ≡ c.workers)
        × (c'.stream_results ≡ c.stream_results)
        × (c'.stats_sender ≡ c.stats_sender)
        × (c'.state ≡ State.running)
  unfolding run_from select
  lost_connection_drops_results turns old c role running up short =
      let (w, e) = pass_running h p client control old c role running in
      let (s, r) = client_read_message_eof c.control_socket up short in
      (
        record c { perf = record (c.perf) { control_socket = s }; world = w },
        rw (e, r, run_from, select) refl,
        refl,
        refl,
        refl,
        running,
      )
