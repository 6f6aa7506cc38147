-- ===== src/Controller/Ending.antt =====
-- The end of the data streams, as the server's controller hears of it.
use iperf3_rust.Common.{ℕ, ◌≡◌, true, some, [], ◌∷◌, ◌&&◌}
use iperf3_rust.Common.HashMap.{HashMap, get, insert, remove}
use iperf3_rust.Message.{server, State, ServerMessage, ServerEnvelope, StreamStats}
use iperf3_rust.Outcome.{ok}
use iperf3_rust.Net.Interface.{Bytes, Net, Behaves}
use iperf3_rust.Net.Specification.{Sent, Fits}
use iperf3_rust.Host.{Host, completed}
use iperf3_rust.Controller.State.{Controller}
use iperf3_rust.Controller.Streams.{is_server}
use iperf3_rust.Controller.Run.{stream_terminated, join_worker, is_empty}
use iperf3_rust.Controller.Agreement.{set_state_announced}

module _ {n : Net} {h : Host n} where
  -- The controller that has joined worker `id` and kept its result.
  abbrev pub joined : ℕ → StreamStats → h.World → Controller n h → Controller n h
  joined id result w c = record c {
    workers = remove id c.workers;
    world = w;
    stream_results = insert id result c.stream_results;
  }

  module _ (id : ℕ) (handler : h.JoinHandle) (result : StreamStats) (w : h.World)
      (c : Controller n h) (found : get id c.workers ≡ some handler)
      (ended : h.join handler c.world ≡ (completed (ok result), w)) where
    join_worker_done : join_worker id (get id c.workers) c ≡ (ok tt, joined id result w c)
    join_worker_done = simp (found, ended)

    pub stream_terminated_joins :
        (next : ℕ × h.JoinHandle) (others : HashMap h.JoinHandle)
        → remove id c.workers ≡ next ∷ others
        → stream_terminated id c ≡ (ok tt, joined id result w c)
    unfolding stream_terminated
    stream_terminated_joins next others e = simp (join_worker_done, e, stream_terminated)

    pub stream_terminated_last :
        (b : Behaves n) (payload : Bytes)
        → c.role ≡ server
        → remove id c.workers ≡ []
        → b.IsUp c.control_socket
        → Fits n.server_codec
            (ServerEnvelope.message (ServerMessage.set_state State.exchange_results))
            payload
        → (s' : n.Stream) × (stream_terminated id c ≡ (
          ok tt,
          record (joined id result w c) {
            perf = record (c.perf) { state = State.exchange_results; control_socket = s' };
          },
        ))
          × Sent b payload c.control_socket s'
    unfolding stream_terminated
    stream_terminated_last b payload serves e up fits =
        let (s', q, sent) =
          set_state_announced n b State.exchange_results payload c.perf serves up fits in
        let t : (is_empty (remove id c.workers) && is_server c.role) ≡ true = simp (e, serves) in
        (s', simp (join_worker_done, stream_terminated) (rw (t, q)), sent)
