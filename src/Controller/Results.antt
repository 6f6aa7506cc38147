-- ===== src/Controller/Results.antt =====
-- The results of a test: `collect_stream_results`, `exchange_results`, and handing them to the
-- user interface.
use iperf3_rust.Common.{ℕ, Bool, true, false, Option, none, some, List, [], ◌∷◌}
use iperf3_rust.Common.HashMap.{HashMap, insert, map_values}
use iperf3_rust.Message.{Role, client, server, ClientMessage, ServerMessage, StreamStats}
use iperf3_rust.Error.{
  Error, unexpected_server_message, unexpected_client_message, send_stream_stats_error,
}
use iperf3_rust.Outcome.{Result, ok, err, Action, continue_with, ◌>>=◌, ◌>>◌, pure, throw}
use iperf3_rust.Net.Interface.{Net}
use iperf3_rust.Net.Messages.{
  client_write_message, client_read_message, server_write_message, server_read_message,
}
use iperf3_rust.Host.{Host, TimedJoin, in_time, completed}
use iperf3_rust.Perf.{on_control_socket}
use iperf3_rust.Controller.State.{Controller, on_perf}

-- The `match` on one task's end: only a result that came in time is kept.
abbrev pub keep_result : ℕ → TimedJoin → HashMap StreamStats → HashMap StreamStats
keep_result id (in_time (completed (ok result))) results = insert id result results
keep_result id _ results = results

abbrev pub mark_peer : StreamStats → StreamStats
mark_peer stats = record stats { is_peer = true }

-- `ServerMessage::SendResults` or an error, and so for the client's message.
abbrev pub server_results : {S : Type 0} → ServerMessage → Action Error S (HashMap StreamStats)
server_results (ServerMessage.send_results results) = pure (map_values mark_peer results)
server_results m = throw (unexpected_server_message m)

abbrev pub client_results : {S : Type 0} → ClientMessage → Action Error S (HashMap StreamStats)
client_results (ClientMessage.send_results results) = pure (map_values mark_peer results)
client_results m = throw (unexpected_client_message m)

-- The two orders of `exchange_results`, on the control socket.
module _ (n : Net) where
  unfoldable pub client_exchange : HashMap StreamStats → Action Error n.Stream (HashMap StreamStats)
  client_exchange results = do
    client_write_message n (ClientMessage.send_results results)
    answer ← client_read_message n
    server_results answer

  unfoldable pub server_exchange : HashMap StreamStats → Action Error n.Stream (HashMap StreamStats)
  server_exchange results = do
    message ← server_read_message n
    remote_result ← client_results message
    server_write_message n (ServerMessage.send_results results)
    pure remote_result

  unfoldable pub exchange_as :
      Role → HashMap StreamStats → Action Error n.Stream (HashMap StreamStats)
  unfolding client_exchange server_exchange
  exchange_as client results = client_exchange results
  exchange_as server results = server_exchange results

-- `?` on the result of sending to the user interface.
abbrev sent : {W : Type 0} → StreamStats → Bool × W → Result Error (Unit {0}) × W
sent stats (true, w) = (ok tt, w)
sent stats (false, w) = (err (send_stream_stats_error stats), w)

module _ {n : Net} (h : Host n) where
  -- `workers.drain()` with a wait for each.
  unfoldable pub collect_from :
      HashMap h.JoinHandle → HashMap StreamStats → h.World → HashMap StreamStats × h.World
  collect_from [] results w = (results, w)
  collect_from ((id, handler) ∷ handlers) results w =
      let (outcome, w') = h.join_timeout handler w in
      collect_from handlers (keep_result id outcome results) w'

  -- `for (_, stats) in results { sender.send(stats).await?; }`
  unfoldable pub send_all : HashMap StreamStats → h.Stats → Action Error h.World (Unit {0})
  send_all [] sender w = (ok tt, w)
  send_all ((id, stats) ∷ results) sender w =
      continue_with (sent stats (h.send_stats stats sender w)) λ _ w'. send_all results sender w'

  -- `if let Some(sender) = self.perf.stats_sender.take()`, with the loops of its body in turn.
  unfoldable pub deliver :
      List (HashMap StreamStats) → Option h.Stats → Action Error h.World (Unit {0})
  unfolding send_all
  deliver batches none w = (ok tt, w)
  deliver [] (some sender) w = (ok tt, w)
  deliver (results ∷ batches) (some sender) w =
      continue_with (send_all results sender w) λ _ w'. deliver batches (some sender) w'

module _ {n : Net} {h : Host n} where
  unfoldable pub collect_stream_results : Action Error (Controller n h) (HashMap StreamStats)
  unfolding collect_from
  collect_stream_results c =
      let (results, w) = collect_from h c.workers c.stream_results c.world in
      (ok results, record c { workers = []; stream_results = results; world = w })

  unfoldable pub exchange_results : Action Error (Controller n h) (HashMap StreamStats)
  unfolding exchange_as
  exchange_results c = on_perf (on_control_socket (exchange_as n c.role c.stream_results)) c

  unfoldable pub report : List (HashMap StreamStats) → Action Error (Controller n h) (Unit {0})
  unfolding deliver
  report batches c =
      let (r, w) = deliver h batches c.stats_sender c.world in
      (r, record c { perf = record (c.perf) { stats_sender = none }; world = w })
