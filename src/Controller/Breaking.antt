-- ===== src/Controller/Breaking.antt =====
-- A running test that the server breaks off, and that the client then leaves too.
use iperf3_rust.Common.{◌≡◌, refl, ◌∙◌, Bool, true, false, some, [], ◌∷◌, ◌++◌}
use iperf3_rust.Common.HashMap.{values}
use iperf3_rust.Message.{client, server, State, ServerMessage, ServerEnvelope}
use iperf3_rust.Outcome.{ok}
use iperf3_rust.Net.Interface.{Bytes, Net, Behaves}
use iperf3_rust.Net.Specification.{frame, Sent, Fits}
use iperf3_rust.Host.{Host, ControllerMessage}
use iperf3_rust.Controller.State.{Controller}
use iperf3_rust.Controller.Run.{
  Turn, Wake, internal, control, shutdown, select, process_internal_message, run_from,
}
use iperf3_rust.Controller.Agreement.{set_state_announced}
use iperf3_rust.Controller.Cooperation.{Cooperates}
use iperf3_rust.Controller.Finishing.{collected, run_aborts}
use iperf3_rust.Controller.Turns.{hears, run_from-step}
use iperf3_rust.Controller.Draining.{pass_running}
use iperf3_rust.Controller.Completion.{run_follows}

-- What breaks a test off: the signal to shut down, or the message `Terminate`.
abbrev pub breaks : {Stream : Type 0} → (by_signal : Bool) → Wake Stream
breaks true = shutdown
breaks false = internal (some ControllerMessage.terminate)

module _ (n : Net) {h : Host n} (p : Cooperates h) (b : Behaves n) where
  -- The last that the user interface has seen is what the workers of this side had.
  abbrev pub Reported : Controller n h → h.World → Type 0
  Reported c w =
      (v : h.World) × (p.seen w ≡ p.seen v ++ values (collected h p c.workers c.stream_results))

  select-breaks :
      (by_signal : Bool) (payload : Bytes) (c : Controller n h)
      → c.role ≡ server
      → b.IsUp c.control_socket
      → Fits n.server_codec
          (ServerEnvelope.message (ServerMessage.set_state State.terminate))
          payload
      → (s : n.Stream) × (select server (breaks by_signal) c ≡ (
        ok tt,
        record c { perf = record (c.perf) { state = State.terminate; control_socket = s } },
      ))
        × Sent b payload c.control_socket s
  unfolding select process_internal_message
  select-breaks true payload c serves up fits =
      let (s, r, sent) = set_state_announced n b State.terminate payload c.perf serves up fits in
      (s, rw r refl, sent)
  select-breaks false payload c serves up fits =
      let (s, r, sent) = set_state_announced n b State.terminate payload c.perf serves up fits in
      (s, rw r refl, sent)

  -- The server's side.
  pub run_breaks :
      (by_signal : Bool) (payload : Bytes) (turn : Turn n.Stream) (old : State) (tx : h.Stats)
      (c : Controller n h)
      → c.role ≡ server
      → c.state ≡ State.running
      → c.stats_sender ≡ some tx
      → b.IsUp c.control_socket
      → Fits n.server_codec
          (ServerEnvelope.message (ServerMessage.set_state State.terminate))
          payload
      → (c' : Controller n h) × (run_from (hears (breaks by_signal) ∷ turn ∷ []) old c
          ≡ (ok true, c'))
        × (b.written c'.control_socket ≡ b.written c.control_socket ++ frame n payload)
        × Reported c c'.world
  run_breaks by_signal payload turn old tx c serves running e up fits =
      let (w, q) = pass_running h p server (breaks by_signal) old c serves running in
      let (s, r, sent) = select-breaks by_signal payload (record c { world = w }) serves up fits in
      let (w', v, done, saw) =
        run_aborts h p turn [] State.running tx
          (record c {
            perf = record (c.perf) { state = State.terminate; control_socket = s };
            world = w;
          })
          refl e in
      (
        _,
        run_from-step (hears (breaks by_signal)) (turn ∷ []) old State.running c _ (q ∙ rw r refl)
            ∙ done,
        sent.2,
        (v, saw),
      )

module _ (n : Net) (b : Behaves n) {hc hs : Host n} (pc : Cooperates hc) (ps : Cooperates hs) where
  -- Both sides of a test are running, on hosts that cooperate, the control connections work, the
  -- announcement of the termination fits, and the client has it at the head of what is pending. If
  -- the server gets the signal to shut down or the message Terminate, and the client reads its
  -- control connection, then both loops are left with success in the pass behind that, the server
  -- has written exactly the announcement, the client has read exactly that and written nothing,
  -- and the last that each user interface has seen is the results of its own side.
  pub broken_test_ends :
      (by_signal : Bool) (announcement rest : Bytes) (tc : hc.Stats) (ts : hs.Stats)
      (turn turn' : Turn n.Stream) (old old' : State) (c : Controller n hc) (s : Controller n hs)
      → c.role ≡ client
      → s.role ≡ server
      → c.state ≡ State.running
      → s.state ≡ State.running
      → c.stats_sender ≡ some tc
      → s.stats_sender ≡ some ts
      → b.IsUp c.control_socket
      → b.IsUp s.control_socket
      → Fits n.server_codec
          (ServerEnvelope.message (ServerMessage.set_state State.terminate))
          announcement
      → b.pending c.control_socket ≡ frame n announcement ++ rest
      → (c' : Controller n hc) × (s' : Controller n hs) × (run_from
            (hears (breaks by_signal) ∷ turn' ∷ [])
            old'
            s
          ≡ (ok true, s'))
        × (run_from (hears control ∷ turn ∷ []) old c ≡ (ok true, c'))
        × (b.written s'.control_socket ≡ b.written s.control_socket ++ frame n announcement)
        × (b.written c'.control_socket ≡ b.written c.control_socket)
        × (b.pending c'.control_socket ≡ rest)
        × Reported n pc b c c'.world
        × Reported n ps b s s'.world
  broken_test_ends by_signal announcement rest tc ts turn turn' old old' c s rc rs runc runs ec es
        upc ups fits pending =
      let (s', q, sent, us) =
        run_breaks n ps b by_signal announcement turn' old' ts s rs runs es ups fits in
      let (w, socket, follows, left) =
        run_follows n pc b State.terminate announcement rest (turn ∷ []) old c rc runc upc fits
          pending in
      let (w', v, done, saw) =
        run_aborts hc pc turn [] State.running tc
          (record c {
            perf = record (c.perf) { state = State.terminate; control_socket = socket };
            world = w;
          })
          refl ec in
      (_, s', q, follows ∙ done, sent, left.2, left.1, (v, saw), us)
