-- ===== src/Controller/Completion.antt =====
-- Both sides of a running test come to its end.
use iperf3_rust.Common.{ℕ, ◌≡◌, refl, sym, ap, ◌∙◌, true, some, List, [], ◌∷◌, ◌++◌}
use iperf3_rust.Common.HashMap.{HashMap, map_values, values}
use iperf3_rust.Message.{
  client, server, StreamStats, State, ClientMessage, ServerMessage, ClientEnvelope, ServerEnvelope,
}
use iperf3_rust.Outcome.{ok}
use iperf3_rust.Net.Interface.{Bytes, Net, Behaves}
use iperf3_rust.Net.Specification.{frame, Leaves, Fits}
use iperf3_rust.Host.{Host}
use iperf3_rust.Perf.{Perf}
use iperf3_rust.Controller.State.{Controller}
use iperf3_rust.Controller.Results.{exchange_as, mark_peer}
use iperf3_rust.Controller.Run.{Turn, control, run_from}
use iperf3_rust.Controller.Agreement.{control_follows, exchange_agrees}
use iperf3_rust.Controller.Cooperation.{Cooperates}
use iperf3_rust.Controller.Finishing.{collected, closed, pass_finishes}
use iperf3_rust.Controller.Turns.{hears, run_from-step}
use iperf3_rust.Controller.Draining.{terminations, Exhausts, drained, pass_running, run_drains}

module _ (n : Net) {h : Host n} (p : Cooperates h) where
  open p use {seen}

  -- The user interface has seen the results of this side, and then those of the other.
  abbrev pub Reports : HashMap StreamStats → HashMap StreamStats → h.World → Type 0
  Reports local remote w =
      (v : h.World) × (seen w ≡ seen v ++ (values local ++ values (map_values mark_peer remote)))

  -- The last pass, once its exchange of results is known to succeed.
  last_pass :
      (turn : Turn n.Stream) (old : State) (tx : h.Stats) (local remote : HashMap StreamStats)
      (s : n.Stream) (c : Controller n h)
      → c.state ≡ State.exchange_results
      → c.stats_sender ≡ some tx
      → collected h p c.workers c.stream_results ≡ local
      → exchange_as n c.role local c.control_socket ≡ (ok (map_values mark_peer remote), s)
      → (c' : Controller n h) × (run_from (turn ∷ []) old c ≡ (ok true, c'))
        × (c'.control_socket ≡ s)
        × Reports local remote c'.world
  unfolding run_from
  last_pass turn old tx local remote s c at e same r =
      let (w, v, q, saw) =
        pass_finishes h p turn old tx (map_values mark_peer remote) s c at e (rw same r) in
      (
        closed h p (collected h p c.workers c.stream_results) s w c,
        rw (q, run_from) refl,
        refl,
        (v, saw ∙ rw same refl),
      )

  -- An announcement that the client reads while the test runs.
  pub run_follows :
      (b : Behaves n) (state : State) (payload rest : Bytes) (turns : List (Turn n.Stream))
      (old : State) (c : Controller n h)
      → c.role ≡ client
      → c.state ≡ State.running
      → b.IsUp c.control_socket
      → Fits n.server_codec (ServerEnvelope.message (ServerMessage.set_state state)) payload
      → b.pending c.control_socket ≡ frame n payload ++ rest
      → (w : h.World) × (s : n.Stream) × (run_from (hears control ∷ turns) old c
          ≡ run_from turns State.running (record c {
            perf = record (c.perf) { state = state; control_socket = s };
            world = w;
          }))
        × Leaves b (some rest) c.control_socket s
  run_follows b state payload rest turns old c serves running up fits pending =
      let (w, e) = pass_running h p client control old c serves running in
      let (s, r, left) =
        control_follows n b state payload rest (record c { world = w }) serves up fits pending in
      (w, s, run_from-step (hears control) turns old State.running c _ (e ∙ rw r refl), left)

module _ (n : Net) (b : Behaves n) {hc hs : Host n} (pc : Cooperates hc) (ps : Cooperates hs) where
  open n use {client_codec, server_codec}
  open b use {IsUp, pending, written}

  -- Both sides of a test are running, on hosts that cooperate (somebody is subscribed to a signal,
  -- a worker ends with a result, the user interface takes reports); the control connections work,
  -- the announcement of the exchange and both messages of results fit, and each side's pending
  -- bytes begin with what the other sends. If the server hears of the end of each of its workers,
  -- at least one, once and in any order, and the client reads its control connection, then both
  -- loops are left with success, each side has written exactly its own messages, and the last that
  -- its user interface has seen is its own results and then those of the peer, marked as the
  -- peer's.
  pub running_test_completes :
      (announcement sent answer rest rest' : Bytes) (id : ℕ) (ids : List ℕ) (tc : hc.Stats)
      (ts : hs.Stats) (turn turn' : Turn n.Stream) (old old' : State) (c : Controller n hc)
      (s : Controller n hs) (local remote : HashMap StreamStats)
      → c.role ≡ client
      → s.role ≡ server
      → c.state ≡ State.running
      → s.state ≡ State.running
      → c.stats_sender ≡ some tc
      → s.stats_sender ≡ some ts
      → Exhausts (id ∷ ids) s.workers
      → local ≡ collected hc pc c.workers c.stream_results
      → remote ≡ drained hs ps (id ∷ ids) s.workers s.stream_results
      → IsUp c.control_socket
      → IsUp s.control_socket
      → Fits server_codec
          (ServerEnvelope.message (ServerMessage.set_state State.exchange_results))
          announcement
      → Fits client_codec (ClientEnvelope.message (ClientMessage.send_results local)) sent
      → Fits server_codec (ServerEnvelope.message (ServerMessage.send_results remote)) answer
      → pending s.control_socket ≡ frame n sent ++ rest
      → pending c.control_socket ≡ frame n announcement ++ (frame n answer ++ rest')
      → (c' : Controller n hc) × (s' : Controller n hs) × (run_from
            (hears control ∷ turn ∷ [])
            old
            c
          ≡ (ok true, c'))
        × (run_from (terminations (id ∷ ids) ++ turn' ∷ []) old' s ≡ (ok true, s'))
        × (written c'.control_socket ≡ written c.control_socket ++ frame n sent)
        × (written s'.control_socket
            ≡ (written s.control_socket ++ frame n announcement) ++ frame n answer)
        × Reports n pc local remote c'.world
        × Reports n ps remote local s'.world
  unfolding exchange_as collected
  running_test_completes announcement sent answer rest rest' id ids tc ts turn turn' old old' c s
        local remote rc rs runc runs ec es all el er upc ups fa fc fs ds dc =
      let (w, c1, q1, l1) =
        run_follows n pc b State.exchange_results announcement (frame n answer ++ rest') (turn ∷ [])
          old c rc runc upc fa dc in
      let (s2, s1, q2, perf, l2, none_left, results) =
        run_drains hs ps b announcement id ids (turn' ∷ []) old' s rs runs all ups fa in
      let (c3, s3, xc, xs, wc, ws) =
        exchange_agrees n b local remote sent answer rest rest' c1 s1 l1.0 l2.0 fc fs (l2.1 ∙ ds)
          l1.1 in
      let there : collected hs ps s2.workers s2.stream_results ≡ remote =
        ap (λ x. collected hs ps x s2.stream_results) none_left ∙ results ∙ sym er in
      let exchanged : exchange_as n s2.role remote s2.control_socket
          ≡ (ok (map_values mark_peer local), s3) =
        ap (λ (x : Perf n hs.Stats). exchange_as n x.role remote x.control_socket) perf
        ∙ ap (λ x. exchange_as n x remote s1) rs
        ∙ xs in
      let (c', rc', sc', uc) =
        last_pass n pc turn State.running tc local remote c3 _ refl ec (sym el)
          (ap (λ x. exchange_as n x local c1) rc ∙ xc) in
      let (s', rs', ss', us) =
        last_pass n ps turn' State.running ts remote local s3 s2
          (ap (λ (x : Perf n hs.Stats). x.state) perf)
          (ap (λ (x : Perf n hs.Stats). x.stats_sender) perf ∙ es) there exchanged in
      (
        c',
        s',
        q1 ∙ rc',
        q2 ∙ rs',
        ap written sc' ∙ wc ∙ ap (λ x. x ++ frame n sent) l1.2,
        ap written ss' ∙ ws ∙ ap (λ x. x ++ frame n answer) l2.2,
        uc,
        us,
      )
