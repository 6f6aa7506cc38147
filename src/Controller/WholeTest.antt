-- ===== src/Controller/WholeTest.antt =====
-- A whole test, from its start on both sides up to the results of both.
use iperf3_rust.Common.{
  ℕ, ◌+◌, ◌≡◌, sym, ap, subst, ◌∙◌, String, Bool, true, false, List, [], ◌∷◌, ◌++◌, length,
}
use iperf3_rust.Common.HashMap.{HashMap}
use iperf3_rust.Message.{
  Role, client, server, StreamStats, State, ClientMessage, ServerMessage, ClientEnvelope,
  ServerEnvelope,
}
use iperf3_rust.Error.{Error}
use iperf3_rust.Outcome.{Result, ok}
use iperf3_rust.Net.Interface.{Bytes, Net, Behaves}
use iperf3_rust.Net.Specification.{frame, Fits}
use iperf3_rust.Host.{Host}
use iperf3_rust.Controller.State.{Controller}
use iperf3_rust.Controller.Streams.{total_streams}
use iperf3_rust.Controller.Run.{Turn, control, run_from, run_controller}
use iperf3_rust.Controller.Registered.{HasRegistered}
use iperf3_rust.Controller.Cooperation.{Cooperates}
use iperf3_rust.Controller.Finishing.{collected}
use iperf3_rust.Controller.Turns.{hears, run_from-append}
use iperf3_rust.Controller.Draining.{terminations, Exhausts, drained}
use iperf3_rust.Controller.Completion.{Reports, running_test_completes}
use iperf3_rust.Controller.Reaching.{Reaches, CanConnect}
use iperf3_rust.Controller.Starting.{arrival, arrivals, server_test_starts}
use iperf3_rust.Controller.Following.{client_test_starts}

-- The turns of a server up to its last stream, and those of a client up to the start.
abbrev pub server_opening :
    {Stream : Type 0} → Turn Stream → List Stream → Stream → List (Turn Stream)
server_opening first streams last = first ∷ arrivals streams ++ arrival last ∷ []

abbrev pub client_opening : {Stream : Type 0} → List (Turn Stream)
client_opening = hears control ∷ hears control ∷ []

module _ {n : Net} {h : Host n} where
  -- The controller once the given turns are used up.
  abbrev pub after_turns : List (Turn n.Stream) → Controller n h → Controller n h
  after_turns turns c = (run_controller turns c).1

  -- What is known of the controller that is reached holds of this one, and more turns go on from it.
  run_controller-on :
      (P : Controller n h → Type 0) (turns more : List (Turn n.Stream)) (c c' : Controller n h)
      → run_controller turns c ≡ (ok false, c')
      → P c'
      → P (after_turns turns c)
        × ((old : State) × (run_controller (turns ++ more) c
              ≡ run_from more old (after_turns turns c)))
  unfolding run_controller
  run_controller-on P turns more c c' e holds =
      let same : c' ≡ after_turns turns c =
        sym (ap (λ (x : Result Error Bool × Controller n h). x.1) e) in
      (
        subst P same holds,
        run_from-append turns more c.state c (after_turns turns c)
            (λ i. ((e i).0, after_turns turns c)),
      )

  -- A side that runs, with its workers registered and the given bytes to read and written.
  record IsRunning (b : Behaves n) (role : Role) (streams : ℕ) (left sent : Bytes)
      (c : Controller n h) : Type 0 where
    at : c.state ≡ State.running
    registered : HasRegistered role streams c
    up : b.IsUp c.control_socket
    pending : b.pending c.control_socket ≡ left
    written : b.written c.control_socket ≡ sent

  module _ (b : Behaves n) (creating running : Bytes) (c : Controller n h) where
    open n use {server_codec}

    server_opens :
        (first : Turn n.Stream) (streams : List n.Stream) (last : n.Stream)
        (more : List (Turn n.Stream))
        → HasRegistered server 0 c
        → c.state ≡ State.start
        → length streams + 1 ≡ total_streams c.perf
        → b.IsUp c.control_socket
        → Fits server_codec
            (ServerEnvelope.message (ServerMessage.set_state (State.create_streams c.cookie)))
            creating
        → Fits server_codec (ServerEnvelope.message (ServerMessage.set_state State.running)) running
        → let turns = server_opening first streams last in
          IsRunning b server
            (total_streams c.perf)
            (b.pending c.control_socket)
            ((b.written c.control_socket ++ frame n creating) ++ frame n running)
            (after_turns turns c)
          × ((old : State) × (run_controller (turns ++ more) c
                ≡ run_from more old (after_turns turns c)))
    unfolding run_from
    server_opens first streams last more a at l up fc fr =
        let (c', r, running', a', up', left, sent) =
          server_test_starts b creating running first streams last [] c a at l up fc fr in
        run_controller-on (IsRunning b server (total_streams c.perf) _ _)
          (server_opening first streams last) more c c' r
          (record { at = running'; registered = a'; up = up'; pending = left; written = sent })

    client_opens :
        (cookie : String) (welcome rest : Bytes) (more : List (Turn n.Stream))
        (reaches : Reaches b h welcome)
        → HasRegistered client 0 c
        → c.state ≡ State.start
        → CanConnect b h welcome reaches c.perf
        → b.IsUp c.control_socket
        → Fits server_codec
            (ServerEnvelope.message (ServerMessage.set_state (State.create_streams cookie)))
            creating
        → Fits server_codec (ServerEnvelope.message (ServerMessage.set_state State.running)) running
        → b.pending c.control_socket ≡ frame n creating ++ (frame n running ++ rest)
        → IsRunning b client
            (total_streams c.perf)
            rest
            (b.written c.control_socket)
            (after_turns client_opening c)
          × ((old : State) × (run_controller (client_opening ++ more) c
                ≡ run_from more old (after_turns client_opening c)))
    unfolding run_from
    client_opens cookie welcome rest more reaches a at can up fc fr p =
        let (c', r, running', a', up', left, sent) =
          client_test_starts b cookie creating running welcome rest [] c reaches a at can up fc fr
            p in
        run_controller-on (IsRunning b client (total_streams c.perf) _ _) client_opening more c c' r
          (record { at = running'; registered = a'; up = up'; pending = left; written = sent })

module _ (n : Net) (b : Behaves n) {hc hs : Host n} (pc : Cooperates hc) (ps : Cooperates hs) where
  open n use {client_codec, server_codec}
  open b use {IsUp, pending, written}

  -- A client and a server at the start of a test, each with no stream yet, whose control
  -- connections work and whose messages fit, complete the test: if the client's system lets it
  -- connect, the server is handed as many streams as its test needs and is told that each of its
  -- workers has ended, each side has the other's messages pending in the order in which the other
  -- sends them, and the hosts cooperate, then both leave their loops with success after the given
  -- turns, the client has written its results and nothing else, the server the creation of
  -- streams, the start, the exchange and its results, in this order, and each user interface has
  -- the results of its own side and of the peer.
  pub whole_test_completes :
      (creating running announcement sent answer welcome rest rest' : Bytes) (id : ℕ) (ids : List ℕ)
      (first turn turn' : Turn n.Stream) (streams : List n.Stream) (last : n.Stream)
      (c : Controller n hc) (s : Controller n hs) (reaches : Reaches b hc welcome)
      (local remote : HashMap StreamStats)
      → HasRegistered client 0 c
      → HasRegistered server 0 s
      → c.state ≡ State.start
      → s.state ≡ State.start
      → CanConnect b hc welcome reaches c.perf
      → length streams + 1 ≡ total_streams s.perf
      → Exhausts (id ∷ ids) (after_turns (server_opening first streams last) s).workers
      → local
        ≡ collected hc pc
            (after_turns client_opening c).workers
            (after_turns client_opening c).stream_results
      → remote
        ≡ drained hs ps
            (id ∷ ids)
            (after_turns (server_opening first streams last) s).workers
            (after_turns (server_opening first streams last) s).stream_results
      → IsUp c.control_socket
      → IsUp s.control_socket
      → Fits server_codec
          (ServerEnvelope.message (ServerMessage.set_state (State.create_streams s.cookie)))
          creating
      → Fits server_codec (ServerEnvelope.message (ServerMessage.set_state State.running)) running
      → Fits server_codec
          (ServerEnvelope.message (ServerMessage.set_state State.exchange_results))
          announcement
      → Fits client_codec (ClientEnvelope.message (ClientMessage.send_results local)) sent
      → Fits server_codec (ServerEnvelope.message (ServerMessage.send_results remote)) answer
      → pending s.control_socket ≡ frame n sent ++ rest
      → pending c.control_socket
        ≡ frame n creating
          ++ (frame n running ++ (frame n announcement ++ (frame n answer ++ rest')))
      → (c' : Controller n hc) × (s' : Controller n hs) × (run_controller
            (client_opening ++ hears control ∷ turn ∷ [])
            c
          ≡ (ok true, c'))
        × (run_controller
              (server_opening first streams last ++ (terminations (id ∷ ids) ++ turn' ∷ []))
              s
            ≡ (ok true, s'))
        × (written c'.control_socket ≡ written c.control_socket ++ frame n sent)
        × (written s'.control_socket
            ≡ (((written s.control_socket ++ frame n creating) ++ frame n running)
                ++ frame n announcement)
              ++ frame n answer)
        × Reports n pc local remote c'.world
        × Reports n ps remote local s'.world
  whole_test_completes creating running announcement sent answer welcome rest rest' id ids first
        turn turn' streams last c s reaches local remote ac a' atc ats can l all el er upc ups fc fr
        fa fs fw ds dc =
      let (opened, (old', on')) =
        server_opens b creating running s first streams last (terminations (id ∷ ids) ++ turn' ∷ [])
          a' ats l ups fc fr in
      let (joined, (old, on)) =
        client_opens b creating running c s.cookie welcome
          (frame n announcement ++ (frame n answer ++ rest')) (hears control ∷ turn ∷ []) reaches ac
          atc can upc fc fr dc in
      let (tc, ec) = joined.registered.stats in
      let (ts, es) = opened.registered.stats in
      let (c', s', rc, rs, wc, ws, uc, us) =
        running_test_completes n b pc ps announcement sent answer rest rest' id ids tc ts turn turn'
          old old' _ _ local remote joined.registered.serves opened.registered.serves joined.at
          opened.at ec es all el er joined.up opened.up fa fs fw (opened.pending ∙ ds)
          joined.pending in
      (
        c',
        s',
        on ∙ rc,
        on' ∙ rs,
        wc ∙ ap (λ x. x ++ frame n sent) joined.written,
        ws ∙ ap (λ x. (x ++ frame n announcement) ++ frame n answer) opened.written,
        uc,
        us,
      )
