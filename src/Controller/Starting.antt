-- ===== src/Controller/Starting.antt =====
-- A test from its start on, up to the running state of both sides.
use iperf3_rust.Common.{
  ℕ, suc, ◌+◌, ◌^◌, ◌<◌, String, ◌≡◌, refl, sym, ap, subst, ◌∙◌, some, List, [], ◌∷◌, ◌++◌, length,
  arith,
}
use iperf3_rust.Message.{server, State, ServerMessage, ServerEnvelope}
use iperf3_rust.Outcome.{ok, continue_with}
use iperf3_rust.Net.Interface.{Bytes, Net, Behaves}
use iperf3_rust.Net.Specification.{frame, Sent, Fits}
use iperf3_rust.Host.{Host, ControllerMessage}
use iperf3_rust.Perf.{Perf}
use iperf3_rust.Controller.State.{Controller}
use iperf3_rust.Controller.Streams.{total_streams}
use iperf3_rust.Controller.Run.{
  Turn, Wake, internal, enter, pass, pass_at, after_arm, select, process_internal_message, run_from,
  run_controller,
}
use iperf3_rust.Controller.Registered.{HasRegistered}
use iperf3_rust.Controller.Accepting.{accept_next, accept_last}
use iperf3_rust.Controller.Agreement.{set_state_announced}
use iperf3_rust.Controller.Turns.{hears, run_from-step}

abbrev pub arrival : {Stream : Type 0} → Stream → Turn Stream
arrival stream = hears (internal (some (ControllerMessage.create_stream stream)))

abbrev pub arrivals : {Stream : Type 0} → List Stream → List (Turn Stream)
arrivals [] = []
arrivals (stream ∷ streams) = arrival stream ∷ arrivals streams

module _ {n : Net} {h : Host n} where
  abbrev pub in_state : State → n.Stream → Controller n h → Controller n h
  in_state state s c = record c { perf = record (c.perf) { state = state; control_socket = s } }

  -- A server that waits for streams only listens.
  pass_creating :
      (cookie : String) (wake : Wake n.Stream) (old : State) (c : Controller n h)
      → c.role ≡ server
      → c.state ≡ State.create_streams cookie
      → pass (hears wake) old c
        ≡ continue_with (select server wake c) λ _ c'. (ok (some (State.create_streams cookie)), c')
  unfolding pass pass_at after_arm enter
  pass_creating cookie wake old c serves at =
      ap (λ x. pass_at c.role x (hears wake) old c) at
      ∙ ap (λ x. pass_at x (State.create_streams cookie) (hears wake) old c) serves
      ∙ ap
          (λ x.
            continue_with (select x wake c) λ _ c'. (ok (some (State.create_streams cookie)), c'))
          serves

  module _ (b : Behaves n) where
    open n use {server_codec}
    open b use {IsUp, pending, written}

    pass_starts :
        (payload : Bytes) (turn : Turn n.Stream) (old : State) (c : Controller n h)
        → c.role ≡ server
        → c.state ≡ State.start
        → IsUp c.control_socket
        → Fits server_codec
            (ServerEnvelope.message (ServerMessage.set_state (State.create_streams c.cookie)))
            payload
        → (s : n.Stream) × (pass turn old c
            ≡ (ok (some old), in_state (State.create_streams c.cookie) s c))
          × Sent b payload c.control_socket s
    unfolding pass pass_at after_arm enter
    pass_starts payload turn old c serves at up fits =
        let (s, r, sent) =
          set_state_announced n b (State.create_streams c.cookie) payload c.perf serves up fits in
        (
          s,
          ap (λ x. pass_at c.role x turn old c) at
              ∙ ap (λ x. pass_at x State.start turn old c) serves
              ∙ rw (r, after_arm) refl,
          sent,
        )

    -- The streams arrive one after the other, and the last one sets the test running.
    run_accepts :
        (payload : Bytes) (cookie : String) (streams : List n.Stream) (last : n.Stream)
        (turns : List (Turn n.Stream)) (k : ℕ) (old : State) (c : Controller n h)
        → HasRegistered server k c
        → c.state ≡ State.create_streams cookie
        → suc (k + length streams) ≡ total_streams c.perf
        → IsUp c.control_socket
        → Fits server_codec (ServerEnvelope.message (ServerMessage.set_state State.running)) payload
        → (c' : Controller n h) × (run_from (arrivals streams ++ arrival last ∷ turns) old c
            ≡ run_from turns (State.create_streams cookie) c')
          × (c'.state ≡ State.running)
          × Sent b payload c.control_socket c'.control_socket
          × HasRegistered server (total_streams c.perf) c'
    unfolding select process_internal_message
    run_accepts payload cookie [] last turns k old c a at l up fits =
        let bound : total_streams c.perf < 2 ^ 16 = omega arith in
        let (c', r, running, sent, a') =
          accept_last b payload k last c a (omega arith) (omega arith) up fits in
        let all : suc k ≡ total_streams c.perf = omega arith in
        (
          c',
          run_from-step (arrival last) turns old (State.create_streams cookie) c c'
              (pass_creating cookie _ old c a.serves at ∙ rw r refl),
          running,
          sent,
          rw all at a',
        )
    run_accepts payload cookie (stream ∷ streams) last turns k old c a at l up fits =
        let bound : total_streams c.perf < 2 ^ 16 = omega arith in
        let (c1, r, same, a1) = accept_next k stream c a (omega arith) (λ e. omega arith) in
        let more : suc (suc k + length streams) ≡ total_streams c1.perf =
          subst (λ (p : Perf n h.Stats). suc (suc k + length streams) ≡ total_streams p) (sym same)
            (omega arith) in
        let up1 : IsUp c1.control_socket =
          subst (λ (p : Perf n h.Stats). IsUp p.control_socket) (sym same) up in
        let (c', r', running, sent, a') =
          run_accepts payload cookie streams last turns (suc k) (State.create_streams cookie) c1 a1
            (ap (λ (p : Perf n h.Stats). p.state) same ∙ at) more up1 fits in
        (
          c',
          run_from-step (arrival stream) (arrivals streams ++ arrival last ∷ turns) old
                (State.create_streams cookie) c c1
                (pass_creating cookie _ old c a.serves at ∙ rw r refl)
              ∙ r',
          running,
          subst (λ (p : Perf n h.Stats). Sent b payload p.control_socket c'.control_socket) same
              sent,
          subst (λ (p : Perf n h.Stats). HasRegistered server (total_streams p) c') same a',
        )

    -- A server at the start of a test, with no stream yet, whose control connection works and
    -- whose two announcements fit, that is handed as many streams as its test needs, goes on to
    -- the turns behind them in the running state, with one worker for each stream, numbered from
    -- 0; it has announced the creation of streams and the start, in this order, and has read
    -- nothing.
    pub server_test_starts :
        (creating running : Bytes) (turn : Turn n.Stream) (streams : List n.Stream)
        (last : n.Stream) (turns : List (Turn n.Stream)) (c : Controller n h)
        → HasRegistered server 0 c
        → c.state ≡ State.start
        → length streams + 1 ≡ total_streams c.perf
        → IsUp c.control_socket
        → Fits server_codec
            (ServerEnvelope.message (ServerMessage.set_state (State.create_streams c.cookie)))
            creating
        → Fits server_codec (ServerEnvelope.message (ServerMessage.set_state State.running)) running
        → (c' : Controller n h) × (run_controller
              (turn ∷ arrivals streams ++ arrival last ∷ turns)
              c
            ≡ run_from turns (State.create_streams c.cookie) c')
          × (c'.state ≡ State.running)
          × HasRegistered server (total_streams c.perf) c'
          × IsUp c'.control_socket
          × (pending c'.control_socket ≡ pending c.control_socket)
          × (written c'.control_socket
              ≡ (written c.control_socket ++ frame n creating) ++ frame n running)
    unfolding run_controller
    server_test_starts creating running turn streams last turns c a at l up fc fr =
        let (s, r, sent) = pass_starts creating turn c.state c a.serves at up fc in
        let c1 = in_state (State.create_streams c.cookie) s c in
        let a1 : HasRegistered server 0 c1 = record {
          serves = a.serves;
          next = a.next;
          keys = a.keys;
          count = a.count;
          stats = a.stats;
        } in
        let (c', r', at', sent', a') =
          run_accepts running c.cookie streams last turns 0 c.state c1 a1 refl (omega arith) sent.0
            fr in
        (
          c',
          run_from-step turn (arrivals streams ++ arrival last ∷ turns) c.state c.state c c1 r ∙ r',
          at',
          a',
          sent'.0,
          sent'.1 ∙ sent.1,
          sent'.2 ∙ ap (λ x. x ++ frame n running) sent.2,
        )
