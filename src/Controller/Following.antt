-- ===== src/Controller/Following.antt =====
-- The client's side of a test from its start on: it follows the announcements of the server.
use iperf3_rust.Common.{String, ◌≡◌, refl, sym, ap, subst, ◌∙◌, some, List, ◌∷◌, ◌++◌}
use iperf3_rust.Message.{client, State, ServerMessage, ServerEnvelope}
use iperf3_rust.Outcome.{ok, continue_with}
use iperf3_rust.Net.Interface.{Bytes, Net, Behaves}
use iperf3_rust.Net.Specification.{frame, Leaves, Fits}
use iperf3_rust.Host.{Host}
use iperf3_rust.Perf.{Perf}
use iperf3_rust.Controller.State.{Controller}
use iperf3_rust.Controller.Streams.{total_streams, create_streams}
use iperf3_rust.Controller.Run.{
  Turn, control, enter, pass, pass_at, after_arm, select, run_from, run_controller,
}
use iperf3_rust.Controller.Registered.{HasRegistered}
use iperf3_rust.Controller.Agreement.{control_follows}
use iperf3_rust.Controller.Connecting.{create_streams_complete}
use iperf3_rust.Controller.Reaching.{Reaches, CanConnect, create_streams_succeeds}
use iperf3_rust.Controller.Turns.{hears, run_from-step}
use iperf3_rust.Controller.Starting.{in_state}

module _ {n : Net} {h : Host n} (b : Behaves n) where
  open n use {server_codec}
  open b use {IsUp, pending, written}

  pass_waiting :
      (state old : State) (payload rest : Bytes) (c : Controller n h)
      → c.role ≡ client
      → c.state ≡ State.start
      → IsUp c.control_socket
      → Fits server_codec (ServerEnvelope.message (ServerMessage.set_state state)) payload
      → pending c.control_socket ≡ frame n payload ++ rest
      → (s : n.Stream) × (pass (hears control) old c ≡ (ok (some State.start), in_state state s c))
        × Leaves b (some rest) c.control_socket s
  unfolding pass pass_at after_arm enter
  pass_waiting state old payload rest c role at up fits p =
      let (s, r, left) = control_follows n b state payload rest c role up fits p in
      (
        s,
        ap (λ x. pass_at c.role x (hears control) old c) at
            ∙ ap (λ x. pass_at x State.start (hears control) old c) role
            ∙ ap (λ x. continue_with (select x control c) λ _ c'. (ok (some State.start), c')) role
            ∙ rw r refl,
        left,
      )

  -- The streams are connected before the next announcement is read.
  pass_connecting :
      (cookie : String) (state old : State) (payload rest : Bytes) (c : Controller n h)
      → HasRegistered client 0 c
      → c.state ≡ State.create_streams cookie
      → (create_streams c).0 ≡ ok tt
      → IsUp c.control_socket
      → Fits server_codec (ServerEnvelope.message (ServerMessage.set_state state)) payload
      → pending c.control_socket ≡ frame n payload ++ rest
      → (s : n.Stream) × (pass (hears control) old c
          ≡ (ok (some (State.create_streams cookie)), in_state state s (create_streams c).1))
        × Leaves b (some rest) c.control_socket s
        × HasRegistered client (total_streams c.perf) (create_streams c).1
        × ((create_streams c).1.perf ≡ c.perf)
  unfolding pass pass_at after_arm enter
  pass_connecting cookie state old payload rest c a at done up fits p =
      let c1 = (create_streams c).1 in
      let (a1, same, again) = create_streams_complete c a done in
      let socket : c1.control_socket ≡ c.control_socket =
        ap (λ (x : Perf n h.Stats). x.control_socket) same in
      let (s, r, left) =
        control_follows n b state payload rest c1 a1.serves (subst IsUp (sym socket) up) fits
          (ap pending socket ∙ p) in
      let created : create_streams c ≡ (ok tt, c1) = λ i. (done i, c1) in
      (
        s,
        ap (λ x. pass_at c.role x (hears control) old c) at
            ∙ ap (λ x. pass_at x (State.create_streams cookie) (hears control) old c) a.serves
            ∙ rw created (
                ap
                  (λ x.
                    continue_with (select x control c1)
                      λ _ c'. (ok (some (State.create_streams cookie)), c'))
                  a1.serves
                ∙ rw r refl),
        subst (λ x. Leaves b (some rest) x s) socket left,
        a1,
        same,
      )

  -- A client at the start of a test, with no stream yet, on a system on which sockets are made and
  -- bound and each connection leads to a server that greets, whose addresses are addresses and
  -- whose hello fits, and whose control connection works and has the announcements of the creation
  -- of streams and of the start at the head of what is pending, goes on after two turns that read
  -- it, in the running state, with one worker for each stream, numbered from 0; it has read
  -- exactly the announcements and written nothing to the control connection.
  pub client_test_starts :
      (cookie : String) (creating running welcome rest : Bytes) (turns : List (Turn n.Stream))
      (c : Controller n h) (reaches : Reaches b h welcome)
      → HasRegistered client 0 c
      → c.state ≡ State.start
      → CanConnect b h welcome reaches c.perf
      → IsUp c.control_socket
      → Fits server_codec
          (ServerEnvelope.message (ServerMessage.set_state (State.create_streams cookie)))
          creating
      → Fits server_codec (ServerEnvelope.message (ServerMessage.set_state State.running)) running
      → pending c.control_socket ≡ frame n creating ++ (frame n running ++ rest)
      → (c' : Controller n h) × (run_controller (hears control ∷ hears control ∷ turns) c
          ≡ run_from turns (State.create_streams cookie) c')
        × (c'.state ≡ State.running)
        × HasRegistered client (total_streams c.perf) c'
        × IsUp c'.control_socket
        × (pending c'.control_socket ≡ rest)
        × (written c'.control_socket ≡ written c.control_socket)
  unfolding run_controller
  client_test_starts cookie creating running welcome rest turns c reaches a at can up fc fr p =
      let (s, r, left) =
        pass_waiting (State.create_streams cookie) c.state creating (frame n running ++ rest) c
          a.serves at up fc p in
      let c1 = in_state (State.create_streams cookie) s c in
      let a1 : HasRegistered client 0 c1 = record {
        serves = a.serves;
        next = a.next;
        keys = a.keys;
        count = a.count;
        stats = a.stats;
      } in
      let can1 : CanConnect b h welcome reaches c1.perf = record {
        address = can.address;
        hello = can.hello;
        remote_addr = can.remote_addr;
        to_server = can.to_server;
        parses = can.parses;
        binds = can.binds;
        hello_fits = can.hello_fits;
        welcome_fits = can.welcome_fits;
      } in
      let (c2, created, kept, all) = create_streams_succeeds b h welcome reaches c1 a1 can1 in
      let (s', r', left', a', same) =
        pass_connecting cookie State.running State.start running rest c1 a1 refl
          (ap (λ x. x.0) created) left.0 fr left.1 in
      let c' = in_state State.running s' (create_streams c1).1 in
      (
        c',
        run_from-step (hears control) (hears control ∷ turns) c.state State.start c c1 r
            ∙ run_from-step (hears control) turns State.start (State.create_streams cookie) c1 c'
                r',
        refl,
        record {
          serves = a'.serves;
          next = a'.next;
          keys = a'.keys;
          count = a'.count;
          stats = a'.stats;
        },
        left'.0,
        left'.1,
        left'.2 ∙ left.2,
      )
