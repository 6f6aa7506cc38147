-- ===== src/Controller/Interrupted.antt =====
-- A client whose read of its control connection is dropped when another branch of `select!` is ready.
use iperf3_rust.Common.{
  ℕ, ◌<◌, ◌≡◌, refl, ap, ◌∙◌, some, inl, inr, Option-cases, if◌then◌else◌, ◌&&◌, Bool, true, false,
  List, ◌∷◌, ◌++◌, append_assoc, length, lt→ltb, arith,
}
use iperf3_rust.Common.HashMap.{HashMap, get, insert, remove}
use iperf3_rust.Constant.{max_control_message_size}
use iperf3_rust.Message.{Role, client, server, StreamStats, State, ServerMessage, ServerEnvelope}
use iperf3_rust.Error.{Error, control_message_too_large, Io, done}
use iperf3_rust.Outcome.{ok, err, continue_with}
use iperf3_rust.Net.Interface.{Bytes, Net, Behaves}
use iperf3_rust.Net.Specification.{frame, Fits}
use iperf3_rust.Net.Frame.{in_payload, dropped_body, dropped_read}
use iperf3_rust.Net.RoundTrip.{read_large}
use iperf3_rust.Net.Messages.{client_read_message}
use iperf3_rust.Net.Delivery.{client_read_message_done}
use iperf3_rust.Host.{Host, ControllerMessage}
use iperf3_rust.Controller.State.{Controller}
use iperf3_rust.Controller.Streams.{is_server}
use iperf3_rust.Controller.Run.{
  pass, Turn, interrupting, control, select, process_internal_message, stream_terminated, is_empty,
  run_from,
}
use iperf3_rust.Controller.Cooperation.{Cooperates}
use iperf3_rust.Controller.Turns.{hears, run_from-step}
use iperf3_rust.Controller.Draining.{pass_running}

client_stays :
    {A : Type 0} (empty : Bool) (role : Role) (a b : A)
    → role ≡ client
    → (if empty && is_server role then a else b) ≡ b
client_stays true client a b e = refl
client_stays true server a b e = cc
client_stays false role a b e = refl

module _ (n : Net) {h : Host n} (p : Cooperates h) (b : Behaves n) where
  -- A client that hears of the end of a worker goes on, with the same test.
  client_hears_end :
      (id : ℕ) (c : Controller n h)
      → c.role ≡ client
      → (workers : HashMap h.JoinHandle) × (results : HashMap StreamStats) × (w : h.World)
        × (stream_terminated id c
            ≡ (ok tt, record c { workers = workers; stream_results = results; world = w }))
  unfolding stream_terminated
  client_hears_end id c role = elim (Option-cases (get id c.workers)) [
    | inl e ↦ (
      c.workers,
      c.stream_results,
      c.world,
      rw (e, stream_terminated) (client_stays (is_empty c.workers) c.role _ _ role),
    )
    | inr (handler, e) ↦ (
      remove id c.workers,
      insert id (p.result handler) c.stream_results,
      (h.join handler c.world).1,
      rw (e, p.join_ends handler c.world, stream_terminated)
          (client_stays (is_empty (remove id c.workers)) c.role _ _ role),
    )
  ]

  client_read_message_large :
      (s : n.Stream) (size : ℕ) (rest : Bytes)
      → b.IsUp s
      → b.get_u32 (b.pending s) ≡ some (size, rest)
      → max_control_message_size < size
      → (s' : n.Stream) × (client_read_message n s
          ≡ (err (Error.client_read_error (control_message_too_large size)), s'))
        × (b.written s' ≡ b.written s)
  unfolding client_read_message
  client_read_message_large s size rest up e large =
      let (s', r, up', left, written) = b.read_u32_done s size rest up e in
      (s', rw (read_large n b n.server_codec s s' size r (lt→ltb _ _ large)) refl, written)

  length_taken :
      (s s' : n.Stream) (size : ℕ)
      → n.read_u32 s ≡ (done size, s')
      → dropped_read n (in_payload 0) s ≡ s'
  unfolding dropped_read dropped_body
  length_taken s s' size e = rw (e, dropped_read) (ap (λ (x : Io ℕ × n.Stream). x.1) e)

  -- The interrupting end of a worker: the length of what is pending is taken and lost.
  pass_interrupted :
      (id size : ℕ) (rest : Bytes) (old : State) (c : Controller n h)
      → c.role ≡ client
      → c.state ≡ State.running
      → b.IsUp c.control_socket
      → b.get_u32 (b.pending c.control_socket) ≡ some (size, rest)
      → (c' : Controller n h) × (pass
            (hears (interrupting (in_payload 0) (some (ControllerMessage.stream_terminated id))))
            old
            c
          ≡ (ok (some State.running), c'))
        × (c'.role ≡ client)
        × (c'.state ≡ State.running)
        × b.IsUp c'.control_socket
        × (b.pending c'.control_socket ≡ rest)
        × (b.written c'.control_socket ≡ b.written c.control_socket)
  unfolding select process_internal_message
  pass_interrupted id size rest old c role running up e =
      let wake = interrupting (in_payload 0) (some (ControllerMessage.stream_terminated id)) in
      let (w, r) = pass_running h p client wake old c role running in
      let (s, got, up', left, written) = b.read_u32_done c.control_socket size rest up e in
      let c1 : Controller n h = record c {
        perf = record (c.perf) { control_socket = s };
        world = w;
      } in
      let (workers, results, w', ends) = client_hears_end id c1 role in
      (
        record c1 { workers = workers; stream_results = results; world = w' },
        r
            ∙ ap
                (λ x.
                  continue_with
                    (stream_terminated id
                      (record c { perf = record (c.perf) { control_socket = x }; world = w }))
                    λ _ c'. (ok (some State.running), c'))
                (length_taken c.control_socket s size got)
            ∙ ap (λ x. continue_with x λ _ c'. (ok (some State.running), c')) ends,
        role,
        running,
        up',
        left,
        written,
      )

  -- Let a running client, on a host that cooperates, have a message that fits at the head of what
  -- is pending on its working control connection, and let the first four bytes behind the length
  -- of the message be a number over the maximum of a control message. Then a read that is left
  -- alone returns the message; but if the end of a worker interrupts the read once it has the
  -- length, the next read takes those bytes for a length, and the client leaves its loop with the
  -- error for a message that is too large, whatever turns are given behind, and has written
  -- nothing.
  pub interrupted_read_fails :
      (turns : List (Turn n.Stream)) (old : State) (id size : ℕ) (c : Controller n h)
      (m : ServerMessage) (payload rest rest' : Bytes)
      → c.role ≡ client
      → c.state ≡ State.running
      → b.IsUp c.control_socket
      → Fits n.server_codec (ServerEnvelope.message m) payload
      → b.pending c.control_socket ≡ frame n payload ++ rest
      → b.get_u32 (payload ++ rest) ≡ some (size, rest')
      → max_control_message_size < size
      → (s : n.Stream) × (c' : Controller n h) × (client_read_message n c.control_socket
          ≡ (ok m, s))
        × (run_from
              (hears (interrupting (in_payload 0) (some (ControllerMessage.stream_terminated id)))
                ∷ hears control
                ∷ turns)
              old
              c
            ≡ (err (Error.client_read_error (control_message_too_large size)), c'))
        × (b.written c'.control_socket ≡ b.written c.control_socket)
  unfolding run_from select
  interrupted_read_fails turns old id size c m payload rest rest' role running up fits q e large =
      let (s, whole, left) =
        client_read_message_done n b payload c.control_socket up rest q m fits in
      let parsed : b.get_u32 (b.pending c.control_socket) ≡ some (length payload, payload ++ rest) =
        rw (q, append_assoc)
          (b.get_u32-put_u32 (length payload) (payload ++ rest) (omega (arith, fits.1))) in
      let (c1, first, role1, running1, up1, left1, written1) =
        pass_interrupted id (length payload) (payload ++ rest) old c role running up parsed in
      let (w, second) = pass_running h p client control State.running c1 role1 running1 in
      let (s1, fails, same) =
        client_read_message_large c1.control_socket size rest' up1 (ap b.get_u32 left1 ∙ e) large in
      (
        s,
        record c1 { perf = record (c1.perf) { control_socket = s1 }; world = w },
        whole,
        run_from-step
              (hears (interrupting (in_payload 0) (some (ControllerMessage.stream_terminated id))))
              (hears control ∷ turns) old State.running c c1 first
            ∙ rw (second, fails, run_from, select) refl,
        same ∙ written1,
      )
