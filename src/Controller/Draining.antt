-- ===== src/Controller/Draining.antt =====
-- The server hears of the end of each worker in turn, and moves on with the last.
use iperf3_rust.Common.{
  ℕ, ◌≡◌, refl, ap, ◌∙◌, Bool, true, false, Option, some, none, List, [], ◌∷◌, ◌++◌,
}
use iperf3_rust.Common.HashMap.{HashMap, get, insert, remove}
use iperf3_rust.Message.{Role, client, server, StreamStats, State, ServerMessage, ServerEnvelope}
use iperf3_rust.Outcome.{ok, continue_with}
use iperf3_rust.Net.Interface.{Bytes, Net, Behaves}
use iperf3_rust.Net.Specification.{Sent, Fits}
use iperf3_rust.Host.{Host, WorkerMessage, ControllerMessage, completed}
use iperf3_rust.Controller.State.{Controller}
use iperf3_rust.Controller.Run.{
  Turn, Wake, internal, listen, enter, start_load, start_if_new, is_running, pass, pass_at,
  after_arm, select, process_internal_message, stream_terminated, run_from,
}
use iperf3_rust.Controller.Cooperation.{Cooperates}
use iperf3_rust.Controller.Turns.{hears, run_from-step}
use iperf3_rust.Controller.Ending.{joined, stream_terminated_joins, stream_terminated_last}

abbrev pub terminations : {Stream : Type 0} → List ℕ → List (Turn Stream)
terminations [] = []
terminations (id ∷ ids) =
    hears (internal (some (ControllerMessage.stream_terminated id))) ∷ terminations ids

-- The order names every worker, each once.
abbrev pub Exhausts : {V : Type 0} → List ℕ → HashMap V → Type 0
Exhausts [] m = m ≡ []
Exhausts {V} (id ∷ ids) m = ((v : V) × (get id m ≡ some v)) × Exhausts ids (remove id m)

module _ {n : Net} (h : Host n) (p : Cooperates h) where
  open p use {result}

  start_load_done :
      (c : Controller n h)
      → start_load c
        ≡ (ok tt, record c { world = (h.publish WorkerMessage.start_load c.publisher c.world).1 })
  unfolding start_load
  start_load_done c =
      rw (p.publish_heard WorkerMessage.start_load c.publisher c.world, start_load) refl

  start_if_new_done :
      (was_running : Bool) (c : Controller n h)
      → (w : h.World) × (start_if_new was_running c ≡ (ok listen, record c { world = w }))
  unfolding start_if_new
  start_if_new_done true c = (c.world, refl)
  start_if_new_done false c =
      ((h.publish WorkerMessage.start_load c.publisher c.world).1, rw (start_load_done c) refl)

  enter-running :
      (r : Role) (old : State) (c : Controller n h)
      → enter r old State.running c ≡ start_if_new (is_running old) c
  unfolding enter
  enter-running client old c = refl
  enter-running server old c = refl

  -- A pass in the running state listens; the load has been started.
  pub pass_running :
      (r : Role) (wake : Wake n.Stream) (old : State) (c : Controller n h)
      → c.role ≡ r
      → c.state ≡ State.running
      → (w : h.World) × (pass (hears wake) old c
          ≡ continue_with
              (select r wake (record c { world = w }))
              λ _ c'. (ok (some State.running), c'))
  unfolding pass pass_at after_arm
  pass_running r wake old c role at =
      let (w, started) = start_if_new_done (is_running old) c in
      (
        w,
        ap (λ x. pass_at c.role x (hears wake) old c) at
            ∙ rw (enter-running c.role old c, started, after_arm)
                (ap
                  (λ x.
                    continue_with (select x wake (record c { world = w }))
                      λ _ c'. (ok (some State.running), c'))
                  role),
      )

  -- The results of the workers in the order in which they end.
  abbrev kept : ℕ → Option h.JoinHandle → HashMap StreamStats → HashMap StreamStats
  kept id none results = results
  kept id (some handler) results = insert id (result handler) results

  unfoldable pub drained : List ℕ → HashMap h.JoinHandle → HashMap StreamStats → HashMap StreamStats
  drained [] workers results = results
  drained (id ∷ ids) workers results =
      drained ids (remove id workers) (kept id (get id workers) results)

  terminated : ℕ → Wake n.Stream
  terminated id = internal (some (ControllerMessage.stream_terminated id))

  module _ (id : ℕ) (handler : h.JoinHandle) (old : State) (c : Controller n h)
      (serves : c.role ≡ server) (running : c.state ≡ State.running)
      (found : get id c.workers ≡ some handler) where
    -- The pass is the handling of the notice, in some world.
    pass-terminated :
        (w : h.World) × (pass (hears (terminated id)) old c
          ≡ continue_with
              (stream_terminated id (record c { world = w }))
              λ _ c'. (ok (some State.running), c'))
    unfolding select process_internal_message terminated
    pass-terminated = pass_running server (terminated id) old c serves running

    joins :
        (w : h.World) → h.join handler w ≡ (completed (ok (result handler)), (h.join handler w).1)
    joins w i = (p.join_ends handler w i, (h.join handler w).1)

    pass_joins :
        (next : ℕ × h.JoinHandle) (others : HashMap h.JoinHandle)
        → remove id c.workers ≡ next ∷ others
        → (w : h.World) × (pass (hears (terminated id)) old c
            ≡ (ok (some State.running), joined id (result handler) w c))
    pass_joins next others e =
        let (w, q) = pass-terminated in
        (
          (h.join handler w).1,
          q
              ∙ rw
                  (stream_terminated_joins id handler (result handler) (h.join handler w).1
                    (record c { world = w }) found (joins w) next others e)
                  refl,
        )

    pass_last :
        (b : Behaves n) (payload : Bytes)
        → remove id c.workers ≡ []
        → b.IsUp c.control_socket
        → Fits n.server_codec
            (ServerEnvelope.message (ServerMessage.set_state State.exchange_results))
            payload
        → (w : h.World) × (s : n.Stream) × (pass (hears (terminated id)) old c ≡ (
          ok (some State.running),
          record (joined id (result handler) w c) {
            perf = record (c.perf) { state = State.exchange_results; control_socket = s };
          },
        ))
          × Sent b payload c.control_socket s
    pass_last b payload e up fits =
        let (w, q) = pass-terminated in
        let (s, r, sent) =
          stream_terminated_last id handler (result handler) (h.join handler w).1
            (record c { world = w }) found (joins w) b payload serves e up fits in
        ((h.join handler w).1, s, q ∙ rw r refl, sent)

  more_workers :
      (id : ℕ) (handler : h.JoinHandle) (workers : HashMap h.JoinHandle)
      → get id workers ≡ some handler
      → (next : ℕ × h.JoinHandle) × (others : HashMap h.JoinHandle) × (workers ≡ next ∷ others)
  unfolding get
  more_workers id handler [] e = cc
  more_workers id handler (next ∷ others) e = (next, others, refl)

  -- All workers end, in some order: the state becomes the exchange of results, announced once.
  pub run_drains :
      (b : Behaves n) (payload : Bytes) (id : ℕ) (ids : List ℕ) (turns : List (Turn n.Stream))
      (old : State) (c : Controller n h)
      → c.role ≡ server
      → c.state ≡ State.running
      → Exhausts (id ∷ ids) c.workers
      → b.IsUp c.control_socket
      → Fits n.server_codec
          (ServerEnvelope.message (ServerMessage.set_state State.exchange_results))
          payload
      → (c' : Controller n h) × (s : n.Stream) × (run_from (terminations (id ∷ ids) ++ turns) old c
          ≡ run_from turns State.running c')
        × (c'.perf ≡ record (c.perf) { state = State.exchange_results; control_socket = s })
        × Sent b payload c.control_socket s
        × (c'.workers ≡ [])
        × (c'.stream_results ≡ drained (id ∷ ids) c.workers c.stream_results)
  unfolding drained terminated
  run_drains b payload id [] turns old c serves running ((handler, found), none_left) up fits =
      let (w, s, e, sent) =
        pass_last id handler old c serves running found b payload none_left up fits in
      (
        _,
        s,
        run_from-step (hears (terminated id)) turns old State.running c _ e,
        refl,
        sent,
        none_left,
        rw found refl,
      )
  run_drains b payload id (id' ∷ ids) turns old c serves running ((handler, found), (second, rest))
        up fits =
      let (next, others, e) = more_workers id' second.0 (remove id c.workers) second.1 in
      let (w, q) = pass_joins id handler old c serves running found next others e in
      let (c', s, r, perf, sent, empty, results) =
        run_drains b payload id' ids turns State.running (joined id (result handler) w c) serves
          running (second, rest) up fits in
      (
        c',
        s,
        run_from-step (hears (terminated id)) (terminations (id' ∷ ids) ++ turns) old State.running
              c _ q
            ∙ r,
        perf,
        sent,
        empty,
        results ∙ rw found refl,
      )
