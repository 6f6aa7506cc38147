-- ===== src/Controller/Lifecycle.antt =====
-- How what is ready first moves the state of a test on the server.
use iperf3_rust.Common.{
  ℕ, ◌≡◌, refl, sym, ap, ◌∙◌, ◌⊎◌, inl, inr, Bool, true, false, Bool-cases, Option, some, none,
  List, [], ◌∷◌, ◌&&◌, length, ◌==◌, ==→eq, if◌then◌else◌, arith,
}
use iperf3_rust.Common.HashMap.{get}
use iperf3_rust.Message.{Role, client, server, State}
use iperf3_rust.Error.{Error}
use iperf3_rust.Outcome.{Result, ok, err, panic, hang, Action, continue_with, assert}
use iperf3_rust.Net.Interface.{Net}
use iperf3_rust.Host.{Host, ControllerMessage}
use iperf3_rust.Perf.{Perf, set_state, announce}
use iperf3_rust.Controller.State.{Controller, on_perf}
use iperf3_rust.Controller.Streams.{
  create_and_register_stream_worker, accept_stream, total_streams, is_server,
}
use iperf3_rust.Controller.Run.{
  Wake, internal, interrupting, control, shutdown, select, process_internal_message,
  stream_terminated, join_worker, forward_shutdown, finish_test, abort_test, start_load, finish,
  Arm, is_empty,
}
use iperf3_rust.Controller.Machine.{heard, Opens, Closes, Breaks}

module _ {n : Net} {Stats : Type 0} where
  -- The state is set and the number of streams stays; or the caller sees no success and the state
  -- stays.
  abbrev pub Sets : State → Perf n Stats → Result Error (Unit {0}) × Perf n Stats → Type 0
  Sets new p (ok _, q) = (q.state ≡ new) × (total_streams q ≡ total_streams p)
  Sets new p (err e, q) = q.state ≡ p.state
  Sets new p (panic, q) = q.state ≡ p.state
  Sets new p (hang, q) = q.state ≡ p.state

  announced-Sets :
      (new : State) (p q : Perf n Stats) (r : Result Error (Unit {0}))
      → q.state ≡ p.state
      → total_streams q ≡ total_streams p
      → Sets new p (continue_with (r, q) λ _ p'. (ok tt, record p' { state = new }))
  announced-Sets new p q (ok _) e t = (refl, t)
  announced-Sets new p q (err x) e t = e
  announced-Sets new p q panic e t = e
  announced-Sets new p q hang e t = e

  announce-Sets :
      (role : Role) (new : State) (p : Perf n Stats)
      → Sets new p (continue_with (announce role new p) λ _ p'. (ok tt, record p' { state = new }))
  announce-Sets client new p = (refl, refl)
  announce-Sets server new p =
      announced-Sets new p (announce server new p).1 (announce server new p).0 refl refl

  pub set_state-Sets : (new : State) (p : Perf n Stats) → Sets new p (set_state new p)
  unfolding set_state
  set_state-Sets new p = announce-Sets p.role new p

is_empty-eq : {V : Type 0} (xs : List V) (b : Bool) → is_empty xs && b ≡ true → xs ≡ []
is_empty-eq [] b e = refl
is_empty-eq (x ∷ xs) b e = cc

module _ {n : Net} {h : Host n} where
  pub register-perf :
      (stream : n.Stream) (c : Controller n h)
      → (create_and_register_stream_worker stream c).1.perf ≡ c.perf
  unfolding create_and_register_stream_worker
  register-perf stream c = ground arith

  pub join_worker-perf :
      (id : ℕ) (o : Option h.JoinHandle) (c : Controller n h) → (join_worker id o c).1.perf ≡ c.perf
  join_worker-perf id none c = refl
  join_worker-perf id (some handler) c = ground arith

  -- Where one event takes the state `s` of a server.
  abbrev pub Moves : Wake n.Stream → State → Controller n h → Type 0
  Moves wake s c =
      (c.state ≡ s)
      ⊎ (Opens wake × (length c.workers ≡ total_streams c.perf) × (c.state ≡ State.running))
      ⊎ (Closes wake × (c.workers ≡ []) × (c.state ≡ State.exchange_results))
      ⊎ (Breaks wake × (c.state ≡ State.terminate))

  abbrev pub Selected : Wake n.Stream → State → Result Error (Unit {0}) × Controller n h → Type 0
  Selected wake s (ok _, c) = Moves wake s c
  Selected wake s (err e, c) = c.state ≡ s
  Selected wake s (panic, c) = c.state ≡ s
  Selected wake s (hang, c) = c.state ≡ s

  set-Selected :
      (new s : State) (wake : Wake n.Stream) (c : Controller n h)
      (a : Result Error (Unit {0}) × Perf n h.Stats)
      → Sets new c.perf a
      → c.state ≡ s
      → ((q : Perf n h.Stats)
          → q.state ≡ new
          → total_streams q ≡ total_streams c.perf
          → Moves wake s (record c { perf = q }))
      → Selected wake s (a.0, record c { perf = a.1 })
  set-Selected new s wake c (ok _, q) set at moves = moves q set.0 set.1
  set-Selected new s wake c (err e, q) set at moves = set ∙ at
  set-Selected new s wake c (panic, q) set at moves = set ∙ at
  set-Selected new s wake c (hang, q) set at moves = set ∙ at

  -- A data stream that comes.
  opened-Selected :
      (wake : Wake n.Stream) (p : Perf n h.Stats) (r : Result Error (Unit {0}) × Controller n h)
      → Opens wake
      → r.1.perf ≡ p
      → Selected wake p.state (
          continue_with r λ _ c1.
            if length c1.workers == total_streams p
            then on_perf (set_state State.running) c1
            else (ok tt, c1))
  opened-Selected wake p (ok _, c) opens same =
      elim (Bool-cases (length c.workers == total_streams p)) [
        | inl all ↦ rw all (
            set-Selected State.running p.state wake c (set_state State.running c.perf)
              (set_state-Sets State.running c.perf) (ap (λ (q : Perf n h.Stats). q.state) same)
              λ q at total. inr (
                inl (
                  opens,
                  ==→eq (length c.workers) (total_streams p) all
                      ∙ sym (total ∙ ap (λ (q : Perf n h.Stats). total_streams q) same),
                  at,
                )))
        | inr few ↦ rw few (inl (ap (λ (q : Perf n h.Stats). q.state) same))
      ]
  opened-Selected wake p (err e, c) opens same = ap (λ (q : Perf n h.Stats). q.state) same
  opened-Selected wake p (panic, c) opens same = ap (λ (q : Perf n h.Stats). q.state) same
  opened-Selected wake p (hang, c) opens same = ap (λ (q : Perf n h.Stats). q.state) same

  asserted-Selected :
      (wake : Wake n.Stream) (b : Bool) (c : Controller n h)
      (f : Action Error (Controller n h) (Unit {0}))
      → Selected wake c.state (f c)
      → Selected wake c.state (continue_with (assert b c) λ _ c0. f c0)
  asserted-Selected wake true c f s = s
  asserted-Selected wake false c f s = refl

  accept_stream-Selected :
      (wake : Wake n.Stream) (stream : n.Stream) (c : Controller n h)
      → Opens wake
      → Selected wake c.state (accept_stream stream c)
  unfolding accept_stream
  accept_stream-Selected wake stream c opens = asserted-Selected wake (is_server c.role) c _ (
      opened-Selected wake c.perf (create_and_register_stream_worker stream c) opens
        (register-perf stream c))

  -- A worker that has ended.
  closed-Selected :
      (wake : Wake n.Stream) (p : Perf n h.Stats) (r : Result Error (Unit {0}) × Controller n h)
      → Closes wake
      → r.1.perf ≡ p
      → Selected wake p.state (
          continue_with r λ _ c'.
            if is_empty c'.workers && is_server c'.role
            then on_perf (set_state State.exchange_results) c'
            else (ok tt, c'))
  closed-Selected wake p (ok _, c) closes same =
      elim (Bool-cases (is_empty c.workers && is_server c.role)) [
        | inl last ↦ rw last (
            set-Selected State.exchange_results p.state wake c
              (set_state State.exchange_results c.perf)
              (set_state-Sets State.exchange_results c.perf)
              (ap (λ (q : Perf n h.Stats). q.state) same)
              λ q at total.
                inr (inr (inl (closes, is_empty-eq c.workers (is_server c.role) last, at))))
        | inr more ↦ rw more (inl (ap (λ (q : Perf n h.Stats). q.state) same))
      ]
  closed-Selected wake p (err e, c) closes same = ap (λ (q : Perf n h.Stats). q.state) same
  closed-Selected wake p (panic, c) closes same = ap (λ (q : Perf n h.Stats). q.state) same
  closed-Selected wake p (hang, c) closes same = ap (λ (q : Perf n h.Stats). q.state) same

  broken-Selected :
      (wake : Wake n.Stream) (c : Controller n h)
      → Breaks wake
      → Selected wake c.state (on_perf (set_state State.terminate) c)
  broken-Selected wake c breaks =
      set-Selected State.terminate c.state wake c (set_state State.terminate c.perf)
        (set_state-Sets State.terminate c.perf) refl λ q at total. inr (inr (inr (breaks, at)))

  internal-Selected :
      (wake : Wake n.Stream) (m : Option (ControllerMessage n.Stream)) (c : Controller n h)
      → heard wake ≡ m
      → Selected wake c.state (process_internal_message m c)
  unfolding process_internal_message stream_terminated
  internal-Selected wake none c e = inl refl
  internal-Selected wake (some (ControllerMessage.create_stream stream)) c e =
      accept_stream-Selected wake stream c (stream, e)
  internal-Selected wake (some (ControllerMessage.stream_terminated id)) c e =
      closed-Selected wake c.perf (join_worker id (get id c.workers) c) (id, e)
        (join_worker-perf id (get id c.workers) c)
  internal-Selected wake (some ControllerMessage.terminate) c e = broken-Selected wake c (inl e)

  -- What is ready first on the server.
  pub select-Selected :
      (wake : Wake n.Stream) (c : Controller n h) → Selected wake c.state (select server wake c)
  unfolding select
  select-Selected (internal m) c = internal-Selected (internal m) m c refl
  select-Selected (interrupting progress m) c = internal-Selected (interrupting progress m) m c refl
  select-Selected control c = refl
  select-Selected shutdown c = broken-Selected shutdown c (inr refl)

  pub forward_shutdown-perf :
      (seen : Bool) (c : Controller n h) → (forward_shutdown seen c).perf ≡ c.perf
  forward_shutdown-perf true c = refl
  forward_shutdown-perf false c = refl

  -- The arms of the last two states never go on to another pass.
  pub finish_test-last :
      (c : Controller n h) (arm : Arm) → (finish_test c).0 ≡ ok arm → arm ≡ finish
  unfolding finish_test
  finish_test-last c arm q = ground arith

  pub abort_test-last : (c : Controller n h) (arm : Arm) → (abort_test c).0 ≡ ok arm → arm ≡ finish
  unfolding abort_test
  abort_test-last c arm q = ground arith

  pub start_load-perf : (c : Controller n h) → (start_load c).1.perf ≡ c.perf
  unfolding start_load
  start_load-perf c = ground arith
