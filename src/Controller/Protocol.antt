-- ===== src/Controller/Protocol.antt =====
-- The server's loop implements the abstract machine of `Controller.Machine`, pass by pass.
use iperf3_rust.Common.{
  String, ◌≡◌, refl, sym, ap, subst, ◌∙◌, inl, inr, ◌⊎◌, Bool, true, false, some, List, [], ◌∷◌,
  ◌++◌,
}
use iperf3_rust.Message.{server, State}
use iperf3_rust.Error.{Error}
use iperf3_rust.Outcome.{Result, ok, err, panic, hang, continue_with, pure}
use iperf3_rust.Net.Interface.{Net}
use iperf3_rust.Host.{Host}
use iperf3_rust.Perf.{Perf, set_state}
use iperf3_rust.Controller.State.{Controller}
use iperf3_rust.Controller.Run.{
  Wake, Turn, pass, pass_at, enter, select, after_arm, forward_shutdown, listen, repeat,
  start_if_new, start_load, run_from, run_controller, Arm, finish, finish_test, abort_test,
  is_running,
}
use iperf3_rust.Controller.Lifecycle.{
  Sets, set_state-Sets, Moves, Selected, select-Selected, forward_shutdown-perf, start_load-perf,
  finish_test-last, abort_test-last,
}
use iperf3_rust.Controller.Machine.{
  Step, announce, begin, end, end_early, break_off, break_early, Listens, IsLast, Passes,
}
use iperf3_rust.Controller.Turns.{after_pass, run_from-append}
use iperf3_rust.Controller.Identity.{run_from-SameTest, finish_test-Keeps, abort_test-Keeps}

module _ {n : Net} {h : Host n} where
  -- A move from a state to listen in is a step of the machine, or none.
  moved :
      (cookie : String) (wake : Wake n.Stream) (s : State) (c : Controller n h)
      → Listens s
      → Moves wake s c
      → Step cookie wake c s c.state ⊎ (Listens s × (c.state ≡ s))
  moved cookie wake State.start c l m = absurd l
  moved cookie wake (State.create_streams k) c l (inl e) = inr (tt, e)
  moved cookie wake (State.create_streams k) c l (inr (inl (opens, all, e))) =
      inl (subst (Step cookie wake c (State.create_streams k)) (sym e) (begin k opens all))
  moved cookie wake (State.create_streams k) c l (inr (inr (inl (closes, last, e)))) =
      inl (subst (Step cookie wake c (State.create_streams k)) (sym e) (end_early k closes last))
  moved cookie wake (State.create_streams k) c l (inr (inr (inr (breaks, e)))) =
      inl (subst (Step cookie wake c (State.create_streams k)) (sym e) (break_early k breaks))
  moved cookie wake State.running c l (inl e) = inr (tt, e)
  moved cookie wake State.running c l (inr (inl (opens, all, e))) = inr (tt, e)
  moved cookie wake State.running c l (inr (inr (inl (closes, last, e)))) =
      inl (subst (Step cookie wake c State.running) (sym e) (end closes last))
  moved cookie wake State.running c l (inr (inr (inr (breaks, e)))) =
      inl (subst (Step cookie wake c State.running) (sym e) (break_off breaks))
  moved cookie wake State.exchange_results c l m = absurd l
  moved cookie wake State.terminate c l m = absurd l

  then-Passes :
      (cookie : String) (wake : Wake n.Stream) (s : State)
      (p : Result Error (Unit {0}) × Controller n h)
      → Listens s
      → Selected wake s p
      → Passes cookie wake s (after_pass [] (continue_with p λ _ c''. (ok (some s), c'')))
  unfolding run_from
  then-Passes cookie wake s (ok _, c) l m = moved cookie wake s c l m
  then-Passes cookie wake s (err e, c) l m = m
  then-Passes cookie wake s (panic, c) l m = m
  then-Passes cookie wake s (hang, c) l m = m

  listen-Passes :
      (cookie : String) (s old : State) (turn : Turn n.Stream) (c : Controller n h)
      → c.role ≡ server
      → c.state ≡ s
      → Listens s
      → Passes cookie turn.wake s (after_pass [] (after_arm old s turn listen c))
  unfolding after_arm
  listen-Passes cookie s old turn c serves at l =
      let d = forward_shutdown turn.shutdown_seen c in
      let same : d.perf ≡ c.perf = forward_shutdown-perf turn.shutdown_seen c in
      let role : d.role ≡ server = ap (λ (p : Perf n h.Stats). p.role) same ∙ serves in
      let state : d.state ≡ s = ap (λ (p : Perf n h.Stats). p.state) same ∙ at in
      let chosen : Selected turn.wake s (select d.role turn.wake d) =
        subst (λ r. Selected turn.wake s (select r turn.wake d)) (sym role)
          (subst (λ x. Selected turn.wake x (select server turn.wake d)) state
            (select-Selected turn.wake d)) in
      then-Passes cookie turn.wake s (select d.role turn.wake d) l chosen

  announced-Passes :
      (cookie : String) (old : State) (turn : Turn n.Stream) (c : Controller n h)
      (a : Result Error (Unit {0}) × Perf n h.Stats)
      → c.state ≡ State.start
      → Sets (State.create_streams cookie) c.perf a
      → Passes cookie turn.wake State.start (
          after_pass [] (
            continue_with
              (continue_with (a.0, record c { perf = a.1 }) λ _. pure repeat)
              λ arm c'. after_arm old State.start turn arm c'))
  unfolding after_arm run_from
  announced-Passes cookie old turn c (ok _, q) at set =
      inl (subst (Step cookie turn.wake (record c { perf = q }) State.start) (sym set.0) announce)
  announced-Passes cookie old turn c (err e, q) at set = set ∙ at
  announced-Passes cookie old turn c (panic, q) at set = set ∙ at
  announced-Passes cookie old turn c (hang, q) at set = set ∙ at

  loaded-Passes :
      (cookie : String) (old : State) (turn : Turn n.Stream) (c : Controller n h)
      (p : Result Error (Unit {0}) × Controller n h)
      → p.1.perf ≡ c.perf
      → c.role ≡ server
      → c.state ≡ State.running
      → Passes cookie turn.wake State.running (
          after_pass [] (
            continue_with
              (continue_with p λ _. pure listen)
              λ arm c'. after_arm old State.running turn arm c'))
  loaded-Passes cookie old turn c (ok _, c1) same serves at =
      listen-Passes cookie State.running old turn c1
        (ap (λ (p : Perf n h.Stats). p.role) same ∙ serves)
        (ap (λ (p : Perf n h.Stats). p.state) same ∙ at) tt
  loaded-Passes cookie old turn c (err e, c1) same serves at =
      ap (λ (p : Perf n h.Stats). p.state) same ∙ at
  loaded-Passes cookie old turn c (panic, c1) same serves at =
      ap (λ (p : Perf n h.Stats). p.state) same ∙ at
  loaded-Passes cookie old turn c (hang, c1) same serves at =
      ap (λ (p : Perf n h.Stats). p.state) same ∙ at

  load-Passes :
      (was_running : Bool) (cookie : String) (old : State) (turn : Turn n.Stream)
      (c : Controller n h)
      → c.role ≡ server
      → c.state ≡ State.running
      → Passes cookie turn.wake State.running (
          after_pass [] (
            continue_with
              (start_if_new was_running c)
              λ arm c'. after_arm old State.running turn arm c'))
  unfolding start_if_new
  load-Passes true cookie old turn c serves at =
      listen-Passes cookie State.running old turn c serves at tt
  load-Passes false cookie old turn c serves at =
      loaded-Passes cookie old turn c (start_load c) (start_load-perf c) serves at

  last-Passes :
      (cookie : String) (s old : State) (turn : Turn n.Stream)
      (p : Result Error Arm × Controller n h)
      → IsLast s
      → ((arm : Arm) → p.0 ≡ ok arm → arm ≡ finish)
      → p.1.state ≡ s
      → Passes cookie turn.wake s
          (after_pass [] (continue_with p λ arm c'. after_arm old s turn arm c'))
  unfolding after_arm
  last-Passes cookie s old turn (ok arm, c) l last at = rw (last arm refl) (l, at)
  last-Passes cookie s old turn (err e, c) l last at = at
  last-Passes cookie s old turn (panic, c) l last at = at
  last-Passes cookie s old turn (hang, c) l last at = at

  pass_at-Passes :
      (s old : State) (turn : Turn n.Stream) (c : Controller n h)
      → c.role ≡ server
      → c.state ≡ s
      → Passes c.cookie turn.wake s (after_pass [] (pass_at server s turn old c))
  unfolding pass_at enter
  pass_at-Passes State.start old turn c serves at =
      announced-Passes c.cookie old turn c (set_state (State.create_streams c.cookie) c.perf) at
        (set_state-Sets (State.create_streams c.cookie) c.perf)
  pass_at-Passes (State.create_streams k) old turn c serves at =
      listen-Passes c.cookie (State.create_streams k) old turn c serves at tt
  pass_at-Passes State.running old turn c serves at =
      load-Passes (is_running old) c.cookie old turn c serves at
  pass_at-Passes State.exchange_results old turn c serves at =
      last-Passes c.cookie State.exchange_results old turn (finish_test c) tt (finish_test-last c)
        ((finish_test-Keeps c).1 ∙ at)
  pass_at-Passes State.terminate old turn c serves at =
      last-Passes c.cookie State.terminate old turn (abort_test c) tt (abort_test-last c)
        ((abort_test-Keeps c).1 ∙ at)

  pass-Passes :
      (turn : Turn n.Stream) (old : State) (c : Controller n h)
      → c.role ≡ server
      → Passes c.cookie turn.wake c.state (after_pass [] (pass turn old c))
  unfolding pass
  pass-Passes turn old c serves =
      subst (λ r. Passes c.cookie turn.wake c.state (after_pass [] (pass_at r c.state turn old c)))
        (sym serves) (pass_at-Passes c.state old turn c serves refl)

  run_one-Passes :
      (turn : Turn n.Stream) (old : State) (c : Controller n h)
      → c.role ≡ server
      → Passes c.cookie turn.wake c.state (run_from (turn ∷ []) old c)
  unfolding run_from
  run_one-Passes turn old c serves = pass-Passes turn old c serves

  -- On the server, after any turns behind which the loop goes on, let `s` be the state. One more
  -- pass, whatever is ready in it, takes the state by one step of the machine, or leaves it: from
  -- the start only to the creation of streams under the test's cookie; from there to running only
  -- when a data stream comes and there are as many workers as the test has streams; from either to
  -- the exchange of results only when a worker has ended and none is left, and to termination only
  -- on the message Terminate or a shutdown. The loop goes on in the same state only from the
  -- creation of streams and from running, and is left only in the last two states, which are never
  -- changed; a pass that fails or waits for ever leaves the state. Cookie and role stay.
  pub run_controller-Passes :
      (before : List (Turn n.Stream)) (turn : Turn n.Stream) (c0 : Controller n h)
      → c0.role ≡ server
      → (run_controller before c0).0 ≡ ok false
      → let s = (run_controller before c0).1.state in
        let r = run_controller (before ++ turn ∷ []) c0 in
        Passes c0.cookie turn.wake s r × (r.1.cookie ≡ c0.cookie) × (r.1.role ≡ server)
  unfolding run_controller
  run_controller-Passes before turn c0 serves on =
      let c = (run_from before c0.state c0).1 in
      let same = run_from-SameTest before c0.state c0 serves in
      let (old, more) = run_from-append before (turn ∷ []) c0.state c0 c (λ i. (on i, c)) in
      let one = run_one-Passes turn old c (same.1 ∙ serves) in
      let whole = run_from-SameTest (before ++ turn ∷ []) c0.state c0 serves in
      (
        subst (Passes c0.cookie turn.wake c.state) (sym more)
            (subst (λ k. Passes k turn.wake c.state (run_from (turn ∷ []) old c)) same.0 one),
        whole.0,
        whole.1 ∙ serves,
      )
