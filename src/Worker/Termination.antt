-- ===== src/Worker/Termination.antt =====
-- When the loop of a worker ends, and with what.
use iperf3_rust.Common.{
  ◌<◌, ◌≡◌, refl, ◌⊎◌, inl, inr, Bool-cases, List, [], ◌∷◌, ◌++◌, ltb, leb, not, ◌-◌, arith,
}
use iperf3_rust.Message.{StreamStats}
use iperf3_rust.Error.{Error, IoError}
use iperf3_rust.Outcome.{Result, ok, err, panic, hang, Action, continue_with}
use iperf3_rust.Host.{WorkerMessage}
use iperf3_rust.Worker.Meter.{Worker, Meter, from_secs, Delivery, taken, refused, unanswered, send}
use iperf3_rust.Worker.Loop.{
  Round, Next, again, leave, Ending, Signal, pending, receive_failed, received, Transfer, slow,
  broken, moved, round, close_interval, count_transfer, check_signal, transfer_loop, conclude,
  exceeds, summary, measure,
}

-- What goes wrong in a round: the channel of the signals, the socket, or the user interface is gone.
abbrev pub Fails : Round → Type 0
Fails r =
    (r.signal ≡ receive_failed) ⊎ ((x : IoError) × (r.transfer ≡ broken x)) ⊎ (r.delivery ≡ refused)

abbrev pub IsUnanswered : Round → Type 0
IsUnanswered r = r.delivery ≡ unanswered

abbrev pub Any : (Round → Type 0) → List Round → Type 0
Any P [] = ⊥
Any P (r ∷ rs) = P r ⊎ Any P rs

-- How a worker ends after the given rounds: with its summary, with an error if something went wrong
-- in a round or with the last report, never in a panic; or it waits for ever in a report of one of
-- these rounds, or in the last, that the user interface never takes.
abbrev pub Ends : Worker → List Round → Ending → Result Error StreamStats × Meter → Type 0
Ends self rounds e (ok stats, m) = stats ≡ summary self e m
Ends self rounds e (err x, m) = Any Fails rounds ⊎ (e.delivery ≡ refused)
Ends self rounds e (panic, m) = ⊥
Ends self rounds e (hang, m) = Any IsUnanswered rounds ⊎ (e.delivery ≡ unanswered)

-- How the loop ends, and how one round does.
abbrev LoopEnds : List Round → Result Error (Unit {0}) → Type 0
LoopEnds rounds (ok _) = Unit
LoopEnds rounds (err x) = Any Fails rounds
LoopEnds rounds panic = ⊥
LoopEnds rounds hang = Any IsUnanswered rounds

abbrev RoundEnds : Round → Result Error Next → Type 0
RoundEnds r (ok next) = Unit
RoundEnds r (err x) = Fails r
RoundEnds r panic = ⊥
RoundEnds r hang = IsUnanswered r

send-RoundEnds :
    (r : Round) (d : Delivery) (stats : StreamStats) (m : Meter) (f : Meter → Meter)
    → r.delivery ≡ d
    → RoundEnds r (continue_with (send d stats m) λ _ m'. (ok again, f m')).0
send-RoundEnds r taken stats m f e = tt
send-RoundEnds r refused stats m f e = inr (inr e)
send-RoundEnds r unanswered stats m f e = e

close_interval-RoundEnds :
    (self : Worker) (r : Round) (m : Meter) → RoundEnds r (close_interval self r m).0
unfolding close_interval
close_interval-RoundEnds self r m =
    elim (Bool-cases (leb (from_secs self.params.interval) (r.now - m.current_interval_start))) [
      | inl over ↦ rw over (send-RoundEnds r r.delivery _ _ _ refl)
      | inr open' ↦ rw open' tt
    ]

count_transfer-RoundEnds :
    (self : Worker) (r : Round) (t : Transfer) (m : Meter)
    → r.transfer ≡ t
    → RoundEnds r (count_transfer self r t m).0
unfolding count_transfer
count_transfer-RoundEnds self r slow m e = close_interval-RoundEnds self r m
count_transfer-RoundEnds self r (broken x) m e = inr (inl (x, e))
count_transfer-RoundEnds self r (moved bytes_count) m e = elim (Bool-cases (ltb 0 bytes_count)) [
  | inl more ↦ rw more (close_interval-RoundEnds self r _)
  | inr closed ↦ rw closed tt
]

check_signal-RoundEnds :
    (self : Worker) (r : Round) (s : Signal) (m : Meter)
    → r.signal ≡ s
    → RoundEnds r (check_signal self r s m).0
unfolding check_signal
check_signal-RoundEnds self r receive_failed m e = inl e
check_signal-RoundEnds self r (received WorkerMessage.terminate) m e = tt
check_signal-RoundEnds self r (received WorkerMessage.start_load) m e =
    count_transfer-RoundEnds self r r.transfer m refl
check_signal-RoundEnds self r pending m e = count_transfer-RoundEnds self r r.transfer m refl

round-RoundEnds : (self : Worker) (r : Round) (m : Meter) → RoundEnds r (round self r m).0
unfolding round
round-RoundEnds self r m = elim (Bool-cases (ltb (from_secs self.params.duration) r.elapsed)) [
  | inl late ↦ rw late tt
  | inr early ↦ (elim (Bool-cases (exceeds self.params.max_length m.total_bytes_transferred)) [
    | inl full ↦ rw (early, full) tt
    | inr room ↦ rw (early, room) (check_signal-RoundEnds self r r.signal m refl)
  ])
]

-- A round that is reached after the time is up leaves the loop, and changes nothing.
round_late :
    (self : Worker) (r : Round) (m : Meter)
    → from_secs self.params.duration < r.elapsed
    → round self r m ≡ (ok leave, m)
unfolding round
round_late self r m h = ground arith

LoopEnds-cons :
    (q : Round) (rounds : List Round) (r : Result Error (Unit {0}))
    → LoopEnds rounds r
    → LoopEnds (q ∷ rounds) r
LoopEnds-cons q rounds (ok _) l = tt
LoopEnds-cons q rounds (err x) l = inr l
LoopEnds-cons q rounds panic l = l
LoopEnds-cons q rounds hang l = inr l

-- The loop behind a round.
next-LoopEnds :
    (q : Round) (before : List Round) (p : Result Error Next × Meter)
    (rest : Action Error Meter (Unit {0}))
    → RoundEnds q p.0
    → LoopEnds before (rest p.1).0
    → LoopEnds
        (q ∷ before)
        (continue_with p λ next m'. elim next [ leave ↦ (ok tt, m') | again ↦ rest m' ]).0
next-LoopEnds q before (ok leave, m) rest e l = tt
next-LoopEnds q before (ok again, m) rest e l = LoopEnds-cons q before (rest m).0 l
next-LoopEnds q before (err x, m) rest e l = inl e
next-LoopEnds q before (panic, m) rest e l = e
next-LoopEnds q before (hang, m) rest e l = inl e

loop_late :
    (self : Worker) (before : List Round) (r : Round) (after : List Round) (m : Meter)
    → from_secs self.params.duration < r.elapsed
    → LoopEnds before (transfer_loop self (before ++ r ∷ after) m).0
unfolding transfer_loop
loop_late self [] r after m late = rw (round_late self r m late, transfer_loop) tt
loop_late self (q ∷ before) r after m late =
    next-LoopEnds q before (round self q m) (transfer_loop self (before ++ r ∷ after))
      (round-RoundEnds self q m) (loop_late self before r after (round self q m).1 late)

-- The end behind the last report.
sent-Ends :
    (self : Worker) (rounds : List Round) (e : Ending) (d : Delivery) (stats : StreamStats)
    (m : Meter)
    → e.delivery ≡ d
    → Ends self rounds e (
        continue_with
          (send d stats m)
          λ _ m'. (ok (summary self e m'), record m' { draining = not self.is_sending }))
unfolding summary
sent-Ends self rounds e taken stats m q = refl
sent-Ends self rounds e refused stats m q = inr q
sent-Ends self rounds e unanswered stats m q = inr q

conclude-Ends :
    (self : Worker) (rounds : List Round) (e : Ending) (m : Meter)
    → Ends self rounds e (conclude self e m)
unfolding conclude
conclude-Ends self rounds e m = sent-Ends self rounds e e.delivery _ m refl

loop-Ends :
    (self : Worker) (rounds : List Round) (e : Ending) (p : Result Error (Unit {0}) × Meter)
    → LoopEnds rounds p.0
    → Ends self rounds e (continue_with p λ _ m'. conclude self e m')
loop-Ends self rounds e (ok _, m) l = conclude-Ends self rounds e m
loop-Ends self rounds e (err x, m) l = inl l
loop-Ends self rounds e (panic, m) l = l
loop-Ends self rounds e (hang, m) l = inl l

-- If some round begins after the duration of the test, the worker is through with its loop by that
-- round, whatever comes behind it: it gives the summary of its meter; or an error, and then the
-- channel of the signals, the socket or the user interface failed in a round before, or the user
-- interface was gone for the last report; or it waits for ever, and then in a report of a round
-- before, or in the last report, that the user interface never takes. It never panics.
pub measure_terminates :
    (self : Worker) (before : List Round) (r : Round) (after : List Round) (e : Ending) (m : Meter)
    → from_secs self.params.duration < r.elapsed
    → Ends self before e (measure self (before ++ r ∷ after) e m)
unfolding measure
measure_terminates self before r after e m late =
    loop-Ends self before e (transfer_loop self (before ++ r ∷ after) m)
      (loop_late self before r after m late)
