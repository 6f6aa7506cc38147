-- ===== src/Worker/Drain.antt =====
-- What a receiving worker leaves behind: a task that reads its socket up to the end.
use iperf3_rust.Common.{
  ℕ, zero, suc, ◌+◌, ◌<◌, Bool, false, ◌≡◌, ◌≢◌, refl, ap, ◌∙◌, List, [], length, length-append,
  ltb, lt→ltb, if◌then◌else◌, arith, Bool-cases, inl, inr, not, ◌==◌, ==→eq, ==→ne,
  eq-nil_of_length,
}
use iperf3_rust.Message.{StreamStats}
use iperf3_rust.Error.{Error, Io, done, failed}
use iperf3_rust.Outcome.{ok, hang, Action, continue_with-eq-ok}
use iperf3_rust.Net.Interface.{Bytes, Net, Behaves}
use iperf3_rust.Worker.Meter.{Worker, Meter, initial}
use iperf3_rust.Worker.Loop.{Round, Ending, conclude, transfer_loop, measure}

-- `is_ok_and(|v| v > 0)`
abbrev pub got_bytes : Io Bytes → Bool
got_bytes (done bytes) = ltb 0 (length bytes)
got_bytes (failed e) = false

module _ (n : Net) where
  -- `while stream.read(&mut buffer).await.is_ok_and(|v| v > 0) {}`, for at most `fuel` rounds.
  unfoldable pub drain : (fuel block_size : ℕ) → Action Error n.Stream (Unit {0})
  drain zero block_size s = (hang, s)
  drain (suc fuel) block_size s =
      let (r, s') = n.read block_size s in
      let rest = drain fuel block_size s' in if got_bytes r then rest else (ok tt, s')

  -- What is done with the socket behind the worker's end; without the task it is closed.
  unfoldable pub after_worker : (fuel : ℕ) → Worker → Meter → Action Error n.Stream (Unit {0})
  unfolding drain
  after_worker fuel self m s =
      if m.draining then drain fuel self.params.block_size s else (ok tt, s)

  module _ (b : Behaves n) where
    open b use {IsUp, pending, written}

    drain_round :
        (fuel block_size : ℕ) (bytes : Bytes) (s s' : n.Stream)
        → n.read block_size s ≡ (done bytes, s')
        → 0 < length bytes
        → drain (suc fuel) block_size s ≡ drain fuel block_size s'
    unfolding drain
    drain_round fuel block_size bytes s s' r l = rw (r, lt→ltb 0 (length bytes) l, drain) refl

    drain_end :
        (fuel block_size : ℕ) (s s' : n.Stream)
        → n.read block_size s ≡ (done [], s')
        → drain (suc fuel) block_size s ≡ (ok tt, s')
    unfolding drain
    drain_end fuel block_size s s' r = rw (r, drain) refl

    drain_empties :
        (fuel block_size : ℕ) (s : n.Stream)
        → IsUp s
        → 0 < block_size
        → length (pending s) < fuel
        → (s' : n.Stream) × (drain fuel block_size s ≡ (ok tt, s'))
          × (pending s' ≡ [])
          × (written s' ≡ written s)
    drain_empties zero block_size s up h f = absurd (omega arith)
    drain_empties (suc fuel) block_size s up h f =
        let (bytes, s1, r, up1, p, some_read, w1) = b.read_done block_size s up h in
        let same : length (pending s) ≡ length bytes + length (pending s1) =
          ap length p ∙ length-append bytes (pending s1) in
        elim (Bool-cases (length (pending s) == 0)) [
          | inl t ↦
              let nothing : bytes ≡ [] = eq-nil_of_length bytes (omega (arith, ==→eq _ _ t)) in
              (
                s1,
                drain_end fuel block_size s s1 (rw nothing at r),
                eq-nil_of_length (pending s1) (omega (arith, ==→eq _ _ t)),
                w1,
              )
          | inr t ↦
              let more : pending s ≢ [] = λ q. ==→ne _ _ t (ap length q) in
              let positive : 0 < length bytes = some_read more in
              let (s2, e, empty, w2) = drain_empties fuel block_size s1 up1 h (omega arith) in
              (s2, drain_round fuel block_size bytes s s1 r positive ∙ e, empty, w2 ∙ w1)
        ]

conclude_draining :
    (self : Worker) (e : Ending) (m : Meter) (s : StreamStats)
    → (conclude self e m).0 ≡ ok s
    → (conclude self e m).1.draining ≡ not self.is_sending
unfolding conclude
conclude_draining self e m s q = ground arith

measure_draining :
    (self : Worker) (rs : List Round) (e : Ending) (started : ℕ) (s : StreamStats)
    → (measure self rs e (initial started)).0 ≡ ok s
    → (measure self rs e (initial started)).1.draining ≡ not self.is_sending
unfolding measure
measure_draining self rs e started s q =
    let (x, ended, same) = continue_with-eq-ok (transfer_loop self rs (initial started)) _ q in
    rw same (conclude_draining self e (transfer_loop self rs (initial started)).1 s (rw same at q))

-- If a receiving worker with a block size over 0 comes to its end with a summary, and its data
-- connection works, the task that it leaves behind ends, within one read more than there are bytes
-- pending, once it has read all that is pending up to the end of the stream, and it writes
-- nothing.
pub receiver_drains :
    (n : Net) (b : Behaves n) (self : Worker) (rs : List Round) (e : Ending) (started fuel : ℕ)
    (summary : StreamStats) (s : n.Stream)
    → (measure self rs e (initial started)).0 ≡ ok summary
    → self.is_sending ≡ false
    → b.IsUp s
    → 0 < self.params.block_size
    → length (b.pending s) < fuel
    → (s' : n.Stream) × (after_worker n fuel self (measure self rs e (initial started)).1 s
        ≡ (ok tt, s'))
      × (b.pending s' ≡ [])
      × (b.written s' ≡ b.written s)
unfolding after_worker
receiver_drains n b self rs e started fuel summary s q receives up h f =
    let left = measure_draining self rs e started summary q in
    let (s', r, empty, kept) = drain_empties n b fuel self.params.block_size s up h f in
    (s', rw (left, receives) r, empty, kept)
