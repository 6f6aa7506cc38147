-- ===== src/Net/ReadBody.antt =====
-- The loop of `read_control_message`, over any way in which the bytes arrive.
use iperf3_rust.Common.{
  ℕ, zero, suc, ◌+◌, ◌^◌, ◌≤◌, ◌<◌, ◌≡◌, refl, sym, ap, ◌∙◌, [], ◌∷◌, ◌++◌, length, length-append,
  append_split, append_assoc, append-nil, lt→ltb, arith, Bool-cases, ◌==◌, ==→eq, ==→ne,
  eq-nil_of_length, inl, inr,
}
use iperf3_rust.Error.{done, connection_was_closed_by_peer}
use iperf3_rust.Outcome.{ok, err}
use iperf3_rust.Net.Interface.{Bytes, Net, Behaves}
use iperf3_rust.Net.Frame.{read_body, sub_u64}

module _ (n : Net) (b : Behaves n) where
  open n use {Stream}
  open b use {IsUp, pending, written}

  read_body_stop : (fuel : ℕ) (buf : Bytes) (s : Stream) → read_body n fuel 0 buf s ≡ (ok buf, s)
  unfolding read_body
  read_body_stop zero buf s = refl
  read_body_stop (suc fuel) buf s = refl

  -- One round that gets some bytes.
  read_body_round :
      (fuel remaining : ℕ) (buf bytes : Bytes) (s s' : Stream)
      → 0 < remaining
      → n.read_buf remaining s ≡ (done bytes, s')
      → 0 < length bytes
      → read_body n (suc fuel) remaining buf s
        ≡ read_body n fuel (sub_u64 remaining (length bytes)) (buf ++ bytes) s'
  unfolding read_body
  read_body_round fuel remaining buf bytes s s' h e l = ground arith

  -- One round at the end of the stream.
  read_body_end :
      (fuel remaining : ℕ) (buf : Bytes) (s s' : Stream)
      → 0 < remaining
      → n.read_buf remaining s ≡ (done [], s')
      → read_body n (suc fuel) remaining buf s ≡ (err connection_was_closed_by_peer, s')
  unfolding read_body
  read_body_end fuel remaining buf s s' h e = rw (lt→ltb 0 remaining h, e, read_body)

  -- A round that gets some bytes, before rounds that get the others.
  read_body_join :
      (fuel : ℕ) (buf body bytes body' : Bytes) (s s1 s2 : Stream)
      → n.read_buf (length body) s ≡ (done bytes, s1)
      → 0 < length bytes
      → body ≡ bytes ++ body'
      → length body < 2 ^ 64
      → read_body n fuel (length body') (buf ++ bytes) s1 ≡ (ok ((buf ++ bytes) ++ body'), s2)
      → read_body n (suc fuel) (length body) buf s ≡ (ok (buf ++ body), s2)
  read_body_join fuel buf body bytes body' s s1 s2 r positive q w e =
      let same : length body ≡ length bytes + length body' =
        ap length q ∙ length-append bytes body' in
      let left : sub_u64 (length body) (length bytes) ≡ length body' = omega arith in
      read_body_round fuel (length body) buf bytes s s1 (omega arith) r positive
      ∙ rw left (e ∙ rw (append_assoc, ← q))

  pub read_body_done :
      (fuel : ℕ) (buf body rest : Bytes) (s : Stream)
      → IsUp s
      → pending s ≡ body ++ rest
      → length body ≤ fuel
      → length body < 2 ^ 64
      → (s' : Stream) × (read_body n fuel (length body) buf s ≡ (ok (buf ++ body), s'))
        × IsUp s'
        × (pending s' ≡ rest)
        × (written s' ≡ written s)
  read_body_done fuel buf [] rest s up e f w =
      (s, rw (append-nil buf) (read_body_stop fuel buf s), up, e, refl)
  read_body_done zero buf (x ∷ body) rest s up e f w = absurd (omega arith)
  read_body_done (suc fuel) buf (x ∷ body) rest s up e f w =
      let (bytes, s1, r, up1, p, l, some_read, w1) =
        b.read_buf_done (length (x ∷ body)) s up (omega arith) in
      let positive : 0 < length bytes = some_read (λ q. cc) in
      let (body', q1, q2) = append_split bytes (pending s1) (x ∷ body) rest (sym p ∙ e) l in
      let same : length (x ∷ body) ≡ length bytes + length body' =
        ap length q1 ∙ length-append bytes body' in
      let (s2, r2, up2, p2, w2) =
        read_body_done fuel (buf ++ bytes) body' rest s1 up1 q2 (omega arith) (omega arith) in
      (s2, read_body_join fuel buf _ bytes body' s s1 s2 r positive q1 w r2, up2, p2, w2 ∙ w1)

  -- If the stream ends before the message does, the loop says so.
  pub read_body_closed :
      (fuel remaining : ℕ) (buf : Bytes) (s : Stream)
      → IsUp s
      → length (pending s) < remaining
      → remaining ≤ fuel
      → remaining < 2 ^ 64
      → (s' : Stream) × (read_body n fuel remaining buf s ≡ (err connection_was_closed_by_peer, s'))
  read_body_closed zero remaining buf s up h f w = absurd (omega arith)
  read_body_closed (suc fuel) remaining buf s up h f w =
      let (bytes, s1, r, up1, p, l, some_read, w1) = b.read_buf_done remaining s up (omega arith) in
      let same : length (pending s) ≡ length bytes + length (pending s1) =
        ap length p ∙ length-append bytes (pending s1) in
      elim (Bool-cases (length bytes == 0)) [
        | inl t ↦
            let nothing : bytes ≡ [] = eq-nil_of_length bytes (==→eq _ _ t) in
            (s1, read_body_end fuel remaining buf s s1 (omega arith) (rw nothing at r))
        | inr t ↦
            let positive : 0 < length bytes = omega (arith, ==→ne _ _ t) in
            let (s2, e) =
              read_body_closed fuel (sub_u64 remaining (length bytes)) (buf ++ bytes) s1 up1
                (omega arith) (omega arith) (omega arith) in
            (s2, read_body_round fuel remaining buf bytes s s1 (omega arith) r positive ∙ e)
      ]
