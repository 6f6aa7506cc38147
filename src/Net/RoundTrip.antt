-- ===== src/Net/RoundTrip.antt =====
-- `read_control_message` implements `parse_frame`, and reads what `write_control_message` wrote.
use iperf3_rust.Common.{
  ℕ, ◌-◌, ◌%◌, ◌^◌, ◌≤◌, ◌<◌, ◌≡◌, refl, ◌∙◌, append_assoc, inl, inr, Option, none, some, [], ◌++◌,
  length, take, drop, append_take-drop, length-take, true, false, ltb, ltb→lt, ltb→le, le→ltb, leb,
  eq→==, Bool-cases, Option-cases, arith,
}
use iperf3_rust.Constant.{max_control_message_size}
use iperf3_rust.Error.{done, control_message_too_large, connection_was_closed_by_peer}
use iperf3_rust.Outcome.{ok, err}
use iperf3_rust.Net.Interface.{Bytes, Codec, Encodes, Net, Behaves}
use iperf3_rust.Net.Frame.{write_control_message, read_control_message, read_payload}
use iperf3_rust.Net.ReadBody.{read_body_done, read_body_closed}
use iperf3_rust.Net.Specification.{frame, decode, parse_payload, parse_frame, Leaves, Sent, Fits}

module _ (n : Net) (b : Behaves n) {A : Type 0} (c : Codec A) where
  open n use {Stream}
  open b use {IsUp, pending, written}

  abbrev Implements : Stream → Option (ℕ × Bytes) → Type 0
  Implements s parsed =
      (s' : Stream) × (read_control_message n c s ≡ ((parse_payload c parsed).0, s'))
      × Leaves b (parse_payload c parsed).1 s s'

  pub Implements-eof : (s : Stream) → IsUp s → b.get_u32 (pending s) ≡ none → Implements s none
  unfolding read_control_message
  Implements-eof s up e =
      let (s', r) = b.read_u32_eof s up e in (s', rw (r, read_control_message) refl, tt)

  read_payload_done :
      (s : Stream) (body rest : Bytes)
      → IsUp s
      → pending s ≡ body ++ rest
      → length body < 2 ^ 64
      → (s' : Stream) × (read_payload n c (length body) s ≡ (decode c body, s'))
        × Leaves b (some rest) s s'
  unfolding read_payload
  read_payload_done s body rest up e w =
      let (s', r, up', p, q) =
        read_body_done n b (length body) [] body rest s up e (omega arith) w in
      (s', rw (r, read_payload, eq→== (length body) (length body) refl) (ground arith), (up', p, q))

  read_payload_closed :
      (s : Stream) (size : ℕ)
      → IsUp s
      → length (pending s) < size
      → size < 2 ^ 64
      → (s' : Stream) × (read_payload n c size s ≡ (err connection_was_closed_by_peer, s'))
  unfolding read_payload
  read_payload_closed s size up h w =
      let (s', r) = read_body_closed n b size size [] s up h (omega arith) w in
      (s', rw (r, read_payload) refl)

  whole :
      (s : Stream) (size : ℕ) (rest : Bytes)
      → IsUp s
      → pending s ≡ rest
      → size ≤ length rest
      → size < 2 ^ 32
      → (s' : Stream) × (read_payload n c size s ≡ (decode c (take size rest), s'))
        × Leaves b (some (drop size rest)) s s'
  whole s size rest up p h w =
      let l : length (take size rest) ≡ size = length-take size rest h in
      let (s', r, left) =
        read_payload_done s (take size rest) (drop size rest) up (p ∙ append_take-drop size rest)
          (omega arith) in
      (s', rw l at r, left)

  read_small :
      (s s' : Stream) (size : ℕ)
      → n.read_u32 s ≡ (done size, s')
      → ltb max_control_message_size size ≡ false
      → read_control_message n c s ≡ read_payload n c size s'
  unfolding read_control_message
  read_small s s' size r t = rw (r, t, read_control_message) refl

  pub read_large :
      (s s' : Stream) (size : ℕ)
      → n.read_u32 s ≡ (done size, s')
      → ltb max_control_message_size size ≡ true
      → read_control_message n c s ≡ (err (control_message_too_large size), s')
  unfolding read_control_message
  read_large s s' size r t = rw (r, t, read_control_message) refl

  Implements-size :
      (s : Stream) (size : ℕ) (rest : Bytes)
      → IsUp s
      → b.get_u32 (pending s) ≡ some (size, rest)
      → Implements s (some (size, rest))
  Implements-size s size rest up e =
      let (s1, r, up1, p1, w1) = b.read_u32_done s size rest up e in
      let bound : size < 2 ^ 32 = (b.get_u32_rest (pending s) size rest e).0 in
      elim (Bool-cases (ltb max_control_message_size size)) [
        | inl large ↦ rw large (s1, read_large s s1 size r large, tt)
        | inr small ↦ elim (Bool-cases (ltb (length rest) size)) [
          | inl short ↦
              let less : length (pending s1) < size = rw p1 (ltb→lt _ _ short) in
              let (s2, r2) = read_payload_closed s1 size up1 less (omega arith) in
              rw (small, short) (s2, read_small s s1 size r small ∙ r2, tt)
          | inr enough ↦
              let (s2, r2, left) = whole s1 size rest up1 p1 (ltb→le _ _ enough) bound in
              rw (small, enough)
                (s2, read_small s s1 size r small ∙ r2, (left.0, left.1, left.2 ∙ w1))
        ]
      ]

  -- On a connection that works, however its bytes are split into reads, reading a control message
  -- gives the result of `parse_frame` on the bytes that are pending: the end of the stream within
  -- the length, a length over the maximum, the end within the payload, a payload that cannot be
  -- decoded, or the value. If the whole frame was there, exactly the bytes behind it are left, and
  -- nothing was written.
  pub read_control_message-parse_frame :
      (s : Stream)
      → IsUp s
      → (s' : Stream) × (read_control_message n c s ≡ ((parse_frame b c (pending s)).0, s'))
        × Leaves b (parse_frame b c (pending s)).1 s s'
  read_control_message-parse_frame s up = elim (Option-cases (b.get_u32 (pending s))) [
    | inl e ↦ rw e (Implements-eof s up e)
    | inr ((size, rest), e) ↦ rw e (Implements-size s size rest up e)
  ]

  -- A payload of any length that four bytes can state is written as one frame.
  pub write_frame :
      (a : A) (payload : Bytes) (s : Stream)
      → IsUp s
      → c.to_vec a ≡ some payload
      → length payload < 2 ^ 32
      → (s' : Stream) × (write_control_message n c a s ≡ (ok tt, s')) × Sent b payload s s'
  unfolding write_control_message
  write_frame a payload s up e h =
      let (s', r, up', p, w) = b.write_all_done (frame n payload) s up in
      let fits : leb (length payload) (2 ^ 32 - 1) ≡ true = ground arith in
      let exact : length payload % 2 ^ 32 ≡ length payload = omega arith in
      (s', rw (e, fits, exact, r, write_control_message) refl, (up', p, w))

  -- A value whose payload fits is written as one frame, and nothing is read.
  pub write_control_message_done :
      (a : A) (payload : Bytes) (s : Stream)
      → IsUp s
      → Encodes c a payload
      → length payload < 2 ^ 32
      → (s' : Stream) × (write_control_message n c a s ≡ (ok tt, s')) × Sent b payload s s'
  write_control_message_done a payload s up e h = write_frame a payload s up e.0 h

  -- A frame at the head of what is pending is read as the value that it encodes.
  pub read_control_message_done :
      (a : A) (payload rest : Bytes) (s : Stream)
      → IsUp s
      → Fits c a payload
      → pending s ≡ frame n payload ++ rest
      → (s' : Stream) × (read_control_message n c s ≡ (ok a, s')) × Leaves b (some rest) s s'
  read_control_message_done a payload rest s up (e, h) p =
      let parsed : b.get_u32 (pending s) ≡ some (length payload, payload ++ rest) =
        rw (p, append_assoc) (b.get_u32-put_u32 (length payload) (payload ++ rest) (omega arith)) in
      let (s1, r, up1, p1, w1) = b.read_u32_done s _ _ up parsed in
      let (s2, r2, left) = read_payload_done s1 payload rest up1 p1 (omega arith) in
      let decoded : decode c payload ≡ ok a = rw (e.1, decode) refl in
      (s2, read_small s s1 _ r (le→ltb _ _ h) ∙ rw (← decoded) r2, (left.0, left.1, left.2 ∙ w1))
