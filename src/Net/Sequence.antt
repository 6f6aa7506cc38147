-- ===== src/Net/Sequence.antt =====
-- Several control messages one after the other on one connection.
use iperf3_rust.Common.{
  ℕ, zero, suc, ◌≡◌, refl, sym, ap, ◌∙◌, List, [], ◌∷◌, ◌++◌, length, append_assoc, append-nil,
  append_cancel_left, arith,
}
use iperf3_rust.Error.{NetUtilError}
use iperf3_rust.Outcome.{ok, Action, continue_with}
use iperf3_rust.Net.Interface.{Bytes, Codec, Net, Behaves}
use iperf3_rust.Net.Frame.{write_control_message, read_control_message}
use iperf3_rust.Net.RoundTrip.{write_control_message_done, read_control_message_done}
use iperf3_rust.Net.Specification.{frame, Fits}

abbrev pub values_of : {A : Type 0} → List (A × Bytes) → List A
values_of [] = []
values_of ((a, payload) ∷ messages) = a ∷ values_of messages

module _ (n : Net) {A : Type 0} (c : Codec A) where
  unfoldable pub write_each : List A → Action NetUtilError n.Stream (Unit {0})
  write_each [] s = (ok tt, s)
  write_each (a ∷ values) s =
      continue_with (write_control_message n c a s) λ _ s'. write_each values s'

  unfoldable pub read_each : ℕ → Action NetUtilError n.Stream (List A)
  read_each zero s = (ok [], s)
  read_each (suc k) s =
      continue_with (read_control_message n c s)
        λ a s'. continue_with (read_each k s') λ values s''. (ok (a ∷ values), s'')

  -- Values with their payloads.
  abbrev pub AllFit : List (A × Bytes) → Type 0
  AllFit [] = Unit
  AllFit ((a, payload) ∷ messages) = Fits c a payload × AllFit messages

  abbrev pub frames : List (A × Bytes) → Bytes
  frames [] = []
  frames ((a, payload) ∷ messages) = frame n payload ++ frames messages

  module _ (b : Behaves n) where
    open b use {IsUp, pending, written}

    write_each_done :
        (messages : List (A × Bytes)) (s : n.Stream)
        → IsUp s
        → AllFit messages
        → (s' : n.Stream) × (write_each (values_of messages) s ≡ (ok tt, s'))
          × (written s' ≡ written s ++ frames messages)
    unfolding write_each
    write_each_done [] s up fits = (s, refl, sym (append-nil (written s)))
    write_each_done ((a, payload) ∷ messages) s up ((e, l), fits) =
        let (s1, r, sent) = write_control_message_done n b c a payload s up e (omega arith) in
        let (s2, r2, sent2) = write_each_done messages s1 sent.0 fits in
        (
          s2,
          rw (r, write_each) r2,
          sent2
              ∙ ap (λ x. x ++ frames messages) sent.2
              ∙ append_assoc (written s) (frame n payload) (frames messages),
        )

    read_each_done :
        (messages : List (A × Bytes)) (rest : Bytes) (s : n.Stream)
        → IsUp s
        → AllFit messages
        → pending s ≡ frames messages ++ rest
        → (s' : n.Stream) × (read_each (length messages) s ≡ (ok (values_of messages), s'))
          × (pending s' ≡ rest)
          × (written s' ≡ written s)
    unfolding read_each
    read_each_done [] rest s up fits p = (s, refl, p, refl)
    read_each_done ((a, payload) ∷ messages) rest s up (fit, fits) p =
        let (s1, r, left) =
          read_control_message_done n b c a payload (frames messages ++ rest) s up fit
            (p ∙ append_assoc (frame n payload) (frames messages) rest) in
        let (s2, r2, left2, kept2) = read_each_done messages rest s1 left.0 fits left.1 in
        (s2, rw (r, r2, read_each) refl, left2, kept2 ∙ left.2)

    -- If each value of a list has an encoding that fits, both connections work, and the bytes that
    -- writing all of them adds stand at the head of what is pending for the reader, then the
    -- writes succeed, reading as many messages gives the values in their order, the bytes behind
    -- them are left to the reader, and it has written nothing.
    pub messages_in_order :
        (messages : List (A × Bytes)) (sent rest : Bytes) (w r : n.Stream)
        → IsUp w
        → IsUp r
        → AllFit messages
        → written (write_each (values_of messages) w).1 ≡ written w ++ sent
        → pending r ≡ sent ++ rest
        → (w' r' : n.Stream) × (write_each (values_of messages) w ≡ (ok tt, w'))
          × (read_each (length messages) r ≡ (ok (values_of messages), r'))
          × (pending r' ≡ rest)
          × (written r' ≡ written r)
    messages_in_order messages sent rest w r upw upr fits q p =
        let (w', wrote, all) = write_each_done messages w upw fits in
        let same : sent ≡ frames messages =
          append_cancel_left (written w) sent (frames messages)
            (sym q ∙ ap (λ x. written (x.1)) wrote ∙ all) in
        let (r', got, left, kept) =
          read_each_done messages rest r upr fits (p ∙ ap (λ x. x ++ rest) same) in
        (w', r', wrote, got, left, kept)
