-- ===== src/Net/Oversize.antt =====
-- A message over the limit of the readers.
use iperf3_rust.Common.{◌^◌, ◌<◌, ◌≡◌, some, ◌++◌, length, append_assoc, lt→ltb}
use iperf3_rust.Constant.{max_control_message_size}
use iperf3_rust.Error.{control_message_too_large}
use iperf3_rust.Outcome.{ok, err}
use iperf3_rust.Net.Interface.{Bytes, Codec, Net, Behaves}
use iperf3_rust.Net.Frame.{write_control_message, read_control_message}
use iperf3_rust.Net.Specification.{frame}
use iperf3_rust.Net.RoundTrip.{write_frame, read_large}

-- If a payload is larger than the maximum of a control message and smaller than 2^32 bytes, both
-- connections work, and its frame is at the head of what is pending for the reader, then the write
-- succeeds and adds the whole frame, and the read fails with the error for a message that is too
-- large, with the payload left unread.
pub oversize_refused :
    (n : Net) (b : Behaves n) {A : Type 0} (c : Codec A) (a : A) (payload rest : Bytes)
    (w r : n.Stream)
    → b.IsUp w
    → b.IsUp r
    → c.to_vec a ≡ some payload
    → max_control_message_size < length payload
    → length payload < 2 ^ 32
    → b.pending r ≡ frame n payload ++ rest
    → (w' r' : n.Stream) × (write_control_message n c a w ≡ (ok tt, w'))
      × (b.written w' ≡ b.written w ++ frame n payload)
      × (read_control_message n c r ≡ (err (control_message_too_large (length payload)), r'))
      × (b.pending r' ≡ payload ++ rest)
oversize_refused n b c a payload rest w r upw upr e large h p =
    let (w', wrote, sent) = write_frame n b c a payload w upw e h in
    let parsed : b.get_u32 (b.pending r) ≡ some (length payload, payload ++ rest) =
      rw (p, append_assoc) (b.get_u32-put_u32 (length payload) (payload ++ rest) h) in
    let (r', got, up, left, written) = b.read_u32_done r _ _ upr parsed in
    (w', r', wrote, sent.2, read_large n b c r r' (length payload) got (lt→ltb _ _ large), left)
