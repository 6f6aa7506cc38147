-- ===== src/Net/Delivery.antt =====
-- What one side writes on a working connection is what the other side reads.
use iperf3_rust.Common.{◌≡◌, refl, some, ◌++◌, arith}
use iperf3_rust.Message.{ClientMessage, ServerMessage, ServerError, ClientEnvelope, ServerEnvelope}
use iperf3_rust.Error.{server_error}
use iperf3_rust.Outcome.{ok, err}
use iperf3_rust.Net.Interface.{Bytes, Net, Behaves}
use iperf3_rust.Net.Messages.{
  client_write_message, client_read_message, server_write_message, server_write_error,
  server_read_message,
}
use iperf3_rust.Net.RoundTrip.{write_control_message_done, read_control_message_done}
use iperf3_rust.Net.Specification.{frame, Leaves, Sent, Fits}

module _ (n : Net) (b : Behaves n) where
  open n use {Stream, client_codec, server_codec}
  open b use {IsUp, pending, written}

  module _ (payload : Bytes) (s : Stream) (up : IsUp s) where
    pub client_write_message_done :
        (m : ClientMessage)
        → Fits client_codec (ClientEnvelope.message m) payload
        → (s' : Stream) × (client_write_message n m s ≡ (ok tt, s')) × Sent b payload s s'
    unfolding client_write_message
    client_write_message_done m (e, h) =
        let (s', r, sent) =
          write_control_message_done n b client_codec _ payload s up e (omega arith) in
        (s', rw r refl, sent)

    pub server_write_message_done :
        (m : ServerMessage)
        → Fits server_codec (ServerEnvelope.message m) payload
        → (s' : Stream) × (server_write_message n m s ≡ (ok tt, s')) × Sent b payload s s'
    unfolding server_write_message
    server_write_message_done m (e, h) =
        let (s', r, sent) =
          write_control_message_done n b server_codec _ payload s up e (omega arith) in
        (s', rw r refl, sent)

    pub server_write_error_done :
        (m : ServerError)
        → Fits server_codec (ServerEnvelope.error m) payload
        → (s' : Stream) × (server_write_error n m s ≡ (ok tt, s')) × Sent b payload s s'
    unfolding server_write_error
    server_write_error_done m (e, h) =
        let (s', r, sent) =
          write_control_message_done n b server_codec _ payload s up e (omega arith) in
        (s', rw r refl, sent)

    module _ (rest : Bytes) (p : pending s ≡ frame n payload ++ rest) where
      pub server_read_message_done :
          (m : ClientMessage)
          → Fits client_codec (ClientEnvelope.message m) payload
          → (s' : Stream) × (server_read_message n s ≡ (ok m, s')) × Leaves b (some rest) s s'
      unfolding server_read_message
      server_read_message_done m h =
          let (s', r, left) = read_control_message_done n b client_codec _ payload rest s up h p in
          (s', rw r refl, left)

      pub client_read_message_done :
          (m : ServerMessage)
          → Fits server_codec (ServerEnvelope.message m) payload
          → (s' : Stream) × (client_read_message n s ≡ (ok m, s')) × Leaves b (some rest) s s'
      unfolding client_read_message
      client_read_message_done m h =
          let (s', r, left) = read_control_message_done n b server_codec _ payload rest s up h p in
          (s', rw r refl, left)

      -- An error that the server sends becomes the error of the client's read.
      pub client_read_message_refused :
          (m : ServerError)
          → Fits server_codec (ServerEnvelope.error m) payload
          → (s' : Stream) × (client_read_message n s ≡ (err (server_error m), s'))
            × Leaves b (some rest) s s'
      unfolding client_read_message
      client_read_message_refused m h =
          let (s', r, left) = read_control_message_done n b server_codec _ payload rest s up h p in
          (s', rw r refl, left)
