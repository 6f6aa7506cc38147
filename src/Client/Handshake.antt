-- ===== src/Client/Handshake.antt =====
-- The client's side of the handshake.
use iperf3_rust.Common.{String, ◌≡◌, refl, ap, ◌∙◌, ◌++◌}
use iperf3_rust.Message.{ClientMessage, ServerMessage, ClientEnvelope, ServerEnvelope, Parameters}
use iperf3_rust.Outcome.{ok}
use iperf3_rust.Net.Interface.{Bytes, Net, Behaves}
use iperf3_rust.Net.Specification.{frame, Fits}
use iperf3_rust.Net.Delivery.{client_write_message_done, client_read_message_done}
use iperf3_rust.Client.{introduce}

module _ {n : Net} (b : Behaves n) where
  open n use {client_codec, server_codec}

  -- On a working connection the client introduces itself, and leaves what is behind the welcome.
  pub introduce_done :
      (cookie : String) (params : Parameters) (hello welcome parameters rest : Bytes) (s : n.Stream)
      → b.IsUp s
      → b.pending s ≡ frame n welcome ++ rest
      → Fits client_codec (ClientEnvelope.message (ClientMessage.hello cookie)) hello
      → Fits server_codec (ServerEnvelope.message ServerMessage.welcome) welcome
      → Fits client_codec (ClientEnvelope.message (ClientMessage.send_parameters params)) parameters
      → (s' : n.Stream) × (introduce n cookie params s ≡ (ok tt, s'))
        × b.IsUp s'
        × (b.pending s' ≡ rest)
        × (b.written s' ≡ (b.written s ++ frame n hello) ++ frame n parameters)
  unfolding introduce
  introduce_done cookie params hello welcome parameters rest s up p fh fw fp =
      let (s1, r1, sent) = client_write_message_done n b hello s up _ fh in
      let (s2, r2, left) = client_read_message_done n b welcome s1 sent.0 rest (sent.1 ∙ p) _ fw in
      let (s3, r3, sent') = client_write_message_done n b parameters s2 left.0 _ fp in
      (
        s3,
        rw (r1, r2, r3) refl,
        sent'.0,
        sent'.1 ∙ left.1,
        sent'.2 ∙ ap (λ x. x ++ frame n parameters) (left.2 ∙ sent.2),
      )
