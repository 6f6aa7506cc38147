-- ===== src/Net/Messages.antt =====
-- The functions by which the two sides write and read: the envelope round a message or an error.
use iperf3_rust.Message.{
  ClientError, ServerError, ClientMessage, ServerMessage, ClientEnvelope, ServerEnvelope,
}
use iperf3_rust.Error.{Error, client_error, server_error}
use iperf3_rust.Outcome.{Action, ◌>>=◌, pure, throw, mapping_error}
use iperf3_rust.Net.Interface.{Net}
use iperf3_rust.Net.Frame.{write_control_message, read_control_message}

-- The `match` on what was read, with `From<ServerError>` and `From<ClientError>`.
abbrev pub open_server_envelope : {S : Type 0} → ServerEnvelope → Action Error S ServerMessage
open_server_envelope (ServerEnvelope.message m) = pure m
open_server_envelope (ServerEnvelope.error e) = throw (server_error e)

abbrev pub open_client_envelope : {S : Type 0} → ClientEnvelope → Action Error S ClientMessage
open_client_envelope (ClientEnvelope.message m) = pure m
open_client_envelope (ClientEnvelope.error e) = throw (client_error e)

module _ (n : Net) where
  open n use {Stream, client_codec, server_codec}

  unfoldable pub client_write_message : ClientMessage → Action Error Stream (Unit {0})
  client_write_message m =
      mapping_error Error.client_write_error
        (write_control_message n client_codec (ClientEnvelope.message m))

  unfoldable pub client_write_error : ClientError → Action Error Stream (Unit {0})
  client_write_error e =
      mapping_error Error.client_write_error
        (write_control_message n client_codec (ClientEnvelope.error e))

  unfoldable pub server_write_message : ServerMessage → Action Error Stream (Unit {0})
  server_write_message m =
      mapping_error Error.server_write_error
        (write_control_message n server_codec (ServerEnvelope.message m))

  unfoldable pub server_write_error : ServerError → Action Error Stream (Unit {0})
  server_write_error e =
      mapping_error Error.server_write_error
        (write_control_message n server_codec (ServerEnvelope.error e))

  unfoldable pub client_read_message : Action Error Stream ServerMessage
  client_read_message = do
    envelope ← mapping_error Error.client_read_error (read_control_message n server_codec)
    open_server_envelope envelope

  unfoldable pub server_read_message : Action Error Stream ClientMessage
  server_read_message = do
    envelope ← mapping_error Error.server_read_error (read_control_message n client_codec)
    open_client_envelope envelope
