-- ===== src/Error.antt =====
-- src/error.rs: the errors of the program, and the result of an operation. Errors of other
-- packages are told apart only as far as the source does.
use iperf3_rust.Common.{ℕ}
use iperf3_rust.Message.{ClientError, ServerError, ClientMessage, ServerMessage, StreamStats}

-- `std::io::Error`: an end of file, or the number of another error.
pub data IoError : Type 0 where
  unexpected_eof : IoError
  os_error : ℕ → IoError

-- What an operation of another package that can fail returns.
pub data Io {ℓ} (A : Type ℓ) : Type ℓ where
  done : A → Io A
  failed : IoError → Io A

pub data NetUtilError : Type 0 where
  serialize_error : NetUtilError
  io_error : IoError → NetUtilError
  control_message_too_large : ℕ → NetUtilError
  connection_was_closed_by_peer : NetUtilError

pub data StreamWorkerError : Type 0 where
  receive_error stream_worker_timeout : StreamWorkerError
  stream_worker_send_error : StreamStats → StreamWorkerError
  stream_worker_io_error : IoError → StreamWorkerError

pub data Error : Type 0 where
  io_error : IoError → Error
  worker_terminated parse_address_error : Error
  call_libc_error : IoError → Error
  stream_worker_error : StreamWorkerError → Error
  publish_worker_message_error : Error
  unexpected_server_message : ServerMessage → Error
  unexpected_client_message : ClientMessage → Error
  send_stream_stats_error : StreamStats → Error
  join_task_error : Error
  server_write_error : NetUtilError → Error
  protocol_read_timeout : Error
  server_read_error : NetUtilError → Error
  client_write_error : NetUtilError → Error
  client_read_error : NetUtilError → Error
  client_error : ClientError → Error
  server_error : ServerError → Error
