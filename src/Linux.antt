-- ===== src/Linux.antt =====
-- src/net_util_linux.rs: the kernel's `struct tcp_info`, and how it is asked for.
mod Fields
pub use Fields.{TcpInfo}
unfoldable pub use Fields.{default_tcp_info}
use iperf3_rust.Common.{ℕ, ◌==◌, if◌then◌else◌}
use iperf3_rust.Error.{Error, call_libc_error, IoError}
use iperf3_rust.Outcome.{Result, ok, err}

-- One call of `getsockopt`: what it returns, as a 32-bit pattern, what it leaves in the buffer, and
-- `last_os_error` after it. The buffer is zero before, so that fields the kernel does not know
-- stay 0; that is in `filled`.
pub record TcpInfoCall : Type 0 where
  pub ret : ℕ
  pub filled : TcpInfo
  pub os_error : IoError

unfoldable pub get_tcp_info : TcpInfoCall → Result Error TcpInfo
get_tcp_info call = if call.ret == 0 then ok call.filled else err (call_libc_error call.os_error)

-- `get_tcp_info(..).unwrap_or_else(|e| { warn!(..); TcpInfo::default() })`
unfoldable pub tcp_info_or_default : TcpInfoCall → TcpInfo
unfolding get_tcp_info
tcp_info_or_default call = elim (get_tcp_info call) [ ok info ↦ info | _ ↦ default_tcp_info ]
