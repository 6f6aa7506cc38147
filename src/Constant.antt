-- ===== src/Constant.antt =====
-- src/constant.rs: sizes in bytes, rates in bits per second, and the limits of the protocol.
use Prim.Native.Nat.{ℕ, ◌*◌}

abbrev pub kb : ℕ
kb = 1024

abbrev pub mb : ℕ
mb = 1024 * kb

abbrev pub gb : ℕ
gb = 1024 * mb

abbrev pub tb : ℕ
tb = 1024 * gb

abbrev pub k_bits_per_sec : ℕ
k_bits_per_sec = 1000

abbrev pub m_bits_per_sec : ℕ
m_bits_per_sec = 1000 * k_bits_per_sec

abbrev pub g_bits_per_sec : ℕ
g_bits_per_sec = 1000 * m_bits_per_sec

abbrev pub t_bits_per_sec : ℕ
t_bits_per_sec = 1000 * g_bits_per_sec

abbrev pub internal_port_buffer : ℕ
internal_port_buffer = 5

-- `size_of::<u32>()`
abbrev pub message_length_size_bytes : ℕ
message_length_size_bytes = 4

abbrev pub max_control_message_size : ℕ
max_control_message_size = 20 * mb

abbrev pub default_block_size : ℕ
default_block_size = 2 * mb

abbrev pub default_interval_sec : ℕ
default_interval_sec = 1

-- Seconds.
abbrev pub protocol_timeout : ℕ
protocol_timeout = 10
