-- ===== src/Linux/Fields.antt =====
-- `TcpInfo` of src/net_util_linux.rs, field by field, and its `Default`.
use iperf3_rust.Common.{ℕ}

pub record TcpInfo : Type 0 where
  pub tcpi_state : ℕ  -- u8
  pub tcpi_ca_state : ℕ  -- u8
  pub tcpi_retransmits : ℕ  -- u8
  pub tcpi_probes : ℕ  -- u8
  pub tcpi_backoff : ℕ  -- u8
  pub tcpi_options : ℕ  -- u8
  pub tcpi_snd_wscale_rcv_wscale : ℕ  -- u8
  pub tcpi_delivery_rate_app_limited_fastopen_client_fail : ℕ  -- u8
  pub tcpi_rto : ℕ  -- u32
  pub tcpi_ato : ℕ  -- u32
  pub tcpi_snd_mss : ℕ  -- u32
  pub tcpi_rcv_mss : ℕ  -- u32
  pub tcpi_unacked : ℕ  -- u32
  pub tcpi_sacked : ℕ  -- u32
  pub tcpi_lost : ℕ  -- u32
  pub tcpi_retrans : ℕ  -- u32
  pub tcpi_fackets : ℕ  -- u32
  pub tcpi_last_data_sent : ℕ  -- u32
  pub tcpi_last_ack_sent : ℕ  -- u32
  pub tcpi_last_data_recv : ℕ  -- u32
  pub tcpi_last_ack_recv : ℕ  -- u32
  pub tcpi_pmtu : ℕ  -- u32
  pub tcpi_rcv_ssthresh : ℕ  -- u32
  pub tcpi_rtt : ℕ  -- u32
  pub tcpi_rttvar : ℕ  -- u32
  pub tcpi_snd_ssthresh : ℕ  -- u32
  pub tcpi_snd_cwnd : ℕ  -- u32
  pub tcpi_advmss : ℕ  -- u32
  pub tcpi_reordering : ℕ  -- u32
  pub tcpi_rcv_rtt : ℕ  -- u32
  pub tcpi_rcv_space : ℕ  -- u32
  pub tcpi_total_retrans : ℕ  -- u32
  pub tcpi_pacing_rate : ℕ  -- u64
  pub tcpi_max_pacing_rate : ℕ  -- u64
  pub tcpi_bytes_acked : ℕ  -- u64
  pub tcpi_bytes_received : ℕ  -- u64
  pub tcpi_segs_out : ℕ  -- u32
  pub tcpi_segs_in : ℕ  -- u32
  pub tcpi_notsent_bytes : ℕ  -- u32
  pub tcpi_min_rtt : ℕ  -- u32
  pub tcpi_data_segs_in : ℕ  -- u32
  pub tcpi_data_segs_out : ℕ  -- u32
  pub tcpi_delivery_rate : ℕ  -- u64
  pub tcpi_busy_time : ℕ  -- u64
  pub tcpi_rwnd_limited : ℕ  -- u64
  pub tcpi_sndbuf_limited : ℕ  -- u64
  pub tcpi_delivered : ℕ  -- u32
  pub tcpi_delivered_ce : ℕ  -- u32
  pub tcpi_bytes_sent : ℕ  -- u64
  pub tcpi_bytes_retrans : ℕ  -- u64
  pub tcpi_dsack_dups : ℕ  -- u32
  pub tcpi_reord_seen : ℕ  -- u32
  pub tcpi_rcv_ooopack : ℕ  -- u32
  pub tcpi_snd_wnd : ℕ  -- u32
  pub tcpi_rcv_wnd : ℕ  -- u32
  pub tcpi_rehash : ℕ  -- u32
  pub tcpi_total_rto : ℕ  -- u16
  pub tcpi_total_rto_recoveries : ℕ  -- u16
  pub tcpi_total_rto_time : ℕ  -- u32

unfoldable pub default_tcp_info : TcpInfo
default_tcp_info = record {
  tcpi_state = 0;
  tcpi_ca_state = 0;
  tcpi_retransmits = 0;
  tcpi_probes = 0;
  tcpi_backoff = 0;
  tcpi_options = 0;
  tcpi_snd_wscale_rcv_wscale = 0;
  tcpi_delivery_rate_app_limited_fastopen_client_fail = 0;
  tcpi_rto = 0;
  tcpi_ato = 0;
  tcpi_snd_mss = 0;
  tcpi_rcv_mss = 0;
  tcpi_unacked = 0;
  tcpi_sacked = 0;
  tcpi_lost = 0;
  tcpi_retrans = 0;
  tcpi_fackets = 0;
  tcpi_last_data_sent = 0;
  tcpi_last_ack_sent = 0;
  tcpi_last_data_recv = 0;
  tcpi_last_ack_recv = 0;
  tcpi_pmtu = 0;
  tcpi_rcv_ssthresh = 0;
  tcpi_rtt = 0;
  tcpi_rttvar = 0;
  tcpi_snd_ssthresh = 0;
  tcpi_snd_cwnd = 0;
  tcpi_advmss = 0;
  tcpi_reordering = 0;
  tcpi_rcv_rtt = 0;
  tcpi_rcv_space = 0;
  tcpi_total_retrans = 0;
  tcpi_pacing_rate = 0;
  tcpi_max_pacing_rate = 0;
  tcpi_bytes_acked = 0;
  tcpi_bytes_received = 0;
  tcpi_segs_out = 0;
  tcpi_segs_in = 0;
  tcpi_notsent_bytes = 0;
  tcpi_min_rtt = 0;
  tcpi_data_segs_in = 0;
  tcpi_data_segs_out = 0;
  tcpi_delivery_rate = 0;
  tcpi_busy_time = 0;
  tcpi_rwnd_limited = 0;
  tcpi_sndbuf_limited = 0;
  tcpi_delivered = 0;
  tcpi_delivered_ce = 0;
  tcpi_bytes_sent = 0;
  tcpi_bytes_retrans = 0;
  tcpi_dsack_dups = 0;
  tcpi_reord_seen = 0;
  tcpi_rcv_ooopack = 0;
  tcpi_snd_wnd = 0;
  tcpi_rcv_wnd = 0;
  tcpi_rehash = 0;
  tcpi_total_rto = 0;
  tcpi_total_rto_recoveries = 0;
  tcpi_total_rto_time = 0;
}
