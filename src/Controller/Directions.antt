-- ===== src/Controller/Directions.antt =====
-- Client and server count the same streams, and are at opposite ends of each.
use iperf3_rust.Common.{
  ℕ, ◌+◌, ◌^◌, ◌≤◌, ◌<◌, ◌≡◌, String, not, ◌&&◌, ◌||◌, if◌then◌else◌, Option, none, arith,
}
use iperf3_rust.Message.Opts.{ClientOpts}
use iperf3_rust.Message.{from_opts, client, server, bidirectional, Parameters}
use iperf3_rust.Net.Interface.{Net}
use iperf3_rust.Perf.{Perf, new_with_stats_receiver}
use iperf3_rust.Controller.Streams.{total_streams, is_sending_end}

-- The two sides of one test: what `start_client` and `create_perf` make of the same parameters.
module _ (n : Net) {Stats Stats' : Type 0} (bind_address server_address : Option String)
    (cookie : String) (params : Parameters) (client_socket server_socket : n.Stream)
    (client_tx : Stats) (server_tx : Stats') where
  abbrev pub client_side : Perf n Stats
  client_side =
      new_with_stats_receiver bind_address server_address cookie client params client_socket
        client_tx

  abbrev pub server_side : Perf n Stats'
  server_side = new_with_stats_receiver none none cookie server params server_socket server_tx

  -- Client and server wait for the same number of streams, whatever the parameters.
  pub total_streams_agree : total_streams client_side ≡ total_streams server_side
  unfolding new_with_stats_receiver
  total_streams_agree = ground arith

  -- For every stream number below the client's total number of streams, exactly one of the two
  -- sides is the sending end: the client's `is_sending` is the negation of the server's, in each
  -- direction of the test.
  pub ends_opposite :
      (i : ℕ)
      → i < total_streams client_side
      → is_sending_end client_side i ≡ not (is_sending_end server_side i)
  unfolding new_with_stats_receiver is_sending_end
  ends_opposite i h = ground arith

  -- In a bidirectional test with at least 2^15 and fewer than 2^16 parallel streams, the 16-bit
  -- total is 2^16 less than twice the number of parallel streams.
  pub total_streams_wraps :
      params.direction ≡ bidirectional
      → 2 ^ 15 ≤ params.parallel
      → params.parallel < 2 ^ 16
      → total_streams client_side + 2 ^ 16 ≡ params.parallel + params.parallel
  unfolding new_with_stats_receiver
  total_streams_wraps d h k = ground arith

  -- With fewer than 2^15 parallel streams, the total of a client is the sum of its sending and
  -- receiving streams, with no overflow.
  total_streams_exact :
      params.parallel < 2 ^ 15
      → total_streams client_side ≡ client_side.num_send_streams + client_side.num_receive_streams
  unfolding new_with_stats_receiver
  total_streams_exact h = ground arith

module _ (n : Net) {Stats Stats' : Type 0} (bind_address server_address : Option String)
    (version cookie : String) (opts : ClientOpts) (client_socket server_socket : n.Stream)
    (client_tx : Stats) (server_tx : Stats') where
  -- If the options ask for fewer than 2^15 parallel streams, the client sends on that many
  -- streams, or on none if only the reverse direction is asked for, and receives on that many if
  -- the reverse or both directions are asked for; the server has the two numbers the other way
  -- round, and the total of either side is their sum, with no overflow.
  pub options_streams :
      opts.parallel < 2 ^ 15
      → let params = from_opts version opts in
        let c : Perf n Stats =
          client_side n bind_address server_address cookie params client_socket server_socket
            client_tx server_tx in
        let s : Perf n Stats' =
          server_side n bind_address server_address cookie params client_socket server_socket
            client_tx server_tx in
        (c.num_send_streams ≡ (if opts.reverse && not opts.bidir then 0 else opts.parallel))
        × (c.num_receive_streams ≡ (if opts.reverse || opts.bidir then opts.parallel else 0))
        × (s.num_send_streams ≡ c.num_receive_streams)
        × (s.num_receive_streams ≡ c.num_send_streams)
        × (total_streams c ≡ c.num_send_streams + c.num_receive_streams)
        × (total_streams s ≡ total_streams c)
  unfolding new_with_stats_receiver from_opts
  options_streams h =
      (ground arith, ground arith, ground arith, ground arith, ground arith, ground arith)
