-- ===== src/Ui/Lines.antt =====
-- The lines that src/ui.rs prints, and the loops of `run_client` and `run_server`. A
-- console is the list of the lines on it.
use Prim.Native.String.{◌++◌}
use iperf3_rust.Common.{
  ℕ, String, Bool, Option, none, some, List, [], ◌∷◌, ◌++◌ as append, if◌then◌else◌,
}
use iperf3_rust.Common.Text.{show_usize, pad_left}
use iperf3_rust.Message.{StreamStats}
use iperf3_rust.Message.Opts.{CommonOpts, ClientOpts}
use iperf3_rust.Error.{Error}
use iperf3_rust.Outcome.{Result, ok, panic, Action, ◌>>=◌, ◌>>◌}
use iperf3_rust.Ui.{
  Float, ByteUnit, bytes, kbytes, mbytes, gbytes, tbytes, RateUnit, bits_sec, kbits_sec, mbits_sec,
  gbits_sec, tbits_sec, Quantity, integer, plain, rounded, humanize_bytes, humanize_bitrate,
}

abbrev pub Printing : Type 0
Printing = Action Error (List String) (Unit {0})

unfoldable pub println : String → Printing
println line console = (ok tt, append console (line ∷ []))

-- `unwrap`
abbrev pub unwrap : {A : Type 0} → Option A → Action Error (List String) A
unwrap (some a) console = (ok a, console)
unwrap none console = (panic, console)

abbrev pub unwrap_ok : {A : Type 0} → Result Error A → Action Error (List String) A
unwrap_ok (ok a) console = (ok a, console)
unwrap_ok _ console = (panic, console)

abbrev dashes : String
dashes = "-------------------------------------------------"

abbrev stars : String
stars = "*************************************************"

abbrev pub header : String
header = "[ ID]     Index   Duration        Transfer            Bitrate     Retr            Cwnd"

abbrev pub byte_unit : ByteUnit → String
byte_unit bytes = "Bytes"
byte_unit kbytes = "KBytes"
byte_unit mbytes = "MBytes"
byte_unit gbytes = "GBytes"
byte_unit tbytes = "TBytes"

abbrev pub rate_unit : RateUnit → String
rate_unit bits_sec = "Bits/sec"
rate_unit kbits_sec = "Kbits/sec"
rate_unit mbits_sec = "Mbits/sec"
rate_unit gbits_sec = "Gbits/sec"
rate_unit tbits_sec = "Tbits/sec"

-- `map_or("None".to_string(), ..)`
abbrev pub or_none : (ℕ → String) → Option ℕ → String
or_none show none = "None"
or_none show (some x) = show x

abbrev pub index_or_zero : Option ℕ → ℕ
index_or_zero none = 0
index_or_zero (some index) = index

-- The seven columns of the format, up to the one that says which end it is.
unfoldable pub columns : (id index duration transfer bitrate retr cwnd : String) → String
columns id index duration transfer bitrate retr cwnd =
    "["
    ++ pad_left 3 id
    ++ "]     "
    ++ pad_left 5 index
    ++ " "
    ++ pad_left 10 duration
    ++ " "
    ++ pad_left 15 transfer
    ++ " "
    ++ pad_left 18 bitrate
    ++ " "
    ++ pad_left 8 retr
    ++ " "
    ++ pad_left 15 cwnd
    ++ " "

abbrev pub which_end : Bool → String
which_end is_sending = if is_sending then "Sender" else "Receiver"

module _ (f : Float) where
  unfoldable pub text_of : {U : Type 0} → (U → String) → Quantity f.F64 U → String
  text_of unit (integer x u) = show_usize x ++ " " ++ unit u
  text_of unit (plain x u) = f.to_text x ++ " " ++ unit u
  text_of unit (rounded x u) = f.to_fixed 2 x ++ " " ++ unit u

  unfoldable pub humanize_duration : ℕ → String
  humanize_duration duration_millis =
      f.to_fixed 2 (f.div (f.as_f64 duration_millis) (f.as_f64 1000)) ++ " sec"

  abbrev pub bytes_text : ℕ → String
  bytes_text x = text_of byte_unit (humanize_bytes f x)

  abbrev pub bitrate_text : ℕ → ℕ → String
  bitrate_text x duration_millis = text_of rate_unit (humanize_bitrate f x duration_millis)

  abbrev pub row : (index : String) → StreamStats → String
  row index stats =
      columns (show_usize stats.id) index (humanize_duration stats.duration)
        (bytes_text stats.bytes_transferred) (bitrate_text stats.bytes_transferred stats.duration)
        (or_none show_usize stats.retransmits) (or_none bytes_text stats.cwnd)
      ++ which_end stats.is_sending

  unfoldable pub print_normal_stats : StreamStats → Printing
  print_normal_stats stats = println (row (show_usize (index_or_zero stats.index)) stats)

  unfoldable pub print_summary_stats : StreamStats → Printing
  print_summary_stats stats = do
    println
        "- - - - - - - - - - - - - - - - - - - - - - - - - - - - - - - - - - - - - - - - - - - - - - - - -"
    println (row "TOTAL" stats)

  unfoldable pub print_stats : StreamStats → Printing
  unfolding print_normal_stats print_summary_stats
  print_stats stats =
      if stats.is_summary then print_summary_stats stats else print_normal_stats stats

  -- `while let Some(stats) = rx.recv().await`, for what the channel yields until it is closed.
  unfoldable pub print_all : List StreamStats → Printing
  print_all [] console = (ok tt, console)
  print_all (stats ∷ received) console = (do print_stats stats; print_all received) console

abbrev pub bind_text : Option String → String
bind_text none = ""
bind_text (some bind) = "(bind " ++ bind ++ ")"

unfoldable pub print_header : Printing
print_header = println header

unfoldable pub print_client_banner : CommonOpts → ClientOpts → Printing
print_client_banner common_opt client_opts = do
  println dashes
  client ← unwrap client_opts.client
  println (
      "Client connecting to "
      ++ client
      ++ ":"
      ++ show_usize common_opt.port
      ++ " "
      ++ bind_text common_opt.bind)
  println dashes

unfoldable pub print_server_banner : CommonOpts → Printing
print_server_banner common_opt = do
  println dashes
  println (
      "Server listening on port " ++ show_usize common_opt.port ++ " " ++ bind_text common_opt.bind)
  println dashes

unfoldable pub print_accept : String → Printing
print_accept peer_addr = do
  println stars
  println ("Accepted connection from " ++ peer_addr)
  println stars

module _ (f : Float) where
  -- `started` is the result of `start_client`, with what its receiver yields.
  unfoldable pub run_client : CommonOpts → ClientOpts → Result Error (List StreamStats) → Printing
  unfolding print_client_banner print_header print_all
  run_client common_opts client_opts started = do
    print_client_banner common_opts client_opts
    rx ← unwrap_ok started
    print_header
    print_all f rx

  -- The tests of a server one after the other, each with the address of its peer.
  unfoldable pub print_tests : List (String × List StreamStats) → Printing
  print_tests [] console = (ok tt, console)
  print_tests ((peer_addr, received) ∷ tests) console =
      (do print_accept peer_addr; print_all f received; print_tests tests) console

  unfoldable pub run_server :
      CommonOpts → Result Error (List (String × List StreamStats)) → Printing
  unfolding print_server_banner print_tests
  run_server common_opts started = do
    print_server_banner common_opts
    perf_stats_receiver ← unwrap_ok started
    print_tests perf_stats_receiver
