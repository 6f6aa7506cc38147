-- ===== src/Tests/OnUi.antt =====
-- The quantities and lines of a report, over fractions in place of floating-point numbers, all of
-- which print alike.
use Prim.Native.String.{◌++◌, count}
use iperf3_rust.Common.{String, ◌+◌, [], ◌∷◌, ◌++◌ as append, arith, ℕ, ◌*◌, ◌≡◌, refl, ltb, true}
use iperf3_rust.Ui.{Float, ByteUnit, rounded, kbits_sec, humanize_bytes, humanize_bitrate}
use iperf3_rust.Ui.Lines.{columns, header, print_stats, humanize_duration, text_of}
use iperf3_rust.Ui.Columns.{FitsColumns, line_before, print_stats_aligned}
use iperf3_rust.Common.Text.{show_usize}
use iperf3_rust.Outcome.{ok}
use iperf3_rust.Tests.Wire.{sample_stats}
use iperf3_rust.Ui.Units.{unit_of, Suits, in_unit, humanize_bytes-Suits, bitrate_unit_ignores_time}

-- A numerator and a denominator.
abbrev fractions : Float
fractions = record {
  F64 = ℕ × ℕ;
  as_f64 = λ n. (n, 1);
  div = λ x y. (x.0 * y.1, x.1 * y.0);
  mul = λ x y. (x.0 * y.0, x.1 * y.1);
  less = λ x y. ltb (x.0 * y.1) (y.0 * x.1);
  to_text = λ x. "1.5";
  to_fixed = λ digits x. "1.50";
}

humanize_bytes-Suits_example :
    (u : ByteUnit) × Suits 2048 u × (humanize_bytes fractions 2048 ≡ in_unit fractions 2048 u)
humanize_bytes-Suits_example = humanize_bytes-Suits fractions 2048

-- Ten seconds, and one millisecond, in which the rate is 7.2 Gbit/s.
bitrate_unit_ignores_time_example :
    unit_of (humanize_bitrate fractions 900000 10000)
    ≡ unit_of (humanize_bitrate fractions 900000 1)
bitrate_unit_ignores_time_example = bitrate_unit_ignores_time fractions 900000 10000 1 refl refl

gigabits_in_kilobits : humanize_bitrate fractions 900000 1 ≡ rounded (7200000000, 1000) kbits_sec
unfolding humanize_bitrate
gigabits_in_kilobits = refl

sample_fits : FitsColumns fractions (sample_stats 1)
unfolding show_usize humanize_duration text_of humanize_bytes humanize_bitrate
sample_fits = record {
  id = omega arith;
  index = omega arith;
  duration = omega arith;
  transfer = omega arith;
  bitrate = omega arith;
  retr = omega arith;
  cwnd = omega arith;
}

print_stats_aligned_example :
    (cells : String) × (print_stats fractions (sample_stats 1) []
      ≡ (ok tt, append (line_before fractions true) ((cells ++ "Sender") ∷ [])))
    × (count cells ≡ count header + 1)
    × (header ++ " " ≡ columns " ID" "Index" "Duration" "Transfer" "Bitrate" "Retr" "Cwnd")
print_stats_aligned_example = print_stats_aligned fractions (sample_stats 1) [] sample_fits
