-- ===== src/Ui.antt =====
-- src/ui.rs: the quantities that a report shows, before they are printed.
pub mod Units
pub mod Lines
pub mod Columns
use iperf3_rust.Common.{ℕ, String, ◌*◌, ◌%◌, ◌^◌, Bool, ltb, if◌then◌else◌}
use iperf3_rust.Constant.{
  kb, mb, gb, tb, k_bits_per_sec, m_bits_per_sec, g_bits_per_sec, t_bits_per_sec,
}

-- What is used of `f64`: `as f64`, two operations, the order and the text.
pub record Float : Type 1 where
  pub F64 : Type 0
  pub as_f64 : ℕ → F64
  pub div : F64 → F64 → F64
  pub mul : F64 → F64 → F64
  pub less : F64 → F64 → Bool
  -- `{}` and `{:.digits$}`
  pub to_text : F64 → String
  pub to_fixed : (digits : ℕ) → F64 → String

pub data ByteUnit : Type 0 where
  bytes kbytes mbytes gbytes tbytes : ByteUnit

pub data RateUnit : Type 0 where
  bits_sec kbits_sec mbits_sec gbits_sec tbits_sec : RateUnit

-- The formats `{}` of an integer, `{}` of a float, and `{:.2}`, each with the unit behind it.
pub data Quantity (F64 U : Type 0) : Type 0 where
  integer : ℕ → U → Quantity F64 U
  plain : F64 → U → Quantity F64 U
  rounded : F64 → U → Quantity F64 U

module _ (f : Float) where
  open f use {F64, as_f64, div, mul, less}

  unfoldable pub humanize_bytes : ℕ → Quantity F64 ByteUnit
  humanize_bytes n =
      if ltb n kb
      then integer n bytes
      else if ltb n mb
      then rounded (div (as_f64 n) (as_f64 kb)) kbytes
      else if ltb n gb
      then rounded (div (as_f64 n) (as_f64 mb)) mbytes
      else if ltb n tb
      then rounded (div (as_f64 n) (as_f64 gb)) gbytes
      else rounded (div (as_f64 n) (as_f64 tb)) tbytes

  -- `rate`, in bits per second; the product by 8 is one in `usize`.
  abbrev pub bit_rate : ℕ → ℕ → F64
  bit_rate n duration_millis =
      mul (div (as_f64 (n * 8 % 2 ^ 64)) (as_f64 duration_millis)) (as_f64 1000)

  unfoldable pub humanize_bitrate : ℕ → ℕ → Quantity F64 RateUnit
  humanize_bitrate n duration_millis =
      let rate = bit_rate n duration_millis in
      if less rate (as_f64 k_bits_per_sec)
      then plain rate bits_sec
      else if ltb n m_bits_per_sec
      then rounded (div rate (as_f64 k_bits_per_sec)) kbits_sec
      else if ltb n g_bits_per_sec
      then rounded (div rate (as_f64 m_bits_per_sec)) mbits_sec
      else if ltb n t_bits_per_sec
      then rounded (div rate (as_f64 g_bits_per_sec)) gbits_sec
      else rounded (div rate (as_f64 t_bits_per_sec)) tbits_sec
