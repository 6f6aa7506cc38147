-- ===== src/Ui/Units.antt =====
-- The unit that a quantity is shown in.
use iperf3_rust.Common.{ℕ, ◌≤◌, ◌<◌, ◌≡◌, refl, inl, inr, ltb, ltb→lt, ltb→le, false, Bool-cases}
use iperf3_rust.Constant.{
  kb, mb, gb, tb, k_bits_per_sec, m_bits_per_sec, g_bits_per_sec, t_bits_per_sec,
}
use iperf3_rust.Ui.{
  Float, ByteUnit, bytes, kbytes, mbytes, gbytes, tbytes, Quantity, integer, plain, rounded,
  humanize_bytes, humanize_bitrate, bit_rate,
}

abbrev pub unit_of : {F U : Type 0} → Quantity F U → U
unit_of (integer n u) = u
unit_of (plain x u) = u
unit_of (rounded x u) = u

abbrev pub size : ByteUnit → ℕ
size bytes = 1
size kbytes = kb
size mbytes = mb
size gbytes = gb
size tbytes = tb

-- The unit is the largest one that is not above the number.
abbrev pub Suits : ℕ → ByteUnit → Type 0
Suits n bytes = n < kb
Suits n kbytes = (kb ≤ n) × (n < mb)
Suits n mbytes = (mb ≤ n) × (n < gb)
Suits n gbytes = (gb ≤ n) × (n < tb)
Suits n tbytes = tb ≤ n

-- The number in the given unit.
abbrev pub in_unit : (f : Float) → ℕ → ByteUnit → Quantity f.F64 ByteUnit
in_unit f n bytes = integer n bytes
in_unit f n u = rounded (f.div (f.as_f64 n) (f.as_f64 (size u))) u

-- A number of bytes is shown in the largest unit that is not above it, TBytes at most, as the
-- quotient by the size of that unit, or as it is below a KByte.
pub humanize_bytes-Suits :
    (f : Float) (n : ℕ) → (u : ByteUnit) × Suits n u × (humanize_bytes f n ≡ in_unit f n u)
unfolding humanize_bytes
humanize_bytes-Suits f n = elim (Bool-cases (ltb n kb)) [
  | inl t ↦ (bytes, ltb→lt _ _ t, rw t refl)
  | inr k ↦ elim (Bool-cases (ltb n mb)) [
    | inl t ↦ (kbytes, (ltb→le _ _ k, ltb→lt _ _ t), rw (k, t) refl)
    | inr m ↦ elim (Bool-cases (ltb n gb)) [
      | inl t ↦ (mbytes, (ltb→le _ _ m, ltb→lt _ _ t), rw (k, m, t) refl)
      | inr g ↦ elim (Bool-cases (ltb n tb)) [
        | inl t ↦ (gbytes, (ltb→le _ _ g, ltb→lt _ _ t), rw (k, m, g, t) refl)
        | inr b ↦ (tbytes, ltb→le _ _ b, rw (k, m, g, b) refl)
      ]
    ]
  ]
]

-- If the bit rates of a number of bytes over two durations are both not below a kilobit, they are
-- shown in the same unit, whatever the rates are.
pub bitrate_unit_ignores_time :
    (f : Float) (n d e : ℕ)
    → f.less (bit_rate f n d) (f.as_f64 k_bits_per_sec) ≡ false
    → f.less (bit_rate f n e) (f.as_f64 k_bits_per_sec) ≡ false
    → unit_of (humanize_bitrate f n d) ≡ unit_of (humanize_bitrate f n e)
unfolding humanize_bitrate
bitrate_unit_ignores_time f n d e p q =
    rw (p, q)
      (elim (Bool-cases (ltb n m_bits_per_sec)) [
        | inl t ↦ rw t refl
        | inr m ↦ elim (Bool-cases (ltb n g_bits_per_sec)) [
          | inl t ↦ rw (m, t) refl
          | inr g ↦ elim (Bool-cases (ltb n t_bits_per_sec)) [
            | inl t ↦ rw (m, g, t) refl
            | inr b ↦ rw (m, g, b) refl
          ]
        ]
      ])
