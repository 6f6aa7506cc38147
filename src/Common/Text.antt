-- ===== src/Common/Text.antt =====
-- What `format!` makes of integers and of a width.
use Prim.Native.String.{String, ◌++◌, count, slice}
use Prim.Native.Nat.{ℕ, zero, suc, ◌+◌, ◌-◌, ◌*◌, ◌/◌, ◌%◌, ◌^◌, ◌≤◌, ◌<◌}
use mathlib.Core.Path.{◌≡◌, refl}
use text.Mathlib.TextLemmas.{length-append}
use native.Mathlib.Omega.{arith}
use iperf3_rust.Common.Tests.{ltb, if◌then◌else◌}

abbrev digit : ℕ → String
digit d = slice "0123456789" d (d + 1)

-- The last digits of a number, at most as many as `fuel`.
show_digits : (fuel : ℕ) → ℕ → String
show_digits zero x = ""
show_digits (suc fuel) x =
    let rest = show_digits fuel (x / 10) in (if ltb x 10 then "" else rest) ++ digit (x % 10)

-- `{}` of a `usize` or a `u64`, which has at most 20 digits.
unfoldable pub show_usize : ℕ → String
unfolding show_digits
show_usize = show_digits 20

power_of_ten : ℕ → ℕ
power_of_ten zero = 1
power_of_ten (suc k) = 10 * power_of_ten k

-- More fuel than there are digits changes nothing.
show_digits-enough :
    (fuel x : ℕ)
    → x < power_of_ten (suc fuel)
    → show_digits (suc (suc fuel)) x ≡ show_digits (suc fuel) x
unfolding show_digits power_of_ten
show_digits-enough zero x h = ground arith
show_digits-enough (suc fuel) x h = ground (arith, show_digits-enough fuel (x / 10))

show_usize-enough : (x : ℕ) → x < 2 ^ 64 → show_digits 21 x ≡ show_usize x
unfolding show_usize power_of_ten
show_usize-enough x h = show_digits-enough 19 x (omega arith)

spaces : ℕ → String
spaces zero = ""
spaces (suc k) = " " ++ spaces k

count-spaces : (k : ℕ) → count (spaces k) ≡ k
unfolding spaces
count-spaces zero = refl
count-spaces (suc k) = omega (arith, length-append " " (spaces k), count-spaces k)

-- `{:>width}`
unfoldable pub pad_left : ℕ → String → String
unfolding spaces
pad_left width s = spaces (width - count s) ++ s

pub count-pad_left : (width : ℕ) (s : String) → count s ≤ width → count (pad_left width s) ≡ width
unfolding pad_left
count-pad_left width s h =
    omega (arith, length-append (spaces (width - count s)) s, count-spaces (width - count s))

shown : show_usize 5201 ≡ "5201"
unfolding show_usize
shown = refl

padded : pad_left 6 "5201" ≡ "  5201"
unfolding pad_left
padded = refl
