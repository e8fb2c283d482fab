-- ===== src/Prelude/Decimal.antt =====
-- `str(n)` of a number, and the two hexadecimal digits of `f"{n:02x}"`.
use Prim.Native.Nat.{ℕ, zero, suc, ◌+◌, ◌/◌, ◌%◌}
use Prim.Native.String.{String, ◌++◌ as ◌<>◌}
use mathlib.Core.Path.{◌≡◌, refl}
use fsamp_processor.Prelude.Tests.{ltb, if◌then◌else◌}

abbrev hex_digits : ℕ → String
hex_digits zero = "0"
hex_digits (suc zero) = "1"
hex_digits (suc (suc zero)) = "2"
hex_digits (suc (suc (suc zero))) = "3"
hex_digits (suc (suc (suc (suc zero)))) = "4"
hex_digits (suc (suc (suc (suc (suc zero))))) = "5"
hex_digits (suc (suc (suc (suc (suc (suc zero)))))) = "6"
hex_digits (suc (suc (suc (suc (suc (suc (suc zero))))))) = "7"
hex_digits (suc (suc (suc (suc (suc (suc (suc (suc zero)))))))) = "8"
hex_digits (suc (suc (suc (suc (suc (suc (suc (suc (suc zero))))))))) = "9"
hex_digits (suc (suc (suc (suc (suc (suc (suc (suc (suc (suc zero)))))))))) = "a"
hex_digits (suc (suc (suc (suc (suc (suc (suc (suc (suc (suc (suc zero))))))))))) = "b"
hex_digits (suc (suc (suc (suc (suc (suc (suc (suc (suc (suc (suc (suc zero)))))))))))) = "c"
hex_digits (suc (suc (suc (suc (suc (suc (suc (suc (suc (suc (suc (suc (suc zero))))))))))))) = "d"
hex_digits
      (suc (suc (suc (suc (suc (suc (suc (suc (suc (suc (suc (suc (suc (suc zero)))))))))))))) =
    "e"
hex_digits _ = "f"

unfoldable pub hex_byte : ℕ → String
hex_byte n = hex_digits (n / 16 % 16) <> hex_digits (n % 16)

-- The digits of `n` in front of `tail`. A number has fewer digits than `n + 1`.
digits_from : ℕ → ℕ → String → String
digits_from zero n tail = tail
digits_from (suc fuel) n tail =
    let text = hex_digits (n % 10) <> tail in
    let rest = digits_from fuel (n / 10) text in if ltb n 10 then text else rest

unfoldable pub str_nat : ℕ → String
unfolding digits_from
str_nat n = digits_from (n + 1) n ""

abbrev shown : String
shown = str_nat 1700000042 <> hex_byte 11

str_nat_runs : shown ≡ "17000000420b"
unfolding str_nat hex_byte
str_nat_runs = refl
