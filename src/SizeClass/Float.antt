-- ===== src/SizeClass/Float.antt =====
-- The C `double` arithmetic of size_class_init, on values from 1 up: IEEE 754 binary64 with rounding
-- to nearest, ties to even. The value is `mantissa * 2 ^ exponent / 2 ^ 52`.
use malloc.Common.{ℕ, ◌+◌, ◌*◌, ◌/◌, ◌%◌, ◌^◌, Bool, ltb, if◌then◌else◌}

pub record Double : Type 0 where
  pub mantissa : ℕ
  pub exponent : ℕ

-- `(double)SMALL_MAX`, which is 2 ^ 7
abbrev pub small_max_double : Double
small_max_double = record { mantissa = 2 ^ 52; exponent = 7 }

-- p / d to the nearest integer, ties to even
round_even : ℕ → ℕ → ℕ
round_even p d =
    let q = p / d in
    let r = p % d in if ltb (2 * r) d then q else if ltb d (2 * r) then q + 1 else q + q % 2

-- `x * 1.125`. The exact mantissa is `9 * m / 8`; past 53 bits one more bit is rounded off.
unfoldable pub times_1_125 : Double → Double
unfolding round_even
times_1_125 x =
    let p = x.mantissa * 9 in
    if ltb p (2 ^ 56)
    then record { mantissa = round_even p 8; exponent = x.exponent }
    else record { mantissa = round_even p 16; exponent = x.exponent + 1 }

-- `(size_t)x`
unfoldable pub to_size_t : Double → ℕ
to_size_t x = x.mantissa * 2 ^ x.exponent / 2 ^ 52

-- `x < (double)n`
unfoldable pub lt_ℕ : Double → ℕ → Bool
lt_ℕ x n = ltb (x.mantissa * 2 ^ x.exponent) (n * 2 ^ 52)
