-- ===== src/Prelude/Int64.antt =====
-- Go's int64, as its 64-bit pattern in two's complement.
use shclop.Prelude.{ℕ, ◌+◌, ◌%◌, ◌^◌, ◌<◌, ◌≡◌, Bool, true, arith, ltb}

-- `r + 1`
abbrev pub inc_int64 : ℕ → ℕ
inc_int64 r = (r + 1) % 2 ^ 64

-- `a < b`: the order of the patterns once the sign bit is flipped.
abbrev pub lt_int64 : ℕ → ℕ → Bool
lt_int64 a b = ltb ((a + 2 ^ 63) % 2 ^ 64) ((b + 2 ^ 63) % 2 ^ 64)

-- Below the largest value, one more is a larger non-negative value.
pub inc_int64-no_wrap : (r : ℕ) → r + 1 < 2 ^ 63 → inc_int64 r ≡ r + 1
inc_int64-no_wrap r h = omega arith

pub lt_int64-inc_int64 : (r : ℕ) → r + 1 < 2 ^ 63 → lt_int64 r (inc_int64 r) ≡ true
lt_int64-inc_int64 r h = ground arith
