-- ===== src/Double.antt =====
-- The quotients and products of numbers that the code takes, in the arithmetic of JavaScript, for
-- whole numbers below 2 ^ 53: a number has 53 bits, and a result is rounded to the nearest one, to the
-- even one of two.
pub mod Shares
use auction_platform_backend.Prelude.{ℕ, zero, suc, ◌+◌, ◌*◌, ◌/◌, ◌%◌, ltb, if◌then◌else◌}

abbrev pub two_to_52 : ℕ
two_to_52 = 4503599627370496

abbrev pub two_to_53 : ℕ
two_to_53 = 9007199254740992

-- The whole number nearest to a quotient, the even one of two.
unfoldable pub round_div : ℕ → ℕ → ℕ
round_div n d =
    if ltb (2 * (n % d)) d
    then n / d
    else if ltb d (2 * (n % d))
    then n / d + 1
    else n / d + n / d % 2

-- The power of two, `p` or more, that `a` is multiplied by for `a / b` to have 53 bits before the
-- point.
unfoldable pub doublings : ℕ → ℕ → ℕ → ℕ → ℕ
doublings zero a b p = p
doublings (suc k) a b p =
    let more = doublings k a b (2 * p) in if ltb (a * p) (two_to_52 * b) then more else p

-- The unit of the last of the 53 bits of a number, `c` or more.
unfoldable pub last_bit : ℕ → ℕ → ℕ → ℕ
last_bit zero n c = c
last_bit (suc k) n c = let more = last_bit k n (2 * c) in if ltb n (two_to_53 * c) then c else more

-- A number below 2 ^ 106, rounded to 53 bits.
unfoldable pub round_bits : ℕ → ℕ
round_bits n = let c = last_bit 53 n 1 in round_div n c * c

-- `Math.floor(price * (left / total))`. The quotient is kept as a whole number of 53 bits and the
-- power of two to divide it by; 105 doublings are enough for any quotient.
unfoldable pub floor_share : ℕ → ℕ → ℕ → ℕ
floor_share price left total =
    let p = doublings 105 left total 1 in round_bits (price * round_div (left * p) total) / p
