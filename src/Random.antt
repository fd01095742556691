-- ===== src/Random.antt =====
-- src/common/frame/random.h and random.cpp: the linear congruential generator of Lewis, Goodman
-- and Miller, by Schrage's method, which avoids overflow. The seed that the constructor takes from
-- the clock is an argument.
pub mod Schrage
mod Tests
use play_frame.Common.{ℕ, ◌+◌, ◌-◌, ◌*◌, ◌/◌, ◌%◌, if◌then◌else◌}
use play_frame.Common.Int.{ℤ, pos, ◌+ℤ◌, ◌-ℤ◌, ◌*ℤ◌, leb_ℤ, ◌==ℤ◌, quot, rem}

abbrev pub multiplier : ℕ
multiplier = 48271

abbrev pub modulus : ℕ
modulus = 2147483647

-- `M / A` and `M % A`.
abbrev pub quotient : ℕ
quotient = 44488

abbrev pub remainder : ℕ
remainder = 3399

-- The constructor: a seed of 0 stands for the time of day.
unfoldable pub init : ℤ → ℤ → ℤ
init seed time = if seed ==ℤ pos 0 then time else seed

-- `temp_seed`.
abbrev pub temp_seed : ℤ → ℤ
temp_seed seed = pos multiplier *ℤ rem seed quotient -ℤ pos remainder *ℤ quot seed quotient

-- The new seed, which is also the number returned.
unfoldable pub get_rand : ℤ → ℤ
get_rand seed =
    let temp = temp_seed seed in if leb_ℤ (pos 0) temp then temp else temp +ℤ pos modulus
