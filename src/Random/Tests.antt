-- ===== src/Random/Tests.antt =====
-- The generator's theorems at one seed.
use play_frame.Common.{◌-◌, ◌*◌, ◌/◌, ◌%◌, ◌^◌, ◌<◌, ◌≡◌, arith}
use play_frame.Common.Int.{pos, negsuc, ◌≤ℤ◌}
use play_frame.Random.{get_rand, temp_seed, modulus, multiplier, quotient, remainder, pos, ◌*◌, ◌%◌}
use play_frame.Random.Schrage.{get_rand-mod, temp_seed_bounds}

get_rand-mod_example : get_rand (pos 2000000) ≡ pos (multiplier * 2000000 % modulus)
get_rand-mod_example = get_rand-mod 2000000 (omega arith)

temp_seed_bounds_example :
    (multiplier * (2000000 % quotient) < 2 ^ 31)
    × (remainder * (2000000 / quotient) < 2 ^ 31)
    × (negsuc (2 ^ 31 - 1) ≤ℤ temp_seed (pos 2000000))
    × (temp_seed (pos 2000000) ≤ℤ pos (2 ^ 31 - 1))
temp_seed_bounds_example = temp_seed_bounds 2000000 (omega arith)
