-- ===== src/Random/Schrage.antt =====
-- Schrage's method gives the product by the modulus, without a number that `int32_t` cannot hold.
use play_frame.Common.{ℕ, ◌-◌, ◌*◌, ◌/◌, ◌%◌, ◌<◌, ◌≡◌, arith, ◌^◌, eq_cases, inl, inr}
use play_frame.Common.Int.{pos, negsuc, ◌+ℤ◌, ◌-ℤ◌, ◌*ℤ◌, ◌≤ℤ◌, quot, rem}
use play_frame.Random.{get_rand, temp_seed, modulus, multiplier, quotient, remainder}

-- For a seed below the modulus the next one is `48271 * s % 2147483647`.
pub get_rand-mod : (s : ℕ) → s < modulus → get_rand (pos s) ≡ pos (multiplier * s % modulus)
unfolding get_rand ◌+ℤ◌ ◌-ℤ◌ ◌*ℤ◌ quot rem
get_rand-mod s h = ground arith

-- For a seed below the modulus, neither product of the method, nor their difference, leaves the
-- range of `int32_t`.
pub temp_seed_bounds :
    (s : ℕ)
    → s < modulus
    → (multiplier * (s % quotient) < 2 ^ 31)
      × (remainder * (s / quotient) < 2 ^ 31)
      × (negsuc (2 ^ 31 - 1) ≤ℤ temp_seed (pos s))
      × (temp_seed (pos s) ≤ℤ pos (2 ^ 31 - 1))
unfolding ◌-ℤ◌ ◌*ℤ◌ quot rem
temp_seed_bounds s h = ground arith

-- 48271 has an inverse by the modulus.
product_nonzero : (s : ℕ) → 0 < s → s < modulus → 0 < multiplier * s % modulus
product_nonzero s p h =
    let k = multiplier * s / modulus in
    elim (eq_cases (multiplier * s % modulus) 0) [
      | inl e ↦
          let exact : multiplier * s ≡ modulus * k = omega arith in
          let whole : s ≡ modulus * (1899818559 * k - 42704 * s) = omega arith in
          absurd (omega arith)
      | inr ne ↦ omega arith
    ]

-- A seed between 1 and the modulus is followed by such a seed, so that the generator does not get
-- stuck at 0.
pub get_rand_nonzero :
    (s : ℕ) → 0 < s → s < modulus → (r : ℕ) × (get_rand (pos s) ≡ pos r) × (0 < r) × (r < modulus)
get_rand_nonzero s p h =
    (multiplier * s % modulus, get_rand-mod s h, product_nonzero s p h, omega arith)
