-- ===== src/ShmPool/Sample.antt =====
-- A pool of three units, for examples.
use play_frame.Common.{ℕ, ◌≡◌, refl, [], ◌∷◌, arith, ◌==◌, if◌then◌else◌}
use play_frame.Common.Int.{pos, negsuc}
use play_frame.ShmPool.{PoolCtrl}
use play_frame.ShmPool.FreeList.{used}
use play_frame.ShmPool.Invariant.{IsValid}
use play_frame.ShmPool.Find.{used-find}
use play_frame.ShmPool.Memory.{Knows}

-- Unit 2 of three is in use, and holds `value`.
abbrev pub pool_with : {T : Type 0} → T → PoolCtrl T
pool_with value = record {
  free_mem_pos = pos 3;
  valid_unit_count = 2;
  total_unit_count = 3;
  unit_size = 16;
  pool = record {
    size = 4;
    at = λ i. record {
      mem = value;
      pos = if i == 1 then negsuc 3 else if i == 2 then pos 2 else negsuc 0;
    };
  };
}

pub pool_with-IsValid : {T : Type 0} (value : T) → IsValid (pool_with value)
unfolding used
pool_with-IsValid value = (
  3 ∷ 1 ∷ [],
  record {
    sized = refl;
    chained = (refl, omega arith, omega arith, (refl, omega arith, omega arith, refl));
    distinct = ground arith;
    counted = refl;
    in_use = refl;
    covered = λ i low high. ground arith;
  },
)

pub pool_with-Knows : {T : Type 0} (value : T) (x : ℕ) → Knows (pool_with value) x → x ≡ 2
pool_with-Knows value x k =
    let u = used-find (pool_with value) x k in ground (arith, u.low, u.high, u.taken)
