-- ===== src/ShmPool/Tests.antt =====
-- Small pools, and the pool's theorems applied to them.
use play_frame.Common.{ℕ, ◌*◌, ◌≡◌, refl, List, [], ◌∷◌, arith, none, some, if◌then◌else◌, ◌==◌}
use play_frame.Common.Int.{pos, negsuc}
use play_frame.Common.Run.{ok, Returns}
use play_frame.Common.Array.{load}
use play_frame.ShmPool.{PoolUnit, PoolCtrl, created, init, alloc, release, find}
use play_frame.ShmPool.FreeList.{used}
use play_frame.ShmPool.Invariant.{Linked, IsValid}
use play_frame.ShmPool.Init.{Fresh, init-created}
use play_frame.ShmPool.Operations.{Given, alloc_correct, Taken, release_correct}
use play_frame.ShmPool.Travel.{Visits, travel_pool-Visits}

-- Unit 2 is in use; the free list is 3, 1.
abbrev some_units : ℕ → PoolUnit ℕ
some_units i = record {
  mem = 10 * i;
  pos = if i == 1 then negsuc 3 else if i == 2 then pos 2 else negsuc 0;
}

abbrev some_pool : PoolCtrl ℕ
some_pool = record {
  free_mem_pos = pos 3;
  valid_unit_count = 2;
  total_unit_count = 3;
  unit_size = 16;
  pool = record { size = 4; at = some_units };
}

some_pool-Linked : Linked some_pool (3 ∷ 1 ∷ [])
unfolding used
some_pool-Linked = record {
  sized = refl;
  chained = (refl, omega arith, omega arith, (refl, omega arith, omega arith, refl));
  distinct = ground arith;
  counted = refl;
  in_use = refl;
  covered = λ i low high. ground arith;
}

some_pool-IsValid : IsValid some_pool
some_pool-IsValid = ((3 ∷ 1 ∷ []), some_pool-Linked)

find-some_pool : find some_pool (pos 2) ≡ ok (some 2)
unfolding find load
find-some_pool = refl

find-free_unit : find some_pool (pos 1) ≡ ok none
unfolding find load
find-free_unit = refl

init-created_example : Returns (Fresh some_pool 3) (init 16 3 (created some_pool))
init-created_example = init-created 16 3 some_pool refl

alloc_correct_example : Returns (Given some_pool) (alloc some_pool)
alloc_correct_example = alloc_correct some_pool some_pool-IsValid (omega arith)

release_correct_example : Returns (Taken some_pool 2) (release some_pool 2)
release_correct_example = release_correct some_pool 2 some_pool-IsValid find-some_pool

travel_pool-Visits_example : (xs : List ℕ) × Visits some_pool xs
travel_pool-Visits_example = travel_pool-Visits some_pool some_pool-IsValid
