-- ===== src/ShmPool.antt =====
-- src/common/frame/shm_pool.h: a pool of units in shared memory. Free units are linked through
-- their `pos` fields: a negative `pos` is the next free position, negated; a unit in use holds its
-- own position. Unit 0 is never given out. A pointer to the `mem` of a unit is that unit's index.
-- `sizeof` of a unit, and what `ShmMemory::Init` did, are arguments of `init`.
pub mod FreeList
pub mod Invariant
pub mod Find
pub mod Init
pub mod Operations
pub mod Memory
pub mod Travel
pub mod Sample
mod Tests
use play_frame.Common.{
  ℕ, zero, suc, ◌+◌, ◌-◌, Bool, true, false, ◌||◌, not, Option, none, some, ltb, ◌==◌,
  if◌then◌else◌,
}
use play_frame.Common.Int.{ℤ, pos, negsuc, neg, is_positive, ◌==ℤ◌}
use play_frame.Common.Run.{Run, ok, fault, check_failed, ◌>>=◌, ◌>>◌, check}
use play_frame.Common.Array.{Array, index, load, store}

pub record PoolUnit (T : Type 0) : Type 0 where
  pub mem : T
  pub pos : ℤ

pub record PoolCtrl (T : Type 0) : Type 0 where
  pub free_mem_pos : ℤ
  pub valid_unit_count : ℕ
  pub total_unit_count : ℕ
  pub unit_size : ℕ
  pub pool : Array (PoolUnit T)

-- What `shm_.Init` left: no memory, a segment of an earlier run, or a new one.
pub data Segment (T : Type 0) : Type 0 where
  unavailable : Segment T
  existing : PoolCtrl T → Segment T
  created : PoolCtrl T → Segment T

module _ {T : Type 0} where
  -- The `for` of Init, with the rounds left and `i`.
  init_units : ℕ → ℕ → Array (PoolUnit T) → Run (Array (PoolUnit T))
  init_units zero i units = ok units
  init_units (suc n) i units = do
    u ← load units i
    units' ← store units i (record u { pos = negsuc i })
    init_units n (i + 1) units'

  -- `sizeof(PoolUnit)` is `size`.
  pub init : ℕ → ℕ → Segment T → Run (ℤ × Option (PoolCtrl T))
  unfolding init_units
  init size unit_count unavailable = ok (negsuc 0, none)
  init size unit_count (existing p) =
      if not (p.total_unit_count == unit_count) || not (p.unit_size == size)
      then ok (negsuc 1, some p)
      else ok (pos 0, some p)
  init size unit_count (created p) = do
    units ← init_units (unit_count + 1) 0 p.pool
    ok (
      pos 0,
      some (record {
        free_mem_pos = pos 1;
        valid_unit_count = unit_count;
        total_unit_count = unit_count;
        unit_size = size;
        pool = units;
      }),
    )

  pop_free_pos : PoolCtrl T → Run (ℕ × PoolCtrl T)
  pop_free_pos p = do
    free_pos ← index p.free_mem_pos
    u ← load p.pool free_pos
    units ← store p.pool free_pos (record u { pos = pos free_pos })
    ok (free_pos, record p { free_mem_pos = neg u.pos; pool = units })

  push_free_pos : PoolCtrl T → ℤ → Run (PoolCtrl T)
  push_free_pos p free_pos = do
    i ← index free_pos
    u ← load p.pool i
    units ← store p.pool i (record u { pos = neg p.free_mem_pos })
    ok (record p { free_mem_pos = free_pos; pool = units })

  -- `none` is the null pointer.
  unfoldable pub alloc : PoolCtrl T → Run (Option ℕ × PoolCtrl T)
  unfolding pop_free_pos
  alloc p =
      if ltb 0 p.valid_unit_count
      then (do
        (free_pos, q) ← pop_free_pos p
        ok (some free_pos, record q { valid_unit_count = q.valid_unit_count - 1 }))
      else ok (none, p)

  unfoldable pub find : PoolCtrl T → ℤ → Run (Option ℕ)
  find p (negsuc i) = ok none
  find p (pos i) =
      if i == 0 || ltb p.total_unit_count i
      then ok none
      else do u ← load p.pool i; if not (u.pos ==ℤ pos i) then ok none else ok (some i)

  unfoldable pub release : PoolCtrl T → ℕ → Run (PoolCtrl T)
  unfolding push_free_pos
  release p mem = do
    check (ltb p.valid_unit_count p.total_unit_count)
    u ← load p.pool mem
    check (is_positive u.pos)
    q ← push_free_pos p u.pos
    ok (record q { valid_unit_count = q.valid_unit_count + 1 })

  unfoldable pub get_pos : PoolCtrl T → ℕ → Run ℤ
  get_pos p mem = do u ← load p.pool mem; check (is_positive u.pos); ok u.pos

  -- The `for` of TravelPool, with the rounds left and `i`; `func` gets the pointer and its `arg`.
  travel_units {ℓ} : {S : Type ℓ} → (ℕ → S → Run S) → ℕ → ℕ → Array (PoolUnit T) → S → Run S
  travel_units func zero i units s = ok s
  travel_units func (suc n) i units s = do
    u ← load units i
    t ← if is_positive u.pos then func i s else ok s
    travel_units func n (suc i) units t

  unfoldable pub travel_pool {ℓ} : {S : Type ℓ} → PoolCtrl T → (ℕ → S → Run S) → S → Run S
  unfolding travel_units
  travel_pool p func s = travel_units func p.total_unit_count 1 p.pool s
