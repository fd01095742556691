-- ===== src/ShmPool/Init.antt =====
-- A pool in a new segment: every unit is free, linked in order.
use play_frame.Common.{
  ==_iff, ℕ, zero, suc, ◌+◌, ◌≤◌, ◌<◌, ◌≡◌, ◌≢◌, refl, ap, inl, inr, List, [], ◌∷◌, length, arith,
  Option, none, some, All, Distinct, eq_cases,
}
use native.Mathlib.Decide.{dec_le}
use play_frame.Common.Int.{ℤ, pos, negsuc}
use play_frame.Common.Run.{ok, Returns, returns, Returns-bind, Returns-map}
use play_frame.Common.Array.{Array, load-ok, store-ok, set}
use play_frame.ShmPool.{PoolUnit, PoolCtrl, created, init_units, init, find, existing}
use play_frame.ShmPool.FreeList.{Chain, On, used-none}
use play_frame.ShmPool.Invariant.{link, IsValid}
use play_frame.ShmPool.Find.{find-unused, find-beyond}

-- The `n` places from `i` on.
abbrev pub range : ℕ → ℕ → List ℕ
range zero i = []
range (suc n) i = i ∷ range n (suc i)

pub length-range : (n i : ℕ) → length (range n i) ≡ n
length-range zero i = refl
length-range (suc n) i = ap suc (length-range n (suc i))

pub range-above : (n i j : ℕ) → j < i → All (λ y. y ≢ j) (range n i)
range-above zero i j h = tt
range-above (suc n) i j h = ((λ e. omega arith), range-above n (suc i) j (omega arith))

pub range-Distinct : (n i : ℕ) → Distinct (range n i)
range-Distinct zero i = tt
range-Distinct (suc n) i = (range-above n (suc i) i (omega arith), range-Distinct n (suc i))

On-range : (n i j : ℕ) → i ≤ j → j < i + n → On (range n i) j
On-range zero i j low high = absurd (omega arith)
On-range (suc n) i j low high = elim (eq_cases j i) [
  | inl e ↦ inl e
  | inr ne ↦ inr (On-range n (suc i) j (omega arith) (omega arith))
]

module _ (at : ℕ → ℤ) (total : ℕ) where
  pub Chain-range :
      (n i : ℕ)
      → ((j : ℕ) → i ≤ j → j ≤ total → at j ≡ negsuc j)
      → 0 < i
      → i + n ≡ suc total
      → Chain at total (range n i) (pos i)
  Chain-range zero i linked low e = ap pos (omega arith)
  Chain-range (suc n) i linked low e = (
    refl,
    low,
    omega arith,
    rw (linked i (omega arith) (omega arith))
        (Chain-range n (suc i) (λ j p q. linked j (omega arith) q) (omega arith) (omega arith)),
  )

module _ {T : Type 0} where
  -- The rounds from `i` on write `-(j + 1)` into each `pos`, and leave the memory alone.
  record Unlinked (n i : ℕ) (units a : Array (PoolUnit T)) : Type 0 where
    sized : a.size ≡ units.size
    memory : (j : ℕ) → (a.at j).mem ≡ (units.at j).mem
    written : (j : ℕ) → i ≤ j → j < i + n → (a.at j).pos ≡ negsuc j
    before : (j : ℕ) → j < i → (a.at j).pos ≡ (units.at j).pos

  init_units-Unlinked :
      (n i : ℕ) (units : Array (PoolUnit T))
      → i + n ≤ units.size
      → Returns (Unlinked n i units) (init_units n i units)
  unfolding init_units
  init_units-Unlinked zero i units h = returns (record {
    sized = refl;
    memory = λ j. refl;
    written = λ j p q. absurd (omega arith);
    before = λ j p. refl;
  })
  init_units-Unlinked (suc n) i units h =
      let u = record (units.at i) { pos = negsuc i } in
      rw (load-ok units i (omega arith), store-ok units i u (omega arith))
        (Returns-map (init_units-Unlinked n (i + 1) (set units i u) (omega arith)) λ a w. record {
          sized = w.sized;
          memory = λ j. ground (arith, w.memory j);
          written = λ j low high. elim (eq_cases i j) [
            | inl e ↦ ground (arith, w.before j)
            | inr ne ↦ w.written j (omega arith) (omega arith)
          ];
          before = λ j low. ground (arith, w.before j);
        })

  -- The pool in use by nobody.
  pub record Fresh (p : PoolCtrl T) (unit_count : ℕ) (r : ℤ × Option (PoolCtrl T)) : Type 0 where
    pub pool : PoolCtrl T
    pub result : r ≡ (pos 0, some pool)
    pub valid : IsValid pool
    pub all_free : pool.valid_unit_count ≡ unit_count
    pub total : pool.total_unit_count ≡ unit_count
    pub unused : (i : ℕ) → find pool (pos i) ≡ ok none
    pub memory : (i : ℕ) → (pool.pool.at i).mem ≡ (p.pool.at i).mem

  -- Init of a new segment with one unit more than asked for, whatever it held, returns 0 and makes a
  -- valid pool in which every unit is free; the memory of the units stays.
  pub init-created :
      (size unit_count : ℕ) (p : PoolCtrl T)
      → p.pool.size ≡ unit_count + 1
      → Returns (Fresh p unit_count) (init size unit_count (created p))
  unfolding init
  init-created size unit_count p h =
      Returns-bind (init_units-Unlinked (unit_count + 1) 0 p.pool (omega arith)) λ a w.
        let q : PoolCtrl T = record {
          free_mem_pos = pos 1;
          valid_unit_count = unit_count;
          total_unit_count = unit_count;
          unit_size = size;
          pool = a;
        } in
        let linked : (j : ℕ) → j ≤ unit_count → (a.at j).pos ≡ negsuc j =
          λ j le. w.written j (omega arith) (omega arith) in
        returns (record {
          pool = q;
          result = refl;
          valid = (
            range unit_count 1,
            record {
              sized = omega (arith, w.sized);
              chained =
                  Chain-range (link q) unit_count unit_count 1 (λ j p le. linked j le) (omega arith)
                    (omega arith);
              distinct = range-Distinct unit_count 1;
              counted = length-range unit_count 1;
              in_use = omega (arith, used-none (link q) unit_count (λ j le. rw (linked j le)));
              covered = λ i low high. inr (On-range unit_count 1 i low (omega arith));
            },
          );
          all_free = refl;
          total = refl;
          unused = λ i. elim (dec_le i unit_count) [
            | yes le ↦ find-unused q i (omega (arith, w.sized)) (λ e. let n = linked i le in cc)
            | no gt ↦ find-beyond q i (omega arith)
          ];
          memory = w.memory;
        })

  -- A segment of an earlier run is taken as it is.
  pub init-existing :
      (p : PoolCtrl T) → init p.unit_size p.total_unit_count (existing p) ≡ ok (pos 0, some p)
  unfolding init
  init-existing p = rw (
    (==_iff p.total_unit_count p.total_unit_count).1 refl,
    (==_iff p.unit_size p.unit_size).1 refl,
  )
