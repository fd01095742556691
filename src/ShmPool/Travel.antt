-- ===== src/ShmPool/Travel.antt =====
-- `travel_pool` calls its function on the units in use, in ascending order.
use play_frame.Common.{
  ℕ, zero, suc, ◌+◌, ◌≤◌, ◌<◌, ◌≡◌, ◌↔◌, refl, inl, inr, true, false, List, [], ◌∷◌, arith, All,
  Bool-cases, eq_cases, if◌then◌else◌, some, lt→ltb,
}
use mathlib.Core.Path.{fun_ext, ap}
use play_frame.Common.Int.{ℤ, pos, is_positive}
use play_frame.Common.Run.{Run, ok, ◌>>=◌}
use play_frame.Common.Array.{Array, load-ok}
use play_frame.ShmPool.{PoolUnit, PoolCtrl, find, travel_units, travel_pool}
use play_frame.ShmPool.FreeList.{On, On-negative}
use play_frame.ShmPool.Invariant.{link, IsValid}
use play_frame.ShmPool.Find.{find-used, used-find}

-- The places in use among the `n` from `i` on.
places : (ℕ → ℤ) → ℕ → ℕ → List ℕ
places at zero i = []
places at (suc n) i = if is_positive (at i) then i ∷ places at n (suc i) else places at n (suc i)

abbrev pub for_each : {S : Type 0} → (ℕ → S → Run S) → List ℕ → S → Run S
for_each func [] s = ok s
for_each func (x ∷ xs) s = func x s >>= for_each func xs

abbrev pub IsAscending : List ℕ → Type 0
IsAscending [] = Unit
IsAscending (x ∷ xs) = All (λ y. x < y) xs × IsAscending xs

module _ {T S : Type 0} (func : ℕ → S → Run S) where
  travel_units-for_each :
      (n i : ℕ) (units : Array (PoolUnit T)) (s : S)
      → i + n ≤ units.size
      → travel_units func n i units s ≡ for_each func (places (λ j. (units.at j).pos) n i) s
  unfolding travel_units places
  travel_units-for_each zero i units s h = refl
  travel_units-for_each (suc n) i units s h =
      let rest = λ (t : S). travel_units-for_each n (suc i) units t (omega arith) in
      elim (Bool-cases (is_positive (units.at i).pos)) [
        | inl e ↦
            rw (load-ok units i (omega arith), e)
              (ap (λ (k : S → Run S). func i s >>= k) (fun_ext rest))
        | inr e ↦ rw (load-ok units i (omega arith), e) (rest s)
      ]

module _ (at : ℕ → ℤ) where
  places-from : (n i j : ℕ) → j < i → All (λ y. j < y) (places at n i)
  unfolding places
  places-from zero i j h = tt
  places-from (suc n) i j h = elim (Bool-cases (is_positive (at i))) [
    | inl e ↦ rw e (h, places-from n (suc i) j (omega arith))
    | inr e ↦ rw e (places-from n (suc i) j (omega arith))
  ]

  places-IsAscending : (n i : ℕ) → IsAscending (places at n i)
  unfolding places
  places-IsAscending zero i = tt
  places-IsAscending (suc n) i = elim (Bool-cases (is_positive (at i))) [
    | inl e ↦ rw e (places-from n (suc i) i (omega arith), places-IsAscending n (suc i))
    | inr e ↦ rw e (places-IsAscending n (suc i))
  ]

  On-places :
      (n i j : ℕ) → On (places at n i) j → (i ≤ j) × (j < i + n) × (is_positive (at j) ≡ true)
  unfolding places
  On-places zero i j o = absurd o
  On-places (suc n) i j o = elim (Bool-cases (is_positive (at i))) [
    | inl e ↦ elim (rw (e) at o) [
      | inl same ↦ rw same (omega arith, omega arith, e)
      | inr rest ↦
          let r = On-places n (suc i) j rest in (omega (arith, r.0), omega (arith, r.1), r.2)
    ]
    | inr e ↦
        let o' = rw e at o in
        let r = On-places n (suc i) j o' in (omega (arith, r.0), omega (arith, r.1), r.2)
  ]

  places-On : (n i j : ℕ) → i ≤ j → j < i + n → is_positive (at j) ≡ true → On (places at n i) j
  unfolding places
  places-On zero i j p q h = absurd (omega arith)
  places-On (suc n) i j p q h = elim (eq_cases j i) [
    | inl e ↦ let h' : is_positive (at i) ≡ true = rw (← e) h in rw h' (inl e)
    | inr ne ↦ elim (Bool-cases (is_positive (at i))) [
      | inl e ↦ rw e (inr (places-On n (suc i) j (omega arith) (omega arith) h))
      | inr e ↦ rw e (places-On n (suc i) j (omega arith) (omega arith) h)
    ]
  ]

-- The list of the units that `find` knows, in ascending order.
pub record Visits {T : Type 0} (p : PoolCtrl T) (xs : List ℕ) : Type 1 where
  pub runs : {S : Type 0} (func : ℕ → S → Run S) (s : S) → travel_pool p func s ≡ for_each func xs s
  pub ascending : IsAscending xs
  pub exactly : (i : ℕ) → On xs i ↔ (find p (pos i) ≡ ok (some i))

-- In every valid pool `travel_pool` runs its function on exactly the units in use, in ascending
-- order, and hands the argument from one call to the next.
pub travel_pool-Visits : {T : Type 0} (p : PoolCtrl T) → IsValid p → (xs : List ℕ) × Visits p xs
unfolding travel_pool
travel_pool-Visits p (fs, v) = (
  places (link p) p.total_unit_count 1,
  record {
    runs =
        λ func s. travel_units-for_each func p.total_unit_count 1 p.pool s (omega (arith, v.sized));
    ascending = places-IsAscending (link p) p.total_unit_count 1;
    exactly = λ i. (to i, from i);
  },
)
  where
    from : (i : ℕ) → find p (pos i) ≡ ok (some i) → On (places (link p) p.total_unit_count 1) i
    from i h =
        let u = used-find p i h in
        places-On (link p) p.total_unit_count 1 i u.low (omega (arith, u.high))
          (rw u.taken (lt→ltb 0 i u.low))

    to : (i : ℕ) → On (places (link p) p.total_unit_count 1) i → find p (pos i) ≡ ok (some i)
    to i o =
        let r = On-places (link p) p.total_unit_count 1 i o in
        elim (v.covered i r.0 (omega (arith, r.1))) [
          | inl u ↦
              find-used p i v.sized (record { low = r.0; high = omega (arith, r.1); taken = u })
          | inr o' ↦
              let (m, e) =
                On-negative (link p) p.total_unit_count i fs p.free_mem_pos v.chained o' in
              let h : is_positive (link p i) ≡ false = rw e refl in cc (r.2)
        ]
