-- ===== src/ShmPool/Operations.antt =====
-- What `alloc` and `release` do, on every branch.
use play_frame.Common.{
  ℕ, ◌+◌, ◌≤◌, ◌<◌, ◌≡◌, ◌≢◌, refl, sym, inl, inr, List, [], ◌∷◌, arith, Option, none, some,
  Bool-cases, ltb, lt→ltb,
}
use play_frame.Common.Int.{pos}
use play_frame.Common.Run.{ok, ◌>>=◌, check_failed, Returns, returns}
use play_frame.Common.Array.{update_self, update_other, load-ok, load}
use play_frame.ShmPool.{PoolCtrl, alloc, release, find, get_pos}
use play_frame.ShmPool.FreeList.{On-negative}
use play_frame.ShmPool.Invariant.{
  link, Linked, IsValid, allocated, released, link-allocated, link-released, alloc-first,
  allocated-Linked, release-used, released-Linked,
}
use play_frame.ShmPool.Find.{find-used, find-unused, used-find, unused-find, find-cong}

module _ {T : Type 0} where
  -- `alloc` gave out one unit that was free, and changed nothing else that a client can see.
  pub record Given (p : PoolCtrl T) (r : Option ℕ × PoolCtrl T) : Type 0 where
    pub place : ℕ
    pub result : r.0 ≡ some place
    pub was_free : find p (pos place) ≡ ok none
    pub now_used : find r.1 (pos place) ≡ ok (some place)
    pub others : (j : ℕ) → j ≢ place → find r.1 (pos j) ≡ find p (pos j)
    pub memory : (j : ℕ) → (r.1.pool.at j).mem ≡ (p.pool.at j).mem
    pub count : r.1.valid_unit_count + 1 ≡ p.valid_unit_count
    pub total : r.1.total_unit_count ≡ p.total_unit_count
    pub valid : IsValid r.1

  allocated-Given :
      (p : PoolCtrl T) (x : ℕ) (xs : List ℕ) → Linked p (x ∷ xs) → Given p (some x, allocated p x)
  allocated-Given p x xs v = record {
    place = x;
    result = refl;
    was_free = find-unused p x v.sized λ e.
        let (m, h) =
          On-negative (link p) p.total_unit_count x (x ∷ xs) p.free_mem_pos v.chained (inl refl) in
        cc;
    now_used = find-used (allocated p x) x v.sized (record {
      low = v.chained.1;
      high = v.chained.2;
      taken = rw (link-allocated p x) (update_self (link p) x (pos x));
    });
    others = λ j ne.
        find-cong p (allocated p x) j refl refl
          (rw (link-allocated p x) (update_other (link p) x j (pos x) (λ e. ne (sym e))));
    memory = λ j. ground arith;
    count = omega (arith, v.counted);
    total = refl;
    valid = (xs, allocated-Linked p x xs v);
  }

  -- While a valid pool has a unit left, `alloc` gives one out: `find` did not know it and does now,
  -- what `find` says of every other unit and the memory of all stay, the count of free units goes
  -- down by one, and the pool is valid again.
  pub alloc_correct :
      (p : PoolCtrl T) → IsValid p → 0 < p.valid_unit_count → Returns (Given p) (alloc p)
  alloc_correct p ([], v) h = absurd (omega (arith, v.counted))
  alloc_correct p (x ∷ xs, v) h = rw (alloc-first p x xs v) (returns (allocated-Given p x xs v))

  -- When a valid pool counts no free unit, `alloc` returns null and leaves the pool alone, and `find`
  -- knows every unit.
  pub alloc-exhausted :
      (p : PoolCtrl T)
      → IsValid p
      → p.valid_unit_count ≡ 0
      → (alloc p ≡ ok (none, p))
        × ((i : ℕ) → 0 < i → i ≤ p.total_unit_count → find p (pos i) ≡ ok (some i))
  unfolding alloc
  alloc-exhausted p (x ∷ xs, v) h = absurd (omega (arith, v.counted))
  alloc-exhausted p ([], v) h = (
    ground arith,
    λ i low high. elim (v.covered i low high) [
      | inl u ↦ find-used p i v.sized (record { low = low; high = high; taken = u })
      | inr o ↦ absurd o
    ],
  )

  -- `release` took unit `x` back, and changed nothing else that a client can see; the next `alloc`
  -- gives out `x`.
  pub record Taken (p : PoolCtrl T) (x : ℕ) (q : PoolCtrl T) : Type 0 where
    pub now_free : find q (pos x) ≡ ok none
    pub others : (j : ℕ) → j ≢ x → find q (pos j) ≡ find p (pos j)
    pub memory : (j : ℕ) → (q.pool.at j).mem ≡ (p.pool.at j).mem
    pub count : q.valid_unit_count ≡ p.valid_unit_count + 1
    pub total : q.total_unit_count ≡ p.total_unit_count
    pub valid : IsValid q
    pub reused : Returns (λ r. r.0 ≡ some x) (alloc q)

  -- In a valid pool a unit that `find` knows can be released: `find` does not know it afterwards,
  -- what `find` says of every other unit and the memory of all stay, the count of free units goes
  -- up by one, the pool is valid again, and the next `alloc` gives out this unit.
  pub release_correct :
      (p : PoolCtrl T) (x : ℕ)
      → IsValid p
      → find p (pos x) ≡ ok (some x)
      → Returns (Taken p x) (release p x)
  release_correct p x (fs, v) h =
      let u = used-find p x h in
      let w = released-Linked p x fs v u.low u.high u.taken in
      rw (release-used p x fs v u.low u.high u.taken) (
        returns (record {
          now_free = find-unused (released p x) x v.sized λ e.
              let (m, n) =
                On-negative (link (released p x)) p.total_unit_count x (x ∷ fs) (pos x) w.chained
                  (inl refl) in
              cc;
          others = λ j ne.
              find-cong p (released p x) j refl refl
                (rw (link-released p x) (update_other (link p) x j _ (λ e. ne (sym e))));
          memory = λ j. ground arith;
          count = refl;
          total = refl;
          valid = (x ∷ fs, w);
          reused = rw (alloc-first (released p x) x fs w) (returns refl);
        }))

  -- In a valid pool, releasing a unit that is free already stops the program at a CHECK.
  pub release-free :
      (p : PoolCtrl T) (x : ℕ)
      → IsValid p
      → 0 < x
      → x ≤ p.total_unit_count
      → find p (pos x) ≡ ok none
      → release p x ≡ check_failed
  unfolding release
  release-free p x (fs, v) low high h = elim (v.covered x low high) [
    | inl u ↦ absurd (unused-find p x low high h u)
    | inr o ↦
        let (m, e) = On-negative (link p) p.total_unit_count x fs p.free_mem_pos v.chained o in
        (elim (Bool-cases (ltb p.valid_unit_count p.total_unit_count)) [
          | inl room ↦ rw (room, load-ok p.pool x (omega (arith, v.sized)), e)
          | inr full ↦ rw full
        ])
  ]

  find-inside : (p : PoolCtrl T) (x : ℕ) → find p (pos x) ≡ ok (some x) → x < p.pool.size
  unfolding find load
  find-inside p x h = ground arith

  -- The position that `get_pos` gives for a unit that `find` knows leads back to that unit.
  pub get_pos-find :
      (p : PoolCtrl T) (x : ℕ)
      → find p (pos x) ≡ ok (some x)
      → (get_pos p x >>= find p) ≡ ok (some x)
  unfolding get_pos
  get_pos-find p x h =
      let u = used-find p x h in
      rw (load-ok p.pool x (find-inside p x h), u.taken, lt→ltb 0 x u.low) h
