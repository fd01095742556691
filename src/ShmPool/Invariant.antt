-- ===== src/ShmPool/Invariant.antt =====
-- What holds of a pool between calls, and that each call keeps it.
use play_frame.Common.{
  ℕ, suc, ◌+◌, ◌-◌, ◌≤◌, ◌<◌, ◌≡◌, ◌≢◌, refl, ◌⊎◌, inl, inr, true, false, List, ◌∷◌, length, arith,
  some, All, Distinct, eq_cases, sym, lt→ltb, subst,
}
use play_frame.Common.Int.{ℤ, pos, neg, is_positive, neg-neg}
use play_frame.Common.Run.{ok}
use play_frame.Common.Array.{load-ok, store-ok, set, update, update_self, update_other}
use play_frame.ShmPool.{PoolUnit, PoolCtrl, alloc, release}
use play_frame.ShmPool.FreeList.{
  Chain, On, used, Chain-first-free, used-update, field-update, Chain-update, used_pos,
  Chain-avoids, Chain-negative,
}

module _ {T : Type 0} where
  -- The `pos` fields.
  abbrev pub link : PoolCtrl T → ℕ → ℤ
  link p i = (p.pool.at i).pos

  -- The free list is `fs`. It has `valid_unit_count` places, and every other unit is in use.
  pub record Linked (p : PoolCtrl T) (fs : List ℕ) : Type 0 where
    pub sized : p.pool.size ≡ suc p.total_unit_count
    pub chained : Chain (link p) p.total_unit_count fs p.free_mem_pos
    pub distinct : Distinct fs
    pub counted : length fs ≡ p.valid_unit_count
    pub in_use : used (link p) p.total_unit_count + p.valid_unit_count ≡ p.total_unit_count
    pub covered : (i : ℕ) → 0 < i → i ≤ p.total_unit_count → (link p i ≡ pos i) ⊎ On fs i

  abbrev pub IsValid : PoolCtrl T → Type 0
  IsValid p = (fs : List ℕ) × Linked p fs

  -- The pool after `alloc` has given out unit `x`.
  abbrev pub allocated : PoolCtrl T → ℕ → PoolCtrl T
  allocated p x = record p {
    free_mem_pos = neg (link p x);
    valid_unit_count = p.valid_unit_count - 1;
    pool = set p.pool x (record (p.pool.at x) { pos = pos x });
  }

  -- The pool after `release` has taken unit `x` back.
  abbrev pub released : PoolCtrl T → ℕ → PoolCtrl T
  released p x = record p {
    free_mem_pos = pos x;
    valid_unit_count = p.valid_unit_count + 1;
    pool = set p.pool x (record (p.pool.at x) { pos = neg p.free_mem_pos });
  }

  pub link-allocated : (p : PoolCtrl T) (x : ℕ) → link (allocated p x) ≡ update (link p) x (pos x)
  link-allocated p x = field-update (λ (u : PoolUnit T). u.pos) p.pool.at x _

  pub link-released :
      (p : PoolCtrl T) (x : ℕ) → link (released p x) ≡ update (link p) x (neg p.free_mem_pos)
  link-released p x = field-update (λ (u : PoolUnit T). u.pos) p.pool.at x _

  module _ (p : PoolCtrl T) (x : ℕ) (xs : List ℕ) (v : Linked p (x ∷ xs)) where
    pub alloc-first : alloc p ≡ ok (some x, allocated p x)
    unfolding alloc
    alloc-first =
        let h : x < p.pool.size = omega (arith, v.sized, v.chained.2) in
        rw (lt→ltb 0 p.valid_unit_count (omega (arith, v.counted)), v.chained.0, load-ok p.pool x h)
          (rw (store-ok p.pool x (record (p.pool.at x) { pos = pos x }) h))

    pub allocated-Linked : Linked (allocated p x) xs
    allocated-Linked = record {
      sized = v.sized;
      chained =
          rw (link-allocated p x)
            (Chain-update (link p) p.total_unit_count x (pos x) xs _ v.distinct.0 v.chained.3);
      distinct = v.distinct.1;
      counted = omega (arith, v.counted);
      in_use = rw (link-allocated p x) (
          ground (
            arith,
            v.in_use,
            v.counted,
            used-update (link p) p.total_unit_count x (pos x),
            Chain-first-free (link p) p.total_unit_count x xs p.free_mem_pos v.chained,
            v.chained.1,
            v.chained.2,
          ));
      covered = λ i q r. rw (link-allocated p x) (elim (eq_cases x i) [
        | inl e ↦ rw (← e) (inl (update_self (link p) x (pos x)))
        | inr ne ↦ rw (update_other (link p) x i (pos x) ne) (elim (v.covered i q r) [
          | inl u ↦ inl u
          | inr (inl e) ↦ absurd (ne (sym e))
          | inr (inr o) ↦ inr o
        ])
      ]);
    }

  module _ (p : PoolCtrl T) (x : ℕ) (fs : List ℕ) (v : Linked p fs) where
    module _ (low : 0 < x) (high : x ≤ p.total_unit_count) (taken : link p x ≡ pos x) where
      is_positive-taken : is_positive (link p x) ≡ true
      is_positive-taken = rw taken (lt→ltb 0 x low)

      pub some_used : p.valid_unit_count < p.total_unit_count
      some_used =
          omega (arith, v.in_use, used_pos (link p) p.total_unit_count x low high is_positive-taken)

      pub release-used : release p x ≡ ok (released p x)
      unfolding release
      release-used =
          let h : x < p.pool.size = omega (arith, v.sized) in
          rw (lt→ltb _ _ some_used, load-ok p.pool x h, is_positive-taken, taken)
            (rw (
              load-ok p.pool x h,
              store-ok p.pool x (record (p.pool.at x) { pos = neg p.free_mem_pos }) h,
            ))

      avoids : All (λ y. y ≢ x) fs
      avoids = Chain-avoids (link p) p.total_unit_count x x fs p.free_mem_pos taken v.chained

      is_positive-freed : is_positive (neg p.free_mem_pos) ≡ false
      is_positive-freed =
          let (m, e) = Chain-negative (link p) p.total_unit_count fs p.free_mem_pos v.chained in
          rw e

      pub released-Linked : Linked (released p x) (x ∷ fs)
      released-Linked = record {
        sized = v.sized;
        chained = (
          refl,
          low,
          high,
          subst (λ f. Chain f p.total_unit_count fs (neg (f x))) (sym (link-released p x))
              (rw (update_self (link p) x (neg p.free_mem_pos), neg-neg p.free_mem_pos)
                (Chain-update (link p) p.total_unit_count x (neg p.free_mem_pos) fs p.free_mem_pos
                  avoids v.chained)),
        );
        distinct = (avoids, v.distinct);
        counted = omega (arith, v.counted);
        in_use = rw (link-released p x) (
            ground (
              arith,
              v.in_use,
              used-update (link p) p.total_unit_count x (neg p.free_mem_pos) low high,
              is_positive-freed,
              is_positive-taken,
            ));
        covered = λ i q r. rw (link-released p x) (elim (eq_cases x i) [
          | inl e ↦ inr (inl (sym e))
          | inr ne ↦
              rw (update_other (link p) x i _ ne)
                (elim (v.covered i q r) [ inl u ↦ inl u | inr o ↦ inr (inr o) ])
        ]);
      }
