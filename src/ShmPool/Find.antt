-- ===== src/ShmPool/Find.antt =====
-- What `find` answers.
use play_frame.Common.{
  refl, if◌then◌else◌, ℕ, suc, ◌≤◌, ◌<◌, ◌≡◌, ◌≢◌, inl, inr, arith, none, some, Bool-cases, ◌⊎◌,
  eq_cases, false,
}
use native.Mathlib.Decide.{dec_le}
use play_frame.Common.Int.{pos, ==ℤ→eq, ==ℤ-refl, ◌==ℤ◌}
use play_frame.Common.Run.{ok}
use play_frame.Common.Array.{load}
use play_frame.ShmPool.{PoolCtrl, find}
use play_frame.ShmPool.Invariant.{link}

module _ {T : Type 0} (p : PoolCtrl T) (i : ℕ) where
  -- The unit exists and holds its own position.
  pub record IsUsed : Type 0 where
    pub low : 0 < i
    pub high : i ≤ p.total_unit_count
    pub taken : link p i ≡ pos i

  find-in :
      0 < i
      → i ≤ p.total_unit_count
      → p.pool.size ≡ suc p.total_unit_count
      → find p (pos i) ≡ (if link p i ==ℤ pos i then ok (some i) else ok none)
  unfolding find load
  find-in low high sized = ground arith

  pub find-used : p.pool.size ≡ suc p.total_unit_count → IsUsed → find p (pos i) ≡ ok (some i)
  find-used sized u = rw (find-in u.low u.high sized, u.taken, ==ℤ-refl (pos i))

  pub find-unused :
      p.pool.size ≡ suc p.total_unit_count → link p i ≢ pos i → find p (pos i) ≡ ok none
  unfolding find load
  find-unused sized free = elim (Bool-cases (link p i ==ℤ pos i)) [
    | inl e ↦ absurd (free (==ℤ→eq _ _ e))
    | inr e ↦ ground (arith)
  ]

  pub find-beyond : p.total_unit_count < i → find p (pos i) ≡ ok none
  unfolding find
  find-beyond h = ground arith

  pub used-find : find p (pos i) ≡ ok (some i) → IsUsed
  unfolding find load
  used-find h = ground (arith, ==ℤ→eq (link p i) (pos i))

  pub unused-find : 0 < i → i ≤ p.total_unit_count → find p (pos i) ≡ ok none → link p i ≢ pos i
  unfolding find load
  unused-find low high h e = ground (arith, ==ℤ-refl (pos i))

pub find-zero : {T : Type 0} (p : PoolCtrl T) → find p (pos 0) ≡ ok none
unfolding find
find-zero p = refl

-- In a pool of the right size `find` always answers.
pub find-cases :
    {T : Type 0} (p : PoolCtrl T) (i : ℕ)
    → p.pool.size ≡ suc p.total_unit_count
    → (find p (pos i) ≡ ok none) ⊎ (find p (pos i) ≡ ok (some i))
find-cases p i sized = elim (eq_cases i 0) [
  | inl e ↦ inl (rw e (find-zero p))
  | inr ne ↦ elim (dec_le i p.total_unit_count) [
    | no gt ↦ inl (find-beyond p i (omega arith))
    | yes le ↦ elim (Bool-cases (link p i ==ℤ pos i)) [
      | inl e ↦ inr (
          find-used p i sized
            (record { low = omega arith; high = le; taken = ==ℤ→eq (link p i) (pos i) e }))
      | inr e ↦ inl (
          find-unused p i sized
            (λ q. let r : (pos i ==ℤ pos i) ≡ false = rw q at e in let t = ==ℤ-refl (pos i) in cc))
    ]
  ]
]

pub find-cong :
    {T : Type 0} (p q : PoolCtrl T) (i : ℕ)
    → q.total_unit_count ≡ p.total_unit_count
    → q.pool.size ≡ p.pool.size
    → link q i ≡ link p i
    → find q (pos i) ≡ find p (pos i)
unfolding find load
find-cong p q i e f g = ground arith
