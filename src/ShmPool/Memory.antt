-- ===== src/ShmPool/Memory.antt =====
-- The memory behind the pointers that the pool gives out, as clients read and write it.
use play_frame.Common.{
  lt→ltb, ℕ, ◌<◌, ◌≡◌, ◌≢◌, refl, ap, ◌∙◌, arith, Option, some, none, inl, inr, eq_cases,
}
use mathlib.Core.Path.{fun_ext}
use play_frame.Common.Int.{ℤ, pos}
use play_frame.Common.Run.{Run, ok, fault, ◌>>=◌}
use play_frame.Common.Array.{load, store, set, update_self, update_other, load-ok, store-ok}
use play_frame.ShmPool.{PoolUnit, PoolCtrl, find, get_pos}
use play_frame.ShmPool.FreeList.{field-update}
use play_frame.ShmPool.Invariant.{link, IsValid}
use play_frame.ShmPool.Find.{find-cong, used-find}

-- A pointer that must not be null.
abbrev pub deref {ℓ} : {A : Type ℓ} → Option A → Run A
deref none = fault
deref (some a) = ok a

module _ {T : Type 0} where
  -- `*p` as a value, and as the target of an assignment.
  unfoldable pub read : PoolCtrl T → ℕ → Run T
  read p x = do u ← load p.pool x; ok u.mem

  unfoldable pub write : PoolCtrl T → ℕ → T → Run (PoolCtrl T)
  write p x value = do
    u ← load p.pool x
    units ← store p.pool x (record u { mem = value })
    ok (record p { pool = units })

  -- What the unit holds.
  abbrev pub mem_at : PoolCtrl T → ℕ → T
  mem_at p x = (p.pool.at x).mem

  -- The unit is one that `find` knows.
  abbrev pub Knows : PoolCtrl T → ℕ → Type 0
  Knows p x = find p (pos x) ≡ ok (some x)

  abbrev pub written : PoolCtrl T → ℕ → T → PoolCtrl T
  written p x value = record p { pool = set p.pool x (record (p.pool.at x) { mem = value }) }

  module _ (p : PoolCtrl T) (x : ℕ) where
    pub Knows-inside : Knows p x → x < p.pool.size
    unfolding find load
    Knows-inside h = ground arith

    pub read-mem_at : Knows p x → read p x ≡ ok (mem_at p x)
    unfolding read
    read-mem_at h = rw (load-ok p.pool x (Knows-inside h))

    pub get_pos-Knows : Knows p x → get_pos p x ≡ ok (pos x)
    unfolding get_pos
    get_pos-Knows h =
        let u = used-find p x h in rw (load-ok p.pool x (Knows-inside h), u.taken, lt→ltb 0 x u.low)

    module _ (value : T) where
      pub write-written : Knows p x → write p x value ≡ ok (written p x value)
      unfolding write
      write-written h =
          let i = Knows-inside h in
          rw (load-ok p.pool x i) (rw (store-ok p.pool x (record (p.pool.at x) { mem = value }) i))

      pub link-written : link (written p x value) ≡ link p
      link-written =
          field-update (λ (u : PoolUnit T). u.pos) p.pool.at x _
          ∙ fun_ext λ j. elim (eq_cases x j) [
            | inl e ↦ rw e (update_self (link p) j (link p j))
            | inr ne ↦ update_other (link p) x j (link p x) ne
          ]

      pub written-IsValid : IsValid p → IsValid (written p x value)
      written-IsValid (fs, v) = (
        fs,
        record {
          sized = v.sized;
          chained = rw link-written v.chained;
          distinct = v.distinct;
          counted = v.counted;
          in_use = rw link-written v.in_use;
          covered = rw link-written v.covered;
        },
      )

      pub find-written : (j : ℕ) → find (written p x value) (pos j) ≡ find p (pos j)
      find-written j =
          find-cong p (written p x value) j refl refl (ap (λ (f : ℕ → ℤ). f j) link-written)

      pub mem_at-written_self : mem_at (written p x value) x ≡ value
      mem_at-written_self = ap (λ (u : PoolUnit T). u.mem) (update_self p.pool.at x _)

      pub mem_at-written_other : (j : ℕ) → x ≢ j → mem_at (written p x value) j ≡ mem_at p j
      mem_at-written_other j ne = ap (λ (u : PoolUnit T). u.mem) (update_other p.pool.at x j _ ne)
