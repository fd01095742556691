-- ===== src/Common/Array.antt =====
-- C arrays: a size and the entries. An access outside the bounds is undefined behaviour.
use Prim.Native.Nat.{ℕ, ◌<◌}
use mathlib.Core.Path.{◌≡◌, refl}
use mathlib.Core.Logic.{◌≢◌}
use play_frame.Common.Tests.{ltb, lt→ltb, ◌==◌, if◌then◌else◌, ne→==, ==_iff}
use play_frame.Common.Int.{ℤ, pos, negsuc}
use play_frame.Common.Run.{Run, ok, fault}

pub record Array {ℓ} (A : Type ℓ) : Type ℓ where
  pub size : ℕ
  pub at : ℕ → A

-- An index of a signed type, as a place in an array.
abbrev pub index : ℤ → Run ℕ
index (pos i) = ok i
index (negsuc i) = fault

module _ {ℓ} {A : Type ℓ} where
  abbrev pub update : (ℕ → A) → ℕ → A → ℕ → A
  update f i v j = if i == j then v else f j

  pub update_self : (f : ℕ → A) (i : ℕ) (v : A) → update f i v i ≡ v
  update_self f i v = rw ((==_iff i i).1 refl)

  pub update_other : (f : ℕ → A) (i j : ℕ) (v : A) → i ≢ j → update f i v j ≡ f j
  update_other f i j v h = rw (ne→== i j h)

  -- `a[i]`
  unfoldable pub load : Array A → ℕ → Run A
  load a i = if ltb i a.size then ok (a.at i) else fault

  -- `a[i] = v`
  abbrev pub set : Array A → ℕ → A → Array A
  set a i v = record a { at = update a.at i v }

  unfoldable pub store : Array A → ℕ → A → Run (Array A)
  store a i v = if ltb i a.size then ok (set a i v) else fault

  pub load-ok : (a : Array A) (i : ℕ) → i < a.size → load a i ≡ ok (a.at i)
  unfolding load
  load-ok a i h = rw (lt→ltb _ _ h)

  pub store-ok : (a : Array A) (i : ℕ) (v : A) → i < a.size → store a i v ≡ ok (set a i v)
  unfolding store
  store-ok a i v h = rw (lt→ltb _ _ h)
