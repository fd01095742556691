-- ===== src/ConnMgr/Invariant.antt =====
-- What holds of the connections between calls, and the laws of the map.
use play_frame.Common.{
  ℕ, ◌+◌, ◌≡◌, ◌≢◌, refl, sym, ap, ◌∙◌, none, some, List, [], ◌∷◌, length, arith, Bool-cases, true,
  false, inl, inr,
}
use play_frame.Common.Int.{ℤ, pos, ◌==ℤ◌, ==ℤ→eq, ==ℤ-refl}
use play_frame.ShmPool
use play_frame.Common.Run.{ok}
use play_frame.ShmPool.{PoolCtrl, find}
use play_frame.ShmPool.Memory.{Knows, mem_at}
use play_frame.Connection.{Connection}
use play_frame.ConnMgr.{ConnMgr, lookup, erase, insert, get_conn}

-- No key stands twice.
abbrev pub IsMap : List (ℤ × ℕ) → Type 0
IsMap [] = Unit
IsMap ((k, x) ∷ map) = (lookup map k ≡ none) × IsMap map

-- Every connection of the map is a unit in use that carries its socket, and every unit in use counts
-- for one entry of the map.
pub record IsSound (m : ConnMgr) : Type 0 where
  pub valid : ShmPool.Invariant.IsValid m.conn_pool
  pub known : (fd : ℤ) (x : ℕ) → get_conn m fd ≡ some x → Knows m.conn_pool x
  pub named : (fd : ℤ) (x : ℕ) → get_conn m fd ≡ some x → (mem_at m.conn_pool x).conn_fd ≡ fd
  pub keyed : IsMap m.conn_map
  pub counted : m.conn_pool.valid_unit_count + length m.conn_map ≡ m.conn_pool.total_unit_count

==ℤ-flip : (a b : ℤ) → (a ==ℤ b) ≡ false → (b ==ℤ a) ≡ false
==ℤ-flip a b h = elim (Bool-cases (b ==ℤ a)) [
  | inl e ↦ let same : b ≡ a = ==ℤ→eq b a e in let t : (a ==ℤ b) ≡ true = rw same (==ℤ-refl a) in cc
  | inr e ↦ e
]

pub lookup-erase_self : (map : List (ℤ × ℕ)) (fd : ℤ) → lookup (erase map fd) fd ≡ none
lookup-erase_self [] fd = refl
lookup-erase_self ((k, x) ∷ map) fd = elim (Bool-cases (k ==ℤ fd)) [
  | inl e ↦ rw e (lookup-erase_self map fd)
  | inr e ↦ rw (e, e) (lookup-erase_self map fd)
]

pub lookup-erase_other :
    (map : List (ℤ × ℕ)) (fd other : ℤ)
    → (fd ==ℤ other) ≡ false
    → lookup (erase map fd) other ≡ lookup map other
lookup-erase_other [] fd other ne = refl
lookup-erase_other ((k, x) ∷ map) fd other ne = elim (Bool-cases (k ==ℤ fd)) [
  | inl e ↦
      let same : k ≡ fd = ==ℤ→eq k fd e in
      let apart : (k ==ℤ other) ≡ false = rw same ne in
      rw (e, apart) (lookup-erase_other map fd other ne)
  | inr e ↦ rw e (elim (Bool-cases (k ==ℤ other)) [
    | inl t ↦ rw t
    | inr f ↦ rw f (lookup-erase_other map fd other ne)
  ])
]

pub erase_absent : (map : List (ℤ × ℕ)) (fd : ℤ) → lookup map fd ≡ none → erase map fd ≡ map
erase_absent [] fd h = refl
erase_absent ((k, x) ∷ map) fd h = elim (Bool-cases (k ==ℤ fd)) [
  | inl e ↦ absurd (let h' : some x ≡ none = rw e at h in cc)
  | inr e ↦ rw e (ap (λ (l : List (ℤ × ℕ)). (k, x) ∷ l) (erase_absent map fd (rw e at h)))
]

pub IsMap-erase : (map : List (ℤ × ℕ)) (fd : ℤ) → IsMap map → IsMap (erase map fd)
IsMap-erase [] fd tt = tt
IsMap-erase ((k, x) ∷ map) fd (absent, keyed) = elim (Bool-cases (k ==ℤ fd)) [
  | inl e ↦ rw e (IsMap-erase map fd keyed)
  | inr e ↦ rw e (lookup-erase_other map fd k (==ℤ-flip k fd e) ∙ absent, IsMap-erase map fd keyed)
]

-- Erasing a key of the map takes out one entry.
pub length-erase :
    (map : List (ℤ × ℕ)) (fd : ℤ) (x : ℕ)
    → IsMap map
    → lookup map fd ≡ some x
    → length (erase map fd) + 1 ≡ length map
length-erase [] fd x tt h = absurd (cc)
length-erase ((k, y) ∷ map) fd x (absent, keyed) h = elim (Bool-cases (k ==ℤ fd)) [
  | inl e ↦
      let same : k ≡ fd = ==ℤ→eq k fd e in
      let gone : lookup map fd ≡ none = ap (lookup map) (sym same) ∙ absent in
      rw (e, erase_absent map fd gone) (omega arith)
  | inr e ↦
      let rest : lookup map fd ≡ some x = rw e at h in
      rw e (omega (arith, length-erase map fd x keyed rest))
]

pub lookup-insert_self :
    (map : List (ℤ × ℕ)) (fd : ℤ) (x : ℕ) → lookup (insert map fd x) fd ≡ some x
lookup-insert_self map fd x = rw (==ℤ-refl fd)

pub lookup-insert_other :
    (map : List (ℤ × ℕ)) (fd : ℤ) (x : ℕ) (other : ℤ)
    → (fd ==ℤ other) ≡ false
    → lookup (insert map fd x) other ≡ lookup map other
lookup-insert_other map fd x other ne = rw ne (lookup-erase_other map fd other ne)

-- A unit in use is not a free one.
pub Knows-apart :
    (pool : PoolCtrl Connection) (x y : ℕ) → find pool (pos x) ≡ ok none → Knows pool y → y ≢ x
Knows-apart pool x y free known same =
    let h : find pool (pos y) ≡ ok none = ap (λ (z : ℕ). find pool (pos z)) same ∙ free in cc
