-- ===== src/ObjMgr/Invariant.antt =====
-- What holds of the players and the cities between calls.
use play_frame.Common.{ℕ, ◌≤◌, ◌<◌, ◌≡◌, ◌≢◌, ◌⊎◌, inl, inr, none, some, arith, false, eq_cases}
use play_frame.Common.Int.{ℤ, pos, leb_ℤ}
use play_frame.Common.Run.{ok}
use play_frame.Common.Array.{Array}
use play_frame.ShmPool.{PoolCtrl, find}
use play_frame.ShmPool.Invariant.{IsValid}
use play_frame.ShmPool.Find.{used-find, find-zero, find-cases}
use play_frame.ShmPool.Memory.{mem_at, Knows}
use play_frame.ObjMgr.{Player, City, ObjMgr, get_player, get_city}

-- The entry `i` of the city list of the player `x` is empty, or a city in use that names this player.
abbrev pub IsOwned : PoolCtrl City → ℕ → ℤ → Type 0
IsOwned cities x z =
    (z ≡ pos 0) ⊎ ((c : ℕ) × (z ≡ pos c) × Knows cities c × ((mem_at cities c).player_idx ≡ pos x))

-- The city list of the player `x`: its length, its entries, and its count, which is 0 only where all
-- entries are empty.
pub record IsListed (cities : PoolCtrl City) (x : ℕ) (list : Array ℤ) : Type 0 where
  pub sized : list.size ≡ 101
  pub owned : (i : ℕ) → 1 ≤ i → i < 100 → IsOwned cities x (list.at i)
  pub number : ℕ
  pub counted : list.at 0 ≡ pos number
  pub empty : number ≡ 0 → (i : ℕ) → 1 ≤ i → i < 100 → list.at i ≡ pos 0

-- A user is mapped only to a player in use with this user's id.
abbrev pub IsBound : PoolCtrl Player → ℕ → ℤ → Type 0
IsBound players uid z = (x : ℕ) × (z ≡ pos x) × Knows players x × ((mem_at players x).uid ≡ uid)

pub record IsSound (m : ObjMgr) : Type 0 where
  pub players : IsValid m.player_pool
  pub cities : IsValid m.city_pool
  pub bound : (uid : ℕ) (z : ℤ) → m.uid_to_player_idx_map uid ≡ some z → IsBound m.player_pool uid z
  pub listed :
      (x : ℕ) → Knows m.player_pool x → IsListed m.city_pool x (mem_at m.player_pool x).city_list

module _ {T : Type 0} (p : PoolCtrl T) where
  pub Knows-pos : (x : ℕ) → Knows p x → 0 < x
  Knows-pos x h = (used-find p x h).low

  -- A unit that is unknown is not known.
  pub unknown : (x y : ℕ) → find p (pos x) ≡ ok none → Knows p y → y ≢ x
  unknown x y h k e = let h' : find p (pos y) ≡ ok none = rw e h in cc

  pub known-cases : (x : ℕ) → IsValid p → (find p (pos x) ≡ ok none) ⊎ Knows p x
  known-cases x (fs, v) = find-cases p x v.sized

positive_idx : (x : ℕ) → 0 < x → leb_ℤ (pos x) (pos 0) ≡ false
positive_idx x h = ground arith

module _ (m : ObjMgr) (x : ℕ) where
  pub get_player-find : get_player m (pos x) ≡ find m.player_pool (pos x)
  unfolding get_player
  get_player-find = elim (eq_cases x 0) [
    | inl e ↦ rw (e, find-zero m.player_pool)
    | inr ne ↦ rw (positive_idx x (omega arith))
  ]

  pub get_city-find : get_city m (pos x) ≡ find m.city_pool (pos x)
  unfolding get_city
  get_city-find = elim (eq_cases x 0) [
    | inl e ↦ rw (e, find-zero m.city_pool)
    | inr ne ↦ rw (positive_idx x (omega arith))
  ]
