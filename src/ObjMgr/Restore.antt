-- ===== src/ObjMgr/Restore.antt =====
-- ModuleInit after a restart: the map is built again from the players in shared memory.
use play_frame.Common.{ℕ, ◌≡◌, ◌≢◌, ◌⊎◌, inl, inr, Option, none, some, List}
use play_frame.Common.Int.{ℤ, pos}
use play_frame.ShmPool.{PoolCtrl}
use play_frame.ShmPool.FreeList.{On}
use play_frame.ShmPool.Invariant.{IsValid}
use play_frame.ShmPool.Memory.{mem_at, Knows}
use play_frame.ObjMgr.{
  Player, City, ObjMgr, insert_new, bind_uid_to_player_idx, find_player_idx_by_uid,
}
use play_frame.ObjMgr.Invariant.{IsListed, IsBound, IsSound}

-- From `m` to `m'` users of the players `xs` have been mapped.
record Mapped (pool : PoolCtrl Player) (xs : List ℕ) (m m' : ObjMgr) : Type 0 where
  players : m'.player_pool ≡ m.player_pool
  cities : m'.city_pool ≡ m.city_pool
  older :
      (uid : ℕ) (z : ℤ)
      → m.uid_to_player_idx_map uid ≡ some z
      → m'.uid_to_player_idx_map uid ≡ some z
  bound :
      (uid : ℕ) (z : ℤ)
      → m'.uid_to_player_idx_map uid ≡ some z
      → (m.uid_to_player_idx_map uid ≡ some z) ⊎ IsBound pool uid z
  mapped : (x : ℕ) → On xs x → (z : ℤ) × (m'.uid_to_player_idx_map (mem_at pool x).uid ≡ some z)

pub insert_new-some : (o : Option ℤ) (i z : ℤ) → insert_new o i ≡ some z → (o ≡ some z) ⊎ (i ≡ z)
insert_new-some none i z e = inr (cc)
insert_new-some (some old) i z e = inl e

module _ (pool : PoolCtrl Player) (x : ℕ) (known : Knows pool x) (m : ObjMgr) where
  abbrev uid_x : ℕ
  uid_x = (mem_at pool x).uid

  abbrev m1 : ObjMgr
  m1 = bind_uid_to_player_idx m uid_x (pos x)

-- The map holds the user of every player in use, and no other.
pub record Restored (players : PoolCtrl Player) (cities : PoolCtrl City) (m : ObjMgr) : Type 0 where
  pub same_players : m.player_pool ≡ players
  pub same_cities : m.city_pool ≡ cities
  pub found :
      (x : ℕ)
      → Knows players x
      → (y : ℕ) × (find_player_idx_by_uid m (mem_at players x).uid ≡ pos y)
        × Knows players y
        × ((mem_at players y).uid ≡ (mem_at players x).uid)
  pub absent :
      (uid : ℕ)
      → ((x : ℕ) → Knows players x → (mem_at players x).uid ≢ uid)
      → find_player_idx_by_uid m uid ≡ pos 0
  pub sound : IsSound m

module _ (players : PoolCtrl Player) (cities : PoolCtrl City) (valid : IsValid players)
    (valid_cities : IsValid cities)
    (listed : (x : ℕ) → Knows players x → IsListed cities x (mem_at players x).city_list) where
  -- ModuleInit starts with an empty map.
  abbrev empty : ObjMgr
  empty = record { uid_to_player_idx_map = λ uid. none; player_pool = players; city_pool = cities }
