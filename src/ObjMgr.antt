-- ===== src/ObjMgr.antt =====
-- src/gamesvr/obj_mgr_module: the players and their cities, each kind in a pool in shared memory, and
-- the map from a user's id to the position of the player. A pointer to a player or to a city is its
-- unit in the pool. The map is a function. What the two pools find in shared memory, and the sizes in
-- the configuration, are arguments of `module_init`.
pub mod Invariant
pub mod Players
pub mod Remove
pub mod Delete
pub mod Places
pub mod Cities
pub mod AddCity
pub mod Restore
pub mod Users
pub mod Sample
mod Tests
use play_frame.Common.{
  ℕ, zero, suc, ◌+◌, ◌-◌, Bool, not, Option, none, some, ltb, leb, ◌==◌, if◌then◌else◌,
}
use play_frame.Common.Int.{ℤ, pos, negsuc, ◌+ℤ◌, is_positive, ◌==ℤ◌, leb_ℤ}
use play_frame.Common.Run.{Run, ok, fault, ◌>>=◌, ◌>>◌, check}
use play_frame.Common.Array.{Array, load, store}
use play_frame.ShmPool
use play_frame.ShmPool.{PoolCtrl, Segment, alloc, find, release, get_pos, travel_pool}
use play_frame.ShmPool.Memory.{read, write, deref}

abbrev pub max_city_num_per_player : ℕ
max_city_num_per_player = 100

-- `city_list[0]` is the number of cities.
pub record Player : Type 0 where
  pub conn_fd : ℤ
  pub uid : ℕ
  pub password_hash : ℕ
  pub city_list : Array ℤ
  pub money : ℤ
  pub level : ℤ

pub record City : Type 0 where
  pub player_idx : ℤ
  pub population : ℤ

-- Player::init and City::init, whatever the memory held.
abbrev pub blank_player : Player
blank_player = record {
  conn_fd = pos 0;
  uid = 0;
  password_hash = 0;
  city_list = record { size = max_city_num_per_player + 1; at = λ i. pos 0 };
  money = pos 0;
  level = pos 0;
}

abbrev pub blank_city : City
blank_city = record { player_idx = pos 0; population = pos 0 }

pub record ObjMgr : Type 0 where
  pub uid_to_player_idx_map : ℕ → Option ℤ
  pub player_pool : PoolCtrl Player
  pub city_pool : PoolCtrl City

abbrev pub idx_or_zero : Option ℤ → ℤ
idx_or_zero none = pos 0
idx_or_zero (some player_idx) = player_idx

unfoldable pub find_player_idx_by_uid : ObjMgr → ℕ → ℤ
find_player_idx_by_uid m uid = idx_or_zero (m.uid_to_player_idx_map uid)

-- `insert` of a map does nothing where the key is taken.
abbrev pub insert_new : Option ℤ → ℤ → Option ℤ
insert_new (some old) player_idx = some old
insert_new none player_idx = some player_idx

unfoldable pub bind_uid_to_player_idx : ObjMgr → ℕ → ℤ → ObjMgr
bind_uid_to_player_idx m uid player_idx = record m {
  uid_to_player_idx_map = λ u.
      if uid == u
      then insert_new (m.uid_to_player_idx_map u) player_idx
      else m.uid_to_player_idx_map u;
}

abbrev pub erase_same : Option ℤ → ℤ → Option ℤ
erase_same none player_idx = none
erase_same (some old) player_idx = if old ==ℤ player_idx then none else some old

unfoldable pub erase_uid_to_player_idx : ObjMgr → ℕ → ℤ → ObjMgr
erase_uid_to_player_idx m uid player_idx = record m {
  uid_to_player_idx_map = λ u.
      if uid == u
      then erase_same (m.uid_to_player_idx_map u) player_idx
      else m.uid_to_player_idx_map u;
}

-- RestoreUidToPlayerIdxMap.
unfoldable pub restore : ℕ → ObjMgr → Run ObjMgr
restore player m = do
  p ← read m.player_pool player
  player_idx ← get_pos m.player_pool player
  ok (bind_uid_to_player_idx m p.uid player_idx)

-- ModuleInit. The size of a unit comes before the number of units.
unfoldable pub module_init : ℕ → ℕ → Segment Player → ℕ → ℕ → Segment City → Run ObjMgr
module_init player_size player_pool_size players city_size city_pool_size cities = do
  (player_ret, player_ctrl) ← ShmPool.init player_size player_pool_size players
  check (player_ret ==ℤ pos 0)
  player_pool ← deref player_ctrl
  (city_ret, city_ctrl) ← ShmPool.init city_size city_pool_size cities
  check (city_ret ==ℤ pos 0)
  city_pool ← deref city_ctrl
  travel_pool player_pool restore (record {
    uid_to_player_idx_map = λ uid. none;
    player_pool = player_pool;
    city_pool = city_pool;
  })

-- AddPlayer. The memory is cleared before the test for NULL.
unfoldable pub add_player : ObjMgr → Run (ℤ × ObjMgr)
add_player m = do
  (player, pool) ← alloc m.player_pool
  x ← deref player
  pool' ← write pool x blank_player
  player_idx ← get_pos pool' x
  ok (player_idx, record m { player_pool = pool' })

unfoldable pub get_player : ObjMgr → ℤ → Run (Option ℕ)
get_player m player_idx =
    if leb_ℤ player_idx (pos 0) then ok none else find m.player_pool player_idx

unfoldable pub get_player_idx : ObjMgr → ℕ → Run ℤ
get_player_idx m player = get_pos m.player_pool player

unfoldable pub get_city : ObjMgr → ℤ → Run (Option ℕ)
get_city m city_idx = if leb_ℤ city_idx (pos 0) then ok none else find m.city_pool city_idx

unfoldable pub get_city_idx : ObjMgr → ℕ → Run ℤ
get_city_idx m city = get_pos m.city_pool city

release_city : ObjMgr → Option ℕ → Run ObjMgr
release_city m none = ok m
release_city m (some city) = do pool ← release m.city_pool city; ok (record m { city_pool = pool })

unfoldable pub del_city : ObjMgr → ℤ → Run ObjMgr
unfolding release_city
del_city m city_idx = do city ← get_city m city_idx; release_city m city

-- The `for` of DelPlayer, with the rounds left and `i`.
pub del_cities : ℕ → ℕ → ObjMgr → ℕ → Run ObjMgr
del_cities zero i m player = ok m
del_cities (suc n) i m player = do
  p ← read m.player_pool player
  city_idx ← load p.city_list i
  m' ← if city_idx ==ℤ pos 0 then ok m else del_city m city_idx
  del_cities n (i + 1) m' player

release_player : ObjMgr → Option ℕ → Run ObjMgr
unfolding del_cities
release_player m none = ok m
release_player m (some player) = do
  p ← read m.player_pool player
  player_idx ← get_player_idx m player
  let m1 = erase_uid_to_player_idx m p.uid player_idx
  count ← load p.city_list 0
  m2 ← if is_positive count then del_cities (max_city_num_per_player - 1) 1 m1 player else ok m1
  pool ← release m2.player_pool player
  ok (record m2 { player_pool = pool })

unfoldable pub del_player : ObjMgr → ℤ → Run ObjMgr
unfolding release_player
del_player m player_idx = do player ← get_player m player_idx; release_player m player

-- The part of AddCity behind the free place `i` of the list.
pub found_city : ObjMgr → ℕ → Player → ℤ → ℕ → Run (ℤ × ObjMgr)
found_city m player p player_idx i = do
  (city, pool) ← alloc m.city_pool
  x ← deref city
  pool1 ← write pool x blank_city
  city_idx ← get_pos pool1 x
  count ← load p.city_list 0
  counted ← store p.city_list 0 (count +ℤ pos 1)
  listed ← store counted i city_idx
  players ← write m.player_pool player (record p { city_list = listed })
  c ← read pool1 x
  pool2 ← write pool1 x (record c { player_idx = player_idx })
  ok (city_idx, record m { player_pool = players; city_pool = pool2 })

-- The `for` of AddCity, with the rounds left and `i`.
pub find_place : ℕ → ℕ → ObjMgr → ℕ → Player → ℤ → Run (ℤ × ObjMgr)
unfolding found_city
find_place zero i m player p player_idx = ok (negsuc 3, m)
find_place (suc n) i m player p player_idx =
    let rest = find_place n (i + 1) m player p player_idx in
    load p.city_list i >>= λ city_idx.
    if city_idx ==ℤ pos 0 then found_city m player p player_idx i else rest

add_city_to : ObjMgr → Option ℕ → ℤ → Run (ℤ × ObjMgr)
add_city_to m none player_idx = ok (negsuc 0, m)
add_city_to m (some player) player_idx = do
  p ← read m.player_pool player
  count ← load p.city_list 0
  if leb_ℤ (pos max_city_num_per_player) count
      then ok (negsuc 1, m)
      else find_place (max_city_num_per_player - 1) 1 m player p player_idx

unfoldable pub add_city : ObjMgr → ℤ → Run (ℤ × ObjMgr)
unfolding add_city_to
add_city m player_idx = do player ← get_player m player_idx; add_city_to m player player_idx

-- Player::set_uid.
unfoldable pub set_uid : ObjMgr → ℕ → ℕ → Run ObjMgr
set_uid m player uid = do
  player_idx ← get_player_idx m player
  let m1 = bind_uid_to_player_idx m uid player_idx
  p ← read m1.player_pool player
  pool ← write m1.player_pool player (record p { uid = uid })
  ok (record m1 { player_pool = pool })
