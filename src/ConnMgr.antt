-- ===== src/ConnMgr.antt =====
-- src/connsvr/conn_mgr_module/conn_mgr_module.h and conn_mgr_module.cpp: the connections, in a pool in
-- shared memory, and the map from sockets to them. A `Connection*` is its unit in the pool. Closing
-- a socket is an argument; `W` is the state of the system outside.
pub mod Invariant
pub mod Start
pub mod Create
pub mod Release
pub mod Sample
mod Tests
use play_frame.Common.{ℕ, ◌+◌, Bool, Option, none, some, List, [], ◌∷◌, length, if◌then◌else◌}
use play_frame.Common.Int.{ℤ, pos, ◌==ℤ◌}
use play_frame.Common.Run.{Run, ok, ◌>>=◌, ◌>>◌, check}
use play_frame.ShmPool
use play_frame.ShmPool.{PoolCtrl, Segment, alloc, release}
use play_frame.ShmPool.Memory.{read, write, deref}
use play_frame.Connection.{Connection, blank_connection}

pub record ConnMgr : Type 0 where
  pub conn_pool : PoolCtrl Connection
  pub conn_map : List (ℤ × ℕ)

-- `find`, `operator []` as the target of an assignment, and `erase` of the map.
abbrev pub lookup : List (ℤ × ℕ) → ℤ → Option ℕ
lookup [] fd = none
lookup ((k, x) ∷ map) fd = if k ==ℤ fd then some x else lookup map fd

abbrev pub erase : List (ℤ × ℕ) → ℤ → List (ℤ × ℕ)
erase [] fd = []
erase ((k, x) ∷ map) fd = let rest = erase map fd in if k ==ℤ fd then rest else (k, x) ∷ rest

abbrev pub insert : List (ℤ × ℕ) → ℤ → ℕ → List (ℤ × ℕ)
insert map fd x = (fd, x) ∷ erase map fd

-- ModuleInit. It removes the segment of an earlier run, so that `conns` is a new one; the size of a
-- unit comes before the number of units.
unfoldable pub module_init : ℕ → ℕ → Segment Connection → Run ConnMgr
module_init size conn_pool_size conns = do
  (ret, conn_ctrl) ← ShmPool.init size conn_pool_size conns
  check (ret ==ℤ pos 0)
  conn_pool ← deref conn_ctrl
  ok (record { conn_pool = conn_pool; conn_map = [] })

-- The memory is cleared before any test for NULL.
unfoldable pub create_conn : ConnMgr → ℤ → Run (ℕ × ConnMgr)
create_conn m conn_fd = do
  (conn, pool) ← alloc m.conn_pool
  x ← deref conn
  pool' ← write pool x blank_connection
  ok (x, record { conn_pool = pool'; conn_map = insert m.conn_map conn_fd x })

unfoldable pub get_conn : ConnMgr → ℤ → Option ℕ
get_conn m conn_fd = lookup m.conn_map conn_fd

unfoldable pub get_cur_conn_map_size : ConnMgr → ℕ
get_cur_conn_map_size m = length m.conn_map

module _ {W : Type 0} (close : ℤ → W → W) where
  -- The part of ReleaseConn behind the search.
  release_found : ConnMgr → Option ℕ → ℤ → W → Run (ConnMgr × W)
  release_found m none conn_fd w = ok (m, w)
  release_found m (some x) conn_fd w = do
    conn ← read m.conn_pool x
    if conn.conn_fd ==ℤ conn_fd
        then (do
          pool ← release m.conn_pool x
          ok (record { conn_pool = pool; conn_map = erase m.conn_map conn_fd }, close conn_fd w))
        else ok (m, w)

  unfoldable pub release_conn : ConnMgr → ℤ → W → Run (ConnMgr × W)
  unfolding release_found
  release_conn m conn_fd w = release_found m (lookup m.conn_map conn_fd) conn_fd w
