-- ===== src/ConnMgr/Start.antt =====
-- How the connections start.
use play_frame.Common.{ℕ, ◌+◌, ◌≡◌, refl, arith, none}
use play_frame.Common.Int.{ℤ}
use play_frame.Common.Run.{Returns, returns, Returns-bind}
use play_frame.ShmPool.{PoolCtrl, created}
use play_frame.ShmPool.Init.{init-created}
use play_frame.Connection.{Connection}
use play_frame.ConnMgr.{get_conn, module_init}
use play_frame.ConnMgr.Invariant.{IsSound}

-- With a new segment of one unit more than asked for, ModuleInit makes sound connections, of which
-- there are none, in a pool of the size asked for.
pub module_init-IsSound :
    (size unit_count : ℕ) (p : PoolCtrl Connection)
    → p.pool.size ≡ unit_count + 1
    → Returns
        (λ m.
          IsSound m
          × (m.conn_pool.total_unit_count ≡ unit_count)
          × ((fd : ℤ) → get_conn m fd ≡ none))
        (module_init size unit_count (created p))
unfolding module_init get_conn
module_init-IsSound size unit_count p sized =
    Returns-bind (init-created size unit_count p sized) λ r f. rw f.result (
      returns (
        record {
          valid = f.valid;
          known = λ fd x e. absurd (cc);
          named = λ fd x e. absurd (cc);
          keyed = tt;
          counted = omega (arith, f.all_free, f.total);
        },
        f.total,
        λ fd. refl,
      ))
