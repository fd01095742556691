-- ===== src/MysqlMgr.antt =====
-- src/common/frame/mysql_mgr.h and mysql_mgr.cpp: clients of the database, each with a thread, and the
-- list of the free ones. A client is its number; the calls of the MySQL library, and the functions
-- that get the results, are the fields of `Db` on a state `W` of the outside. `R` are results, `C`
-- callbacks. The threads take turns: `thread_work` is what a thread does for one request.
pub mod Work
mod Tests
use play_frame.Common.{
  ℕ, zero, suc, ◌+◌, Bool, true, false, ◌&&◌, not, Option, none, some, List, [], ◌∷◌, ◌++◌, ltb,
  ◌==◌, if◌then◌else◌,
}
use play_frame.Common.Int.{ℤ, pos, negsuc, ltb_ℤ, leb_ℤ, ◌==ℤ◌}
use play_frame.Common.Run.{Run, ok, fault, ◌>>=◌, ◌>>◌, check}

abbrev pub mysql_res_ok : ℤ
mysql_res_ok = pos 0

abbrev pub mysql_res_failed : ℤ
mysql_res_failed = negsuc 0

abbrev pub mysql_res_dup : ℤ
mysql_res_dup = negsuc 1

abbrev pub max_mysql_client_count : ℕ
max_mysql_client_count = 8

-- The calls of MySQL. `duplicate` is an error number ER_DUP_ENTRY or ER_DUP_KEYNAME, `option` one of the three
-- options that Connect sets.
pub record Db (W R C : Type 0) : Type 0 where
  pub ping : W → ℤ × W
  pub init : W → Bool × W
  pub option : ℕ → W → ℤ × W
  pub real_connect : W → Bool × W
  pub close : W → W
  pub real_query : List ℕ → W → ℤ × W
  pub duplicate : W → Bool
  pub store_result : W → Option R × W
  pub field_count : W → ℕ
  pub call : C → Option R → ℤ → ℕ → ℤ → W → W

pub record MysqlClient (R C : Type 0) : Type 0 where
  pub sql : List ℕ
  pub res : Option R
  pub callback : Option C
  pub seq_id : ℕ
  pub player_idx : ℤ

pub record MysqlMgr (R C W : Type 0) : Type 0 where
  pub free_client_list : List ℕ
  pub clients : ℕ → MysqlClient R C
  pub world : W

unfoldable pub pop_front : List ℕ → Option ℕ × List ℕ
pop_front [] = (none, [])
pop_front (client ∷ rest) = (some client, rest)

-- Process: the request of the client. The byte for the thread goes into a pipe.
unfoldable pub process :
    {R C : Type 0} → MysqlClient R C → List ℕ → Option C → ℕ → ℤ → MysqlClient R C
process c sql callback seq_id player_idx = record c {
  sql = sql;
  callback = callback;
  seq_id = seq_id;
  player_idx = player_idx;
}

-- Init: how many clients are made.
abbrev pub clamp_count : ℤ → ℕ
clamp_count (negsuc n) = 1
clamp_count (pos n) =
    if ltb max_mysql_client_count n then max_mysql_client_count else if n == 0 then 1 else n

module _ {W R C : Type 0} where
  -- PushFreeClient and PopFreeClient.
  unfoldable pub push_free_client : MysqlMgr R C W → ℕ → MysqlMgr R C W
  push_free_client m client = record m { free_client_list = m.free_client_list ++ client ∷ [] }

  unfoldable pub pop_free_client : MysqlMgr R C W → Option ℕ × MysqlMgr R C W
  unfolding pop_front
  pop_free_client m =
      let (client, rest) = pop_front m.free_client_list in
      (client, record m { free_client_list = rest })

  module _ (db : Db W R C) where
    connect_last : W → ℤ × W
    connect_last w =
        let (connected, w') = db.real_connect w in
        if connected then (pos 0, w') else (negsuc 4, db.close w')

    -- Connect: 0, or which of its five calls has failed.
    unfoldable pub connect : W → ℤ × W
    unfolding connect_last
    connect w =
        let (fine, w0) = db.init w in
        if not fine
        then (negsuc 0, w0)
        else let (reconnecting, w1) = db.option 0 w0 in
          if not (reconnecting ==ℤ pos 0)
          then (negsuc 1, db.close w1)
          else let (timeout, w2) = db.option 1 w1 in
            if not (timeout ==ℤ pos 0)
            then (negsuc 2, db.close w2)
            else let (charset, w3) = db.option 2 w2 in
              if not (charset ==ℤ pos 0) then (negsuc 3, db.close w3) else connect_last w3

    -- Ping.
    unfoldable pub ping : W → ℤ × W
    ping w = let (ret, w') = db.ping w in if not (ret ==ℤ pos 0) then connect w' else (pos 0, w')

    -- `(*callback_)(res, flags, seq_id_, player_idx_)`
    call_back : MysqlClient R C → Option C → Option R → ℤ → W → Run W
    call_back c none res flags w = fault
    call_back c (some f) res flags w = ok (db.call f res flags c.seq_id c.player_idx w)

    -- The query has failed.
    query_failed : MysqlClient R C → W → Run W
    unfolding call_back
    query_failed c w =
        if db.duplicate w
        then call_back c c.callback c.res mysql_res_dup w
        else let (connected, w1) = connect (db.close w) in
          let (again, w2) = db.real_query c.sql w1 in
          ok ((if not (again ==ℤ pos 0) then connect (db.close w2) else (pos 0, w2)).1)

    -- The query has worked, and `mysql_store_result` has given `res`.
    query_stored : MysqlClient R C → Option C → Option R → W → Run W
    unfolding call_back
    query_stored c callback none w =
        if db.field_count w == 0
        then call_back c callback none mysql_res_ok w
        else call_back c callback none mysql_res_failed w
    query_stored c none (some res) w = ok w
    query_stored c (some f) (some res) w = call_back c (some f) (some res) mysql_res_ok w

    -- The query and its result.
    run_query : MysqlClient R C → W → Run W
    unfolding query_failed query_stored
    run_query c w =
        let (ret, w1) = db.real_query c.sql w in
        let (res, w2) = db.store_result w1 in
        if not (ret ==ℤ pos 0) then query_failed c w1 else query_stored c c.callback res w2

    -- The part of ThreadLoop behind the `read` of the pipe. `res_` ends as it was, NULL.
    unfoldable pub thread_work : MysqlMgr R C W → ℕ → Run (MysqlMgr R C W)
    unfolding run_query
    thread_work m client =
        let (alive, w) = ping m.world in
        if not (alive ==ℤ pos 0) then ok (record m { world = w }) else (do
          w' ← run_query (m.clients client) w
          ok (push_free_client (record m { world = w' }) client))

    -- The `for` of Init, with the rounds left and `i`; MysqlClient::Init checks its Connect. A new
    -- client has no request.
    unfoldable pub init_clients : ℕ → ℕ → MysqlMgr R C W → Run (MysqlMgr R C W)
    init_clients zero i m = ok m
    init_clients (suc n) i m =
        let (ret, w) = connect m.world in
        do
          check (ret ==ℤ pos 0)
          init_clients n (i + 1) (push_free_client (record m { world = w }) i)

    unfoldable pub init : ℤ → W → Run (MysqlMgr R C W)
    unfolding init_clients
    init max_client_count w = init_clients (clamp_count max_client_count) 0 (record {
      free_client_list = [];
      clients =
          λ i. record { sql = []; res = none; callback = none; seq_id = 0; player_idx = pos 0 };
      world = w;
    })
