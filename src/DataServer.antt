-- ===== src/DataServer.antt =====
-- src/datasvr/msg_module/msg_module.cpp, with ConvertBinToString of src/datasvr/mysql_module: the
-- data server, which turns the requests of the game server into queries of the database clients, and
-- their results into replies. Sockets, the parser of messages and the MySQL library are fields of
-- `Net` and `Db`, on a state `W` of the outside. Texts are lists of bytes. The static buffers and the
-- pieces of a log are left out.
pub mod Message
pub mod Sql
pub mod Replies
pub mod Clients
pub mod Reach
pub mod Starve
mod Tests
use play_frame.Common.{
  ℕ, zero, suc, ◌+◌, ◌-◌, ◌/◌, ◌%◌, ◌^◌, Bool, true, false, Option, none, some, List, [], ◌∷◌, ◌++◌,
  length, take, concat, ltb, ◌==◌, if◌then◌else◌,
}
use play_frame.Common.Int.{unsigned64, ℤ, pos, negsuc, ◌==ℤ◌}
use play_frame.Common.Run.{Run, ok, fault, ◌>>=◌}
use play_frame.Common.Array.{update}
use play_frame.MsgModuleBase.{MsgWrapper, register, handle_request}
use play_frame.DataServer.Message.{
  AccountRegReq, AccountVerifyReq, SetPlayerDataReq, SsMsg, Reply, Callback, account_reg,
  account_verify, get_player_data, set_player_data, Net, DataServer,
}
use play_frame.DataServer.Sql.{c_str, reg_sql_account, reg_sql_plain, select_sql, set_sql}
use play_frame.MysqlMgr.{
  Db, MysqlMgr, mysql_res_ok, mysql_res_dup, pop_free_client, push_free_client, process,
  thread_work,
}

abbrev pub reg_ret : ℤ → ℤ
reg_ret flags =
    if flags ==ℤ mysql_res_ok then pos 0 else if flags ==ℤ mysql_res_dup then negsuc 1 else negsuc 0

abbrev pub ok_ret : ℤ → ℤ
ok_ret flags = if flags ==ℤ mysql_res_ok then pos 0 else negsuc 0

-- Process of the client: its request, and a byte in its pipe.
request : {R W : Type 0} → DataServer R W → ℕ → List ℕ → Callback → ℕ → ℤ → DataServer R W
unfolding c_str
request d client sql callback seq player_idx =
    let c = process (d.mgr.clients client) (c_str sql) (some callback) seq player_idx in
    record {
      mgr = record d.mgr { clients = update d.mgr.clients client c };
      working = d.working ++ client ∷ [];
    }

-- A list without the first `x`.
abbrev pub without_first : ℕ → List ℕ → List ℕ
without_first x [] = []
without_first x (y ∷ ys) = let rest = without_first x ys in if y == x then ys else y ∷ rest

module _ {W R X : Type 0} (net : Net W R X) where
  -- AccountRegMysqlRes.
  account_reg_mysql_res : ℤ → ℕ → ℤ → W → W
  account_reg_mysql_res flags seq_id player_idx w =
      net.send_to_gamesvr
        (record {
          cmd = pos 12;
          ret = reg_ret flags;
          seq = seq_id;
          player_idx = player_idx;
          player_data = none;
        })
        w

  -- AccountVerifyMysqlRes sets the sequence number twice, and the player not at all.
  account_verify_mysql_res : ℤ → ℕ → ℤ → W → W
  account_verify_mysql_res flags seq_id player_idx w =
      net.send_to_gamesvr
        (record {
          cmd = pos 18;
          ret = ok_ret flags;
          seq = unsigned64 player_idx;
          player_idx = pos 0;
          player_data = none;
        })
        w

  -- GetPlayerDataMysqlRes: the reply for a row and its length.
  abbrev pub player_data_reply : Option X → Option ℕ → ℕ → ℤ → Reply
  player_data_reply (some row) (some len) seq_id player_idx = record {
    cmd = pos 20;
    ret = pos 0;
    seq = seq_id;
    player_idx = player_idx;
    player_data = some (take len (net.column row));
  }
  player_data_reply row len seq_id player_idx = record {
    cmd = pos 20;
    ret = negsuc 0;
    seq = seq_id;
    player_idx = player_idx;
    player_data = none;
  }

  row_reply : Option X → Option R → ℕ → ℤ → W → W
  row_reply none res seq_id player_idx w =
      net.send_to_gamesvr (player_data_reply none none seq_id player_idx) w
  row_reply (some row) res seq_id player_idx w =
      let (len, w') = net.fetch_length res w in
      net.send_to_gamesvr (player_data_reply (some row) len seq_id player_idx) w'

  get_player_data_mysql_res : Option R → ℤ → ℕ → ℤ → W → W
  unfolding row_reply
  get_player_data_mysql_res res flags seq_id player_idx w =
      let (row, w') = net.fetch_row res w in
      if flags ==ℤ mysql_res_ok
      then row_reply row res seq_id player_idx w'
      else net.send_to_gamesvr (player_data_reply none none seq_id player_idx) w

  -- SetPlayerDataMysqlRes.
  set_player_data_mysql_res : ℤ → ℕ → ℤ → W → W
  set_player_data_mysql_res flags seq_id player_idx w =
      net.send_to_gamesvr
        (record {
          cmd = pos 22;
          ret = ok_ret flags;
          seq = seq_id;
          player_idx = player_idx;
          player_data = none;
        })
        w

  -- `(*callback_)(...)`
  unfoldable pub call_mysql_res : Callback → Option R → ℤ → ℕ → ℤ → W → W
  unfolding account_reg_mysql_res account_verify_mysql_res get_player_data_mysql_res
      set_player_data_mysql_res
  call_mysql_res account_reg res flags seq_id player_idx w =
      account_reg_mysql_res flags seq_id player_idx w
  call_mysql_res account_verify res flags seq_id player_idx w =
      account_verify_mysql_res flags seq_id player_idx w
  call_mysql_res get_player_data res flags seq_id player_idx w =
      get_player_data_mysql_res res flags seq_id player_idx w
  call_mysql_res set_player_data res flags seq_id player_idx w =
      set_player_data_mysql_res flags seq_id player_idx w

  -- ConvertBinToString. The escaped text and its 0 go into a buffer of 10240 bytes.
  convert_bin_to_string : List ℕ → Run (List ℕ)
  unfolding c_str
  convert_bin_to_string bin =
      let bin_data = net.real_escape_string bin in
      if ltb (length bin_data) 10240 then ok (c_str bin_data) else fault

  -- The statement of OnAccountRegReq.
  reg_sql : AccountRegReq → Option (List ℕ) → Run (List ℕ)
  unfolding convert_bin_to_string reg_sql_plain reg_sql_account
  reg_sql req none = do
    player_data ← convert_bin_to_string req.player_data
    ok (reg_sql_plain req player_data)
  reg_sql req (some account) =
      if length account == 0
      then (do
        player_data ← convert_bin_to_string req.player_data
        ok (reg_sql_plain req player_data))
      else do
        text ← convert_bin_to_string account
        player_data ← convert_bin_to_string req.player_data
        ok (reg_sql_account req text player_data)

  -- The handlers, each with the client as its argument.
  unfoldable pub on_account_reg_req : SsMsg → ℕ → DataServer R W → Run (ℤ × DataServer R W)
  unfolding reg_sql request
  on_account_reg_req msg client d = do
    let req = msg.account_reg_req
    sql ← reg_sql req req.account
    ok (pos 0, request d client sql account_reg msg.seq msg.player_idx)

  unfoldable pub on_account_verify_req : SsMsg → ℕ → DataServer R W → Run (ℤ × DataServer R W)
  unfolding request select_sql
  on_account_verify_req msg client d =
      let sql =
        select_sql "SELECT uid FROM sg_data WHERE uid = " msg.account_verify_req
          " and password_hash = " in
      ok (pos 0, request d client (take 1023 sql) account_verify msg.seq msg.player_idx)

  unfoldable pub on_get_player_data_req : SsMsg → ℕ → DataServer R W → Run (ℤ × DataServer R W)
  unfolding request select_sql
  on_get_player_data_req msg client d =
      let sql =
        select_sql "SELECT player_data FROM sg_data WHERE uid = " msg.get_player_data_req
          " AND password_hash = " in
      ok (pos 0, request d client sql get_player_data msg.seq msg.player_idx)

  unfoldable pub on_set_player_data_req : SsMsg → ℕ → DataServer R W → Run (ℤ × DataServer R W)
  unfolding request convert_bin_to_string set_sql
  on_set_player_data_req msg client d = do
    let req = msg.set_player_data_req
    player_data ← convert_bin_to_string req.player_data
    ok (pos 0, request d client (set_sql req player_data) set_player_data msg.seq msg.player_idx)

  -- The handlers that ModuleInit registers; there is one package class.
  abbrev pub handler :
      (SsMsg → ℕ → DataServer R W → Run (ℤ × DataServer R W)) → MsgWrapper SsMsg ℕ (DataServer R W)
  handler func = record { package_class = 0; func = func }

  abbrev pub msg_wrapper_map : ℤ → Option (MsgWrapper SsMsg ℕ (DataServer R W))
  msg_wrapper_map =
      register
        (register
          (register (register (λ cmd. none) (pos 11) (handler on_account_reg_req)) (pos 17)
            (handler on_account_verify_req))
          (pos 19) (handler on_get_player_data_req))
        (pos 21) (handler on_set_player_data_req)

  -- What a round of Run does with the client it has got, and with what it has received.
  dispatch : Option (Option (ℤ × SsMsg)) → ℕ → DataServer R W → Run (DataServer R W)
  dispatch none client d = ok (record d { mgr = push_free_client d.mgr client })
  dispatch (some parsed) client d = do
    (ret, d') ← handle_request msg_wrapper_map 0 parsed client d
    ok d'

  round_with : Option ℕ → DataServer R W → Run (DataServer R W)
  unfolding dispatch
  round_with none d = ok d
  round_with (some client) d =
      let (received, w) = net.recv d.mgr.world in
      dispatch received client (record d { mgr = record d.mgr { world = w } })

  -- A round of Run.
  unfoldable pub round : DataServer R W → Run (DataServer R W)
  unfolding round_with
  round d = let (client, mgr) = pop_free_client d.mgr in round_with client (record d { mgr = mgr })

  -- The rounds that are left.
  unfoldable pub rounds : ℕ → DataServer R W → Run (DataServer R W)
  rounds zero d = ok d
  rounds (suc n) d = round d >>= rounds n

  unfoldable pub run : DataServer R W → Run (DataServer R W)
  unfolding rounds
  run d = rounds 1000 d

  -- The database with the callbacks of the data server.
  abbrev pub wired : Db W R Callback → Db W R Callback
  wired db = record db { call = call_mysql_res }

  -- The thread of a client at work takes the byte out of its pipe, and serves the request.
  unfoldable pub work : Db W R Callback → DataServer R W → ℕ → Run (DataServer R W)
  work db d client = do
    mgr ← thread_work (wired db) d.mgr client
    ok (record { mgr = mgr; working = without_first client d.working })
