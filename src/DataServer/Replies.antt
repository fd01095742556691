-- ===== src/DataServer/Replies.antt =====
-- From a request to its reply.
use play_frame.Common.{
  ℕ, ◌≡◌, refl, sym, ap, ◌∙◌, ◌⊎◌, inl, inr, Option, none, some, List, [], ◌∷◌, ◌++◌, Bool-cases,
  subst,
}
use play_frame.Common.Int.{unsigned64, ℤ, pos, negsuc, ◌==ℤ◌, ==ℤ→eq}
use play_frame.Common.Run.{ok, Returns, returns, Returns-bind, Returns-map, ok-bind, Returns-ok}
use play_frame.MsgModuleBase.{MsgWrapper, handle_request, handle_request-found}
use play_frame.MysqlMgr.{MysqlClient, MysqlMgr, Db, mysql_res_ok, ping}
use play_frame.MysqlMgr.Work.{Outcome, Answer, Answers, thread_work-Outcome}
use play_frame.DataServer.Message.{
  SsMsg, Reply, Callback, account_reg, account_verify, get_player_data, set_player_data, Net,
  DataServer,
}
use play_frame.DataServer.{
  reg_ret, ok_ret, player_data_reply, row_reply, call_mysql_res, account_reg_mysql_res,
  account_verify_mysql_res, get_player_data_mysql_res, set_player_data_mysql_res, msg_wrapper_map,
  wired, work,
}
use play_frame.DataServer.Clients.{Asked, request_cmd, found-IsHandler}

-- The reply of a callback to a request with this answer.
abbrev pub IsReply : Callback → Answer → Reply → Type 0
IsReply account_reg (flags, seq, player_idx) r = r ≡ record {
  cmd = pos 12;
  ret = reg_ret flags;
  seq = seq;
  player_idx = player_idx;
  player_data = none;
}
IsReply account_verify (flags, seq, player_idx) r = r ≡ record {
  cmd = pos 18;
  ret = ok_ret flags;
  seq = unsigned64 player_idx;
  player_idx = pos 0;
  player_data = none;
}
IsReply get_player_data (flags, seq, player_idx) r =
    (r.cmd ≡ pos 20)
    × (r.seq ≡ seq)
    × (r.player_idx ≡ player_idx)
    × (((r.ret ≡ negsuc 0) × (r.player_data ≡ none))
        ⊎ ((flags ≡ mysql_res_ok) × (r.ret ≡ pos 0) × ((d : List ℕ) × (r.player_data ≡ some d))))
IsReply set_player_data (flags, seq, player_idx) r = r ≡ record {
  cmd = pos 22;
  ret = ok_ret flags;
  seq = seq;
  player_idx = player_idx;
  player_data = none;
}

module _ {W R X : Type 0} where
  -- Only SendToGamesvr sends a reply.
  pub record Sends (net : Net W R X) (db : Db W R Callback) (replies : W → List Reply)
      : Type 0 where
    pub send : (r : Reply) (w : W) → replies (net.send_to_gamesvr r w) ≡ replies w ++ r ∷ []
    pub fetch_row : (res : Option R) (w : W) → replies ((net.fetch_row res w).1) ≡ replies w
    pub fetch_length : (res : Option R) (w : W) → replies ((net.fetch_length res w).1) ≡ replies w
    pub ping : (w : W) → replies ((db.ping w).1) ≡ replies w
    pub init : (w : W) → replies ((db.init w).1) ≡ replies w
    pub option : (i : ℕ) (w : W) → replies ((db.option i w).1) ≡ replies w
    pub real_connect : (w : W) → replies ((db.real_connect w).1) ≡ replies w
    pub close : (w : W) → replies (db.close w) ≡ replies w
    pub real_query : (sql : List ℕ) (w : W) → replies ((db.real_query sql w).1) ≡ replies w
    pub store_result : (w : W) → replies ((db.store_result w).1) ≡ replies w

  module _ (net : Net W R X) (db : Db W R Callback) (replies : W → List Reply)
      (s : Sends net db replies) where
    abbrev Told : Callback → Option R → ℤ → ℕ → ℤ → W → Type 0
    Told f res flags seq player_idx w =
        (r : Reply) × IsReply f (flags, seq, player_idx) r
        × (replies (call_mysql_res net f res flags seq player_idx w) ≡ replies w ++ r ∷ [])

    row-IsReply :
        (row : X) (len : Option ℕ) (seq : ℕ) (player_idx : ℤ)
        → IsReply get_player_data
            (mysql_res_ok, seq, player_idx)
            (player_data_reply net (some row) len seq player_idx)
    row-IsReply row none seq player_idx = (refl, refl, refl, inl (refl, refl))
    row-IsReply row (some len) seq player_idx = (refl, refl, refl, inr (refl, refl, (_, refl)))

    row-Told :
        (row : Option X) (res : Option R) (seq : ℕ) (player_idx : ℤ) (w : W)
        → (r : Reply) × IsReply get_player_data (mysql_res_ok, seq, player_idx) r
          × (replies (row_reply net row res seq player_idx w) ≡ replies w ++ r ∷ [])
    unfolding row_reply
    row-Told none res seq player_idx w = (_, (refl, refl, refl, inl (refl, refl)), s.send _ w)
    row-Told (some row) res seq player_idx w =
        let (len, w') = net.fetch_length res w in
        (
          _,
          row-IsReply row len seq player_idx,
          s.send _ w'
              ∙ ap
                  (λ (l : List Reply).
                    l ++ player_data_reply net (some row) len seq player_idx ∷ [])
                  (s.fetch_length res w),
        )

    call-Told :
        (f : Callback) (res : Option R) (flags : ℤ) (seq : ℕ) (player_idx : ℤ) (w : W)
        → Told f res flags seq player_idx w
    unfolding call_mysql_res account_reg_mysql_res account_verify_mysql_res
        get_player_data_mysql_res set_player_data_mysql_res
    call-Told account_reg res flags seq player_idx w = (_, refl, s.send _ w)
    call-Told account_verify res flags seq player_idx w = (_, refl, s.send _ w)
    call-Told set_player_data res flags seq player_idx w = (_, refl, s.send _ w)
    call-Told get_player_data res flags seq player_idx w =
        elim (Bool-cases (flags ==ℤ mysql_res_ok)) [
          | inr e ↦ rw e (_, (refl, refl, refl, inl (refl, refl)), s.send _ w)
          | inl e ↦
              let q = ==ℤ→eq flags mysql_res_ok e in
              let (row, w') = net.fetch_row res w in
              let (r, i, t) = row-Told row res seq player_idx w' in
              (
                r,
                subst (λ (z : ℤ). IsReply get_player_data (z, seq, player_idx) r) (sym q) i,
                rw e (t ∙ ap (λ (l : List Reply). l ++ r ∷ []) (s.fetch_row res w)),
              )
        ]

    wired-Answers : Answers (wired net db) replies IsReply
    wired-Answers = record {
      ping = s.ping;
      init = s.init;
      option = s.option;
      real_connect = s.real_connect;
      close = s.close;
      real_query = s.real_query;
      store_result = s.store_result;
      call = call-Told;
    }

    -- The replies are `new` after those of `old`, for the message `msg` whose query the client `c`
    -- makes at `w`: one reply with the outcome of the query, or none where it has failed other than
    -- with a duplicate key.
    abbrev pub Replied : ℤ → SsMsg → MysqlClient R Callback → W → List Reply → List Reply → Type 0
    Replied cmd msg c w old new =
        (f : Callback) × (cmd ≡ pos (request_cmd f))
        × Outcome (wired net db) IsReply f
            (record c { seq_id = msg.seq; player_idx = msg.player_idx }) w old new

    -- The thread of a client that has got a request.
    work-Replied :
        (cmd : ℤ) (msg : SsMsg) (client : ℕ) (d d' : DataServer R W)
        → Asked cmd msg client d d'
        → (ping (wired net db) d'.mgr.world).0 ≡ pos 0
        → Returns
            (λ d''.
              (d''.mgr.free_client_list ≡ d'.mgr.free_client_list ++ client ∷ [])
              × Replied cmd msg
                  (d'.mgr.clients client)
                  ((ping (wired net db) d'.mgr.world).1)
                  (replies d.mgr.world)
                  (replies d''.mgr.world))
            (work net db d' client)
    unfolding work
    work-Replied cmd msg client d d' a alive =
        Returns-bind
          (thread_work-Outcome (wired net db) replies IsReply wired-Answers d'.mgr client a.callback
            a.set alive)
          λ m (free, outcome). returns (
            free,
            (
              a.callback,
              a.cmd_of,
              subst (λ (old : List Reply). outcome_of msg.seq msg.player_idx old m)
                  (ap replies a.world)
                  (subst (λ (p : ℤ). outcome_of msg.seq p (replies d'.mgr.world) m) a.player_idx
                    (subst
                      (λ (n : ℕ).
                        outcome_of n (d'.mgr.clients client).player_idx (replies d'.mgr.world) m)
                      a.seq outcome)),
            ),
          )
      where
        outcome_of : ℕ → ℤ → List Reply → MysqlMgr R Callback W → Type 0
        outcome_of n p old m =
            Outcome (wired net db) IsReply a.callback
              (record (d'.mgr.clients client) { seq_id = n; player_idx = p })
              ((ping (wired net db) d'.mgr.world).1) old (replies m.world)

    -- A request with a handler, which the data server has given to a client, where the database is
    -- within reach: the thread of the client ends, and the client is free again, behind the others.
    -- Where the first `mysql_real_query` has worked, the game server has got one reply, to OK or FAILED;
    -- where it has failed with a duplicate key, one reply, to DUP; where it has failed otherwise, none.
    -- The reply is that of the request's command; it has the request's sequence number and player, but for the reply to a
    -- verification: that has the number of the player as its sequence number, and no player.
    pub request-Replied :
        (cmd : ℤ) (msg : SsMsg) (wrapper : MsgWrapper SsMsg ℕ (DataServer R W)) (client : ℕ)
        (d : DataServer R W) (r : ℤ × DataServer R W)
        → msg_wrapper_map net cmd ≡ some wrapper
        → handle_request (msg_wrapper_map net) 0 (some (cmd, msg)) client d ≡ ok r
        → (ping (wired net db) d.mgr.world).0 ≡ pos 0
        → Returns
            (λ d'.
              (d'.mgr.free_client_list ≡ d.mgr.free_client_list ++ client ∷ [])
              × Replied cmd msg
                  ((r.1).mgr.clients client)
                  ((ping (wired net db) (r.1).mgr.world).1)
                  (replies d.mgr.world)
                  (replies d'.mgr.world))
            (work net db (r.1) client)
    request-Replied cmd msg wrapper client d r found handled alive =
        let h = found-IsHandler net cmd wrapper found in
        let e =
          rw (handle_request-found (msg_wrapper_map net) 0 cmd msg client d wrapper found h.0) at
            handled in
        let (p, g) = ok-bind (wrapper.func msg client d) (λ q. ok (pos 0, q.1)) r e in
        let (taken, asked) = h.1 msg client d p g in
        let same : p.1 ≡ r.1 = Returns-ok {Post = λ q. p.1 ≡ q.1} r (returns refl) (rw g at e) in
        subst
          (λ (u : DataServer R W).
            Returns
              (λ d'.
                (d'.mgr.free_client_list ≡ d.mgr.free_client_list ++ client ∷ [])
                × Replied cmd msg (u.mgr.clients client) ((ping (wired net db) u.mgr.world).1)
                    (replies d.mgr.world) (replies d'.mgr.world))
              (work net db u client))
          same
          (Returns-map (work-Replied cmd msg client d (p.1) asked (rw asked.world alive))
            λ d' (free, o). (free ∙ ap (λ (l : List ℕ). l ++ client ∷ []) taken.0, o))
