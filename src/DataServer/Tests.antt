-- ===== src/DataServer/Tests.antt =====
-- A data server with two clients, and a database that answers every query.
use play_frame.Common.{
  ℕ, ◌≤◌, ◌≡◌, refl, true, false, none, some, List, [], ◌∷◌, ◌++◌, arith, Option,
}
use play_frame.Common.Int.{ℤ, pos}
use play_frame.Common.Run.{ok, Returns}
use play_frame.MsgModuleBase.{handle_request}
use play_frame.MysqlMgr
use play_frame.MysqlMgr.{Db, MysqlMgr, ping}
use play_frame.DataServer.Message.{SsMsg, Reply, Callback, Net, DataServer}
use play_frame.DataServer.{msg_wrapper_map, handler, on_get_player_data_req, wired, work, run}
use play_frame.DataServer.Replies.{Sends, Replied, request-Replied}
use play_frame.DataServer.Starve.{Queues, run-starved}
use play_frame.DataServer.Reach.{places, initial, Reaches-single}

-- The outside is the list of the replies. Every message that comes has no command with a handler.
abbrev msg : SsMsg
msg = record {
  seq = 77;
  player_idx = pos 5;
  account_reg_req = record { uid = 1; password_hash = 2; account = none; player_data = [] };
  account_verify_req = record { uid = 1; password_hash = 2 };
  get_player_data_req = record { uid = 1; password_hash = 2 };
  set_player_data_req = record { uid = 1; player_data = [] };
}

abbrev net : Net (List Reply) ℕ ℕ
net = record {
  recv = λ w. (some (some (pos 13, msg)), w);
  send_to_gamesvr = λ r w. w ++ r ∷ [];
  real_escape_string = λ text. text;
  fetch_row = λ res w. (some 4, w);
  fetch_length = λ res w. (some 2, w);
  column = λ row. row ∷ row ∷ row ∷ [];
}

abbrev database : Db (List Reply) ℕ Callback
database = record {
  ping = λ w. (pos 0, w);
  init = λ w. (true, w);
  option = λ i w. (pos 0, w);
  real_connect = λ w. (true, w);
  close = λ w. w;
  real_query = λ sql w. (pos 0, w);
  duplicate = λ w. false;
  store_result = λ w. (some 5, w);
  field_count = λ w. 1;
  call = λ f res flags seq_id player_idx w. w;
}

database-Sends : Sends net database (λ w. w)
database-Sends = record {
  send = λ r w. refl;
  fetch_row = λ res w. refl;
  fetch_length = λ res w. refl;
  ping = λ w. refl;
  init = λ w. refl;
  option = λ i w. refl;
  real_connect = λ w. refl;
  close = λ w. refl;
  real_query = λ sql w. refl;
  store_result = λ w. refl;
}

abbrev server : DataServer ℕ (List Reply)
server = record {
  mgr = record {
    free_client_list = 1 ∷ [];
    clients = λ i. record { sql = []; res = none; callback = none; seq_id = 0; player_idx = pos 0 };
    world = [];
  };
  working = [];
}

-- Client 0 gets a request for the data of a player.
handled :
    (r : ℤ × DataServer ℕ (List Reply)) × (handle_request
        (msg_wrapper_map net)
        0
        (some (pos 19, msg))
        0
        server
      ≡ ok r)
unfolding handle_request on_get_player_data_req
handled = (_, refl)

reached : (ping (wired net database) (server.mgr.world)).0 ≡ pos 0
unfolding ping
reached = refl

request-Replied_example :
    Returns
      (λ d'.
        (d'.mgr.free_client_list ≡ 1 ∷ 0 ∷ [])
        × Replied net database
            (λ w. w)
            database-Sends
            (pos 19)
            msg
            ((handled.0.1).mgr.clients 0)
            ((ping (wired net database) ((handled.0.1).mgr.world)).1)
            []
            d'.mgr.world)
      (work net database (handled.0.1) 0)
request-Replied_example =
    request-Replied net database (λ w. w) database-Sends (pos 19) msg
      (handler net (on_get_player_data_req net)) 0 server (handled.0) refl (handled.1) reached

-- The outside is the queue of the messages that wait; the command 13 has no handler.
abbrev pop_message :
    List (Option (ℤ × SsMsg)) → Option (Option (ℤ × SsMsg)) × List (Option (ℤ × SsMsg))
pop_message [] = (none, [])
pop_message (parsed ∷ later) = (some parsed, later)

abbrev queue : Net (List (Option (ℤ × SsMsg))) ℕ ℕ
queue = record {
  recv = pop_message;
  send_to_gamesvr = λ r w. w;
  real_escape_string = λ text. text;
  fetch_row = λ res w. (some 4, w);
  fetch_length = λ res w. (some 2, w);
  column = λ row. row ∷ [];
}

queue-Queues : Queues {R = ℕ} queue (λ w. w)
queue-Queues = record { next = λ w parsed later e. rw e (refl, refl) }

abbrev noise : List (Option (ℤ × SsMsg))
noise = none ∷ some (pos 13, msg) ∷ []

abbrev flooded : DataServer ℕ (List (Option (ℤ × SsMsg)))
flooded = record {
  mgr = record {
    free_client_list = 1 ∷ 0 ∷ [];
    clients = λ i. record { sql = []; res = none; callback = none; seq_id = 0; player_idx = pos 0 };
    world = noise ++ some (pos 19, msg) ∷ [];
  };
  working = [];
}

run-starved_example :
    Returns
      (λ d'.
        (d'.mgr.free_client_list ≡ [])
        × (d'.working ≡ [])
        × (d'.mgr.world ≡ some (pos 19, msg) ∷ []))
      (run queue flooded)
run-starved_example =
    run-starved queue (λ w. w) queue-Queues flooded noise (some (pos 19, msg) ∷ []) (omega arith)
      refl refl (λ served. served, (λ (wrapper, e). cc, tt))

started :
    (m : MysqlMgr ℕ Callback (List Reply)) × (MysqlMgr.init (wired net database) (pos 2) [] ≡ ok m)
unfolding MysqlMgr.init MysqlMgr.connect MysqlMgr.push_free_client
started = (_, refl)

Reaches-single_example :
    places {R = ℕ} {W = List Reply} (record { mgr = started.0; working = [] }) 1 ≤ 1
Reaches-single_example =
    Reaches-single net database (record { mgr = started.0; working = [] })
      (initial (pos 2) [] (started.1)) 1
