-- ===== src/MysqlMgr/Tests.antt =====
-- A database that answers every query, and one client of it.
use play_frame.Common.{ℕ, ◌≡◌, refl, true, false, none, some, List, [], ◌∷◌, ◌++◌}
use play_frame.Common.Int.{pos}
use play_frame.Common.Run.{Returns}
use play_frame.MysqlMgr.{Db, MysqlMgr, ping, thread_work}
use play_frame.MysqlMgr.Work.{Answer, Answers, Outcome, thread_work-Outcome}

-- The outside is the list of the answers so far.
abbrev database : Db (List Answer) ℕ ℕ
database = record {
  ping = λ w. (pos 0, w);
  init = λ w. (true, w);
  option = λ i w. (pos 0, w);
  real_connect = λ w. (true, w);
  close = λ w. w;
  real_query = λ sql w. (pos 0, w);
  duplicate = λ w. false;
  store_result = λ w. (some 5, w);
  field_count = λ w. 1;
  call = λ f res flags seq_id player_idx w. w ++ (flags, seq_id, player_idx) ∷ [];
}

database-Answers : Answers database (λ w. w) (λ f told a. a ≡ told)
database-Answers = record {
  ping = λ w. refl;
  init = λ w. refl;
  option = λ i w. refl;
  real_connect = λ w. refl;
  close = λ w. refl;
  real_query = λ sql w. refl;
  store_result = λ w. refl;
  call = λ f res flags seq_id player_idx w. ((flags, seq_id, player_idx), refl, refl);
}

abbrev mgr : MysqlMgr ℕ ℕ (List Answer)
mgr = record {
  free_client_list = 1 ∷ [];
  clients =
      λ i. record { sql = []; res = none; callback = some 9; seq_id = 77; player_idx = pos 2 };
  world = [];
}

reached : (ping database (mgr.world)).0 ≡ pos 0
unfolding ping
reached = refl

thread_work-Outcome_example :
    Returns
      (λ m'.
        (m'.free_client_list ≡ 1 ∷ 0 ∷ [])
        × Outcome database
            (λ f told a. a ≡ told)
            9
            (mgr.clients 0)
            ((ping database (mgr.world)).1)
            []
            m'.world)
      (thread_work database mgr 0)
thread_work-Outcome_example =
    thread_work-Outcome database (λ w. w) (λ f told a. a ≡ told) database-Answers mgr 0 9 refl
      reached
