-- ===== src/GameServer/Connect.antt =====
-- src/gamesvr/msg_module/msg_module.cpp: what Run does with a message of the connection server that
-- says that a client has connected (CONN_START). `parsed` is what the bytes behind the head parse to.
use play_frame.Common.{
  ℕ, ◌≡◌, ◌≢◌, refl, sym, ◌∙◌, ap, inl, inr, ◌⊎◌, Option, none, some, eq_cases, if◌then◌else◌,
  arith,
}
use play_frame.Common.Int.{ℤ, pos, negsuc, ◌==ℤ◌}
use play_frame.Common.Run.{Run, ok, fault, ◌>>=◌, Returns, returns, Returns-bind}
use play_frame.ShmPool.Memory.{read, write}
use play_frame.ShmPool.Memory.{
  mem_at, Knows, written, read-mem_at, write-written, written-IsValid, find-written,
  mem_at-written_self, mem_at-written_other,
}
use play_frame.ObjMgr.{Player, ObjMgr, blank_player, add_player, get_player}
use play_frame.ObjMgr.Invariant.{IsSound, get_player-find}
use play_frame.ObjMgr.Players.{add_player_correct, add_player-exhausted}
use play_frame.GameServer.{Msg}

-- How it goes on: to HandleRequest with the index of the player, with a message and CONN_STOP to the
-- connection server, or back to the caller.
pub data Turn (P : Type 0) : Type 0 where
  handle : ℤ → Turn P
  close : Msg P → Turn P
  leave : Turn P

module _ {P : Type 0} where
  -- The answer of a server that is full.
  full : Msg P → Msg P
  full msg =
      if msg.cmd ==ℤ pos 11
      then record msg { cmd = pos 12; ret = negsuc 1 }
      else if msg.cmd ==ℤ pos 13
      then record msg { cmd = pos 14; ret = negsuc 1 }
      else if msg.cmd ==ℤ pos 15
      then record msg { cmd = pos 16; ret = negsuc 1 }
      else msg

  refuse : Option (Msg P) → Turn P
  unfolding full
  refuse none = leave
  refuse (some msg) = close (full msg)

  seat : ObjMgr → Option (Msg P) → ℤ → ℤ → Option ℕ → Run (Turn P × ObjMgr)
  unfolding refuse
  seat m parsed player_idx conn_fd none = ok (refuse parsed, m)
  seat m parsed player_idx conn_fd (some player) = do
    p ← read m.player_pool player
    pool ← write m.player_pool player (record p { conn_fd = conn_fd })
    ok (handle player_idx, record m { player_pool = pool })

  unfoldable pub on_conn_start : ObjMgr → Option (Msg P) → ℤ → Run (Turn P × ObjMgr)
  unfolding seat
  on_conn_start m parsed conn_fd = do
    (player_idx, m') ← add_player m
    player ← get_player m' player_idx
    seat m' parsed player_idx conn_fd player

-- The client has a new player with its socket, at an index that no player had.
pub record Connected (P : Type 0) (m : ObjMgr) (conn_fd : ℤ) (r : Turn P × ObjMgr) : Type 0 where
  pub place : ℕ
  pub turn : r.0 ≡ handle (pos place)
  pub was_free : get_player m (pos place) ≡ ok none
  pub present : get_player (r.1) (pos place) ≡ ok (some place)
  pub player : mem_at (r.1).player_pool place ≡ record blank_player { conn_fd = conn_fd }
  pub others : (j : ℕ) → j ≢ place → get_player (r.1) (pos j) ≡ get_player m (pos j)
  pub memory : (j : ℕ) → j ≢ place → mem_at (r.1).player_pool j ≡ mem_at m.player_pool j
  pub cities : (r.1).city_pool ≡ m.city_pool
  pub users : (r.1).uid_to_player_idx_map ≡ m.uid_to_player_idx_map
  pub sound : IsSound (r.1)

-- A socket changes nothing that the state's soundness is about.
module _ (m : ObjMgr) (x : ℕ) (conn_fd : ℤ) (v : IsSound m) (known : Knows m.player_pool x) where
  abbrev p' : Player
  p' = record (mem_at m.player_pool x) { conn_fd = conn_fd }

  abbrev seated : ObjMgr
  seated = record m { player_pool = written m.player_pool x p' }

  uid_same : (y : ℕ) → (mem_at seated.player_pool y).uid ≡ (mem_at m.player_pool y).uid
  uid_same y = elim (eq_cases y x) [
    | inl e ↦ rw (e, mem_at-written_self m.player_pool x p') refl
    | inr ne ↦
        ap (λ (w : Player). w.uid) (mem_at-written_other m.player_pool x p' y (λ q. ne (sym q)))
  ]

  list_same : (y : ℕ) → (mem_at seated.player_pool y).city_list ≡ (mem_at m.player_pool y).city_list
  list_same y = elim (eq_cases y x) [
    | inl e ↦ rw (e, mem_at-written_self m.player_pool x p') refl
    | inr ne ↦
        ap (λ (w : Player). w.city_list)
          (mem_at-written_other m.player_pool x p' y (λ q. ne (sym q)))
  ]

  seated-IsSound : IsSound seated
  seated-IsSound = record {
    players = written-IsValid m.player_pool x p' v.players;
    cities = v.cities;
    bound = λ uid z e.
        let (y, at, k, same) = v.bound uid z e in
        (y, at, find-written m.player_pool x p' y ∙ k, uid_same y ∙ same);
    listed = λ y k. rw (list_same y) (v.listed y (sym (find-written m.player_pool x p' y) ∙ k));
  }

  find_same : (j : ℕ) → get_player seated (pos j) ≡ get_player m (pos j)
  find_same j =
      get_player-find seated j ∙ find-written m.player_pool x p' j ∙ sym (get_player-find m j)

-- CONN_START in a sound state. With every player in use the server dies, so that no client is
-- answered that the server is full. Otherwise the client has a new player, which holds its socket and
-- nothing else, and HandleRequest is next, with the player's index; all other players, the cities and
-- the map stay, and the state is sound again.
pub on_conn_start-Connected :
    {P : Type 0} (m : ObjMgr) (parsed : Option (Msg P)) (conn_fd : ℤ)
    → IsSound m
    → ((m.player_pool.valid_unit_count ≡ 0) × (on_conn_start m parsed conn_fd ≡ fault))
      ⊎ Returns (Connected P m conn_fd) (on_conn_start m parsed conn_fd)
unfolding on_conn_start seat
on_conn_start-Connected {P = P} m parsed conn_fd v =
    elim (eq_cases m.player_pool.valid_unit_count 0) [
      | inl e ↦ inl (e, rw (add_player-exhausted m v e))
      | inr ne ↦ inr (
          Returns-bind (add_player_correct m v (omega arith)) λ r a.
            let known : Knows (r.1).player_pool a.place =
              sym (get_player-find (r.1) a.place) ∙ a.present in
            let kept = (seated-IsSound (r.1) a.place conn_fd a.sound known) in
            rw (a.index, a.present, read-mem_at (r.1).player_pool a.place known)
              (rw
                (write-written (r.1).player_pool a.place
                  (record (mem_at (r.1).player_pool a.place) { conn_fd = conn_fd }) known)
                (returns (record {
                  place = a.place;
                  turn = refl;
                  was_free = a.was_free;
                  present = find_same (r.1) a.place conn_fd a.sound known a.place ∙ a.present;
                  player =
                      mem_at-written_self (r.1).player_pool a.place _
                      ∙ ap (λ (w : Player). record w { conn_fd = conn_fd }) a.blank;
                  others = λ j ne. find_same (r.1) a.place conn_fd a.sound known j ∙ a.others j ne;
                  memory = λ j ne.
                      mem_at-written_other (r.1).player_pool a.place _ j (λ e. ne (sym e))
                      ∙ a.memory j ne;
                  cities = a.cities;
                  users = a.users;
                  sound = kept;
                }))))
    ]
