-- ===== src/GameServer/Save.antt =====
-- Player::DoUpdatePlayerData of src/gamesvr/obj_mgr_module/object/player.cpp and the steps of
-- src/gamesvr/logic_module/logic/logic_update_player.h: a player's data go to the data server.
-- Serializing the data and sending them is the argument `send`, on the rest `W` of the server.
use play_frame.Common.{
  ℕ, zero, suc, ◌+◌, ◌-◌, ◌<◌, ◌≤◌, ◌≡◌, refl, sym, ◌∙◌, inl, inr, Option, none, some,
  if◌then◌else◌, arith, List, [], ◌∷◌, ◌++◌, false,
}
use play_frame.Common.Int.{unsigned64, ℤ, pos, negsuc, ◌==ℤ◌}
use play_frame.Common.Run.{Run, ok, ◌>>=◌, Returns, returns}
use play_frame.Common.Array.{Array, load, load-ok}
use play_frame.ShmPool.{PoolCtrl}
use play_frame.ShmPool.Memory.{mem_at, Knows, read, deref, read-mem_at, get_pos-Knows}
use play_frame.ObjMgr.{
  Player, City, ObjMgr, get_player, get_player_idx, get_city, max_city_num_per_player,
}
use play_frame.ObjMgr.Invariant.{IsSound, get_player-find, get_city-find, Knows-pos}
use play_frame.LogicModule.{LogicData, logic_yield, logic_failed}
use play_frame.GameServer.{Msg}

-- Database::PlayerData: the populations of the cities are its list.
pub record PlayerData : Type 0 where
  pub money : ℤ
  pub level : ℤ
  pub city_list : List ℤ

-- ProtoSs::Msg with a SetPlayerDataReq.
pub record SaveReq : Type 0 where
  pub seq : ℕ
  pub player_idx : ℤ
  pub uid : ℕ
  pub player_data : PlayerData

city_info : ObjMgr → ℤ → Run (List ℤ)
city_info m city_idx = do
  city ← get_city m city_idx
  c ← deref city
  x ← read m.city_pool c
  ok (x.population ∷ [])

-- The loop over the places of the list, from `i` on.
city_infos : ℕ → ℕ → ObjMgr → Player → Run (List ℤ)
unfolding city_info
city_infos zero i m p = ok []
city_infos (suc n) i m p = do
  city_idx ← load p.city_list i
  info ← if city_idx ==ℤ pos 0 then ok [] else city_info m city_idx
  rest ← city_infos n (i + 1) m p
  ok (info ++ rest)

abbrev pub logic_finish : ℤ
logic_finish = pos 99

-- LogicDataUpdatePlayer, with what the other logics keep.
pub record Kept (E : Type 0) : Type 0 where
  pub player_idx : ℤ
  pub rest : E

module _ {W : Type 0} (send : SaveReq → W → W) where
  unfoldable pub do_update_player_data : ObjMgr → ℕ → ℕ → W → Run W
  unfolding city_infos
  do_update_player_data m player seq w = do
    player_idx ← get_player_idx m player
    p ← read m.player_pool player
    infos ← city_infos (max_city_num_per_player - 1) 1 m p
    ok (
        send
          (record {
            seq = seq;
            player_idx = player_idx;
            uid = p.uid;
            player_data = record { money = p.money; level = p.level; city_list = infos };
          })
          w)

  save :
      {E : Type 0}
      → LogicData (Kept E)
      → ObjMgr
      → Option ℕ
      → W
      → Run (ℤ × LogicData (Kept E) × (ObjMgr × W))
  save head m none w = ok (logic_failed, head, (m, w))
  save head m (some player) w = do
    w' ← do_update_player_data m player (unsigned64 head.logic_id) w
    ok (logic_yield, record head { step = pos 1 }, (m, w'))

  -- OnStep0 and OnStep1. The arguments are the message, and the number that `args` points to.
  unfoldable pub update_player :
      {P E : Type 0}
      → ℕ
      → LogicData (Kept E)
      → Option (Msg P) × Option ℤ
      → ObjMgr × W
      → Run (ℤ × LogicData (Kept E) × (ObjMgr × W))
  unfolding save
  update_player zero head call (m, w) = do
    player_idx ← deref (call.1)
    player ← get_player m player_idx
    save (record head { rest = record head.rest { player_idx = player_idx } }) m player w
  update_player (suc i) head call (m, w) = do msg ← deref (call.0); ok (logic_finish, head, (m, w))

-- What the list of a player says of the cities at the places from `i` on, in their order.
abbrev index : ℤ → ℕ
index (pos c) = c
index (negsuc n) = 0

abbrev pub populations : PoolCtrl City → Array ℤ → ℕ → ℕ → List ℤ
populations cities list zero i = []
populations cities list (suc n) i =
    (if list.at i ==ℤ pos 0 then [] else (mem_at cities (index (list.at i))).population ∷ [])
    ++ populations cities list n (i + 1)

-- What the data server is to keep of the player `x`.
abbrev pub saved : ObjMgr → ℕ → ℕ → SaveReq
saved m x seq = record {
  seq = seq;
  player_idx = pos x;
  uid = (mem_at m.player_pool x).uid;
  player_data = record {
    money = (mem_at m.player_pool x).money;
    level = (mem_at m.player_pool x).level;
    city_list = populations m.city_pool (mem_at m.player_pool x).city_list 99 1;
  };
}

module _ (m : ObjMgr) (x : ℕ) (v : IsSound m) (known : Knows m.player_pool x) where
  abbrev p : Player
  p = mem_at m.player_pool x

  city_info-owned :
      (c : ℕ)
      → Knows m.city_pool c
      → city_info m (pos c) ≡ ok ((mem_at m.city_pool c).population ∷ [])
  unfolding city_info
  city_info-owned c k = rw (get_city-find m c ∙ k, read-mem_at m.city_pool c k)

  is_place : (c : ℕ) → Knows m.city_pool c → (pos c ==ℤ pos 0) ≡ false
  is_place c k = let lo = Knows-pos m.city_pool c k in ground arith

  city_infos-populations :
      (n i : ℕ)
      → 1 ≤ i
      → i + n ≤ 100
      → city_infos n i m p ≡ ok (populations m.city_pool p.city_list n i)
  unfolding city_infos
  city_infos-populations zero i lo hi = refl
  city_infos-populations (suc n) i lo hi =
      let l = v.listed x known in
      let inside : i < p.city_list.size = rw l.sized (omega arith) in
      let rest = city_infos-populations n (i + 1) (omega arith) (omega arith) in
      elim (l.owned i lo (omega arith)) [
        | inl e ↦ rw (load-ok p.city_list i inside, e, rest)
        | inr (c, at, k, own) ↦
            rw (load-ok p.city_list i inside, at, is_place c k, city_info-owned c k, rest)
      ]

  do_update_player_data-saved :
      {W : Type 0} (send : SaveReq → W → W) (seq : ℕ) (w : W)
      → do_update_player_data send m x seq w ≡ ok (send (saved m x seq) w)
  unfolding do_update_player_data get_player_idx
  do_update_player_data-saved send seq w =
      rw (get_pos-Knows m.player_pool x known, read-mem_at m.player_pool x known)
        (rw (city_infos-populations 99 1 (omega arith) (omega arith)))

-- The first step of the logic, for a player in use: the data are sent with the logic's id, and the
-- logic yields.
module _ {E W : Type 0} (send : SaveReq → W → W) (m : ObjMgr) (w : W) (x : ℕ) where
  abbrev pub Saved : LogicData (Kept E) → ℤ × LogicData (Kept E) × (ObjMgr × W) → Type 0
  Saved head r =
      (r.0 ≡ logic_yield)
      × ((r.1).step ≡ pos 1)
      × (r.2 ≡ (m, send (saved m x (unsigned64 head.logic_id)) w))

  pub update_player-Saved :
      {P : Type 0} (head : LogicData (Kept E)) (msg : Option (Msg P))
      → IsSound m
      → get_player m (pos x) ≡ ok (some x)
      → Returns (Saved head) (update_player send 0 head (msg, some (pos x)) (m, w))
  unfolding update_player save
  update_player-Saved head msg v here =
      let known : Knows m.player_pool x = sym (get_player-find m x) ∙ here in
      rw (here, do_update_player_data-saved m x v known send (unsigned64 head.logic_id) w)
        (returns (refl, refl, refl))
