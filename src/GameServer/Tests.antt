-- ===== src/GameServer/Tests.antt =====
-- A client that sends the command of an answer of the data server, one that connects, and one that
-- goes.
use play_frame.Common.{ℕ, ◌≡◌, refl, ◌⊎◌, some, none, List, [], ◌∷◌, Option, arith}
use play_frame.Common.Int.{ℤ, pos, negsuc}
use play_frame.Common.Run.{Run, ok, fault, ◌>>=◌, Returns}
use play_frame.HeapTimer.{TimerNode}
use play_frame.MsgModuleBase.{handle_request}
use play_frame.LogicModule
use play_frame.LogicModule.{LogicType, LogicData, LogicModule, logic_yield}
use play_frame.ObjMgr.Sample.{world, world-IsSound, get_someone}
use play_frame.LogicModule.Reach.{Reaches-IsSound, initial}
use play_frame.LogicModule.Sound.{IsSound}
use play_frame.GameServer.Connect.{Connected, on_conn_start, on_conn_start-Connected}
use play_frame.GameServer.Save.{SaveReq, Kept}
use play_frame.GameServer.Leave.{Left, on_conn_stop, on_conn_stop-Left}
use play_frame.ObjMgr.{ObjMgr}
use play_frame.GameServer.{Msg, proto_cs, start_handler, game_wrapper_map}
use play_frame.GameServer.Dispatch.{OneOf, client-commands}

abbrev unused : ℕ → TimerNode
unused i = record {
  timer_id = negsuc 0;
  expire_time = record { sec = pos 0; usec = pos 0 };
  interval_time = record { sec = pos 0; usec = pos 0 };
  argument = 0;
  cb_obj = none;
}

abbrev idle : LogicModule ℕ × List ℕ
idle = (LogicModule.module_init 2 (pos 1_400_000_000) unused, [])

-- A step notes its number and yields.
abbrev steps : LogicType → ℕ → LogicData ℕ → Msg ℕ × ℕ → List ℕ → Run (ℤ × LogicData ℕ × List ℕ)
steps type i head msg w = ok (logic_yield, record head { step = pos 1 }, i ∷ w)

abbrev login_res : Msg ℕ
login_res = record { cmd = pos 12; ret = pos 0; seq = 0; payload = 7 }

abbrev handled : Run (ℤ × (LogicModule ℕ × List ℕ))
handled =
    handle_request (game_wrapper_map steps (pos 1_400_000_001) (some 0)) proto_cs
      (some (login_res.cmd, login_res)) 3 idle

client-commands_example :
    (OneOf (pos 12) 11 13 15
      × (handled ≡ (
          (start_handler steps (pos 1_400_000_001) (some 0)).func login_res 3 idle >>= λ r.
          ok (pos 0, r.1))))
    ⊎ (OneOf (pos 12) 12 20 22 × (handled ≡ fault))
    ⊎ ((¬ OneOf (pos 12) 11 13 15) × (¬ OneOf (pos 12) 12 20 22) × (handled ≡ ok (negsuc 1, idle)))
client-commands_example = client-commands steps (pos 1_400_000_001) (some 0) login_res 3 idle

-- The module dies on it.
login_res-fault : handled ≡ fault
unfolding handle_request
login_res-fault = refl

on_conn_start-Connected_example :
    ((world.player_pool.valid_unit_count ≡ 0)
      × (on_conn_start world (some login_res) (pos 9) ≡ fault))
    ⊎ Returns (Connected ℕ world (pos 9)) (on_conn_start world (some login_res) (pos 9))
on_conn_start-Connected_example =
    on_conn_start-Connected world (some login_res) (pos 9) world-IsSound

-- What is sent is kept in order.
abbrev send : SaveReq → List SaveReq → List SaveReq
send req w = req ∷ w

abbrev others :
    LogicType
    → ℕ
    → LogicData (Kept ℕ)
    → Option (Msg ℕ) × Option ℤ
    → ObjMgr × List SaveReq
    → Run (ℤ × LogicData (Kept ℕ) × (ObjMgr × List SaveReq))
others type i head call s = ok (logic_yield, head, s)

abbrev memory : Kept ℕ
memory = record { player_idx = pos 0; rest = 0 }

abbrev logics : LogicModule (Kept ℕ)
logics = LogicModule.module_init 2 (pos 1_400_000_000) unused

logics-IsSound : IsSound logics
logics-IsSound =
    Reaches-IsSound others logics
      (initial 2 1_400_000_000 unused (omega arith) (omega arith) (omega arith))

on_conn_stop-Left_example :
    Returns
      (Left send (pos 1_400_000_001) memory logics world [] 2)
      (on_conn_stop send others (pos 1_400_000_001) (some memory) logics (world, []) (pos 2))
on_conn_stop-Left_example =
    on_conn_stop-Left send others (pos 1_400_000_001) memory logics world [] 2 logics-IsSound
      world-IsSound get_someone
