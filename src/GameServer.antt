-- ===== src/GameServer.antt =====
-- src/gamesvr/msg_module/msg_module.cpp: the handlers that ModuleInit registers, for the messages of
-- the clients (ProtoCs) and of the data server (ProtoSs), in one map. A message is a `Msg` of either
-- class; the state is the logics and the rest `W` of the server. `A` are the arguments of a handler.
pub mod Dispatch
pub mod Connect
pub mod Save
pub mod Leave
mod Tests
use play_frame.Common.{ℕ, ◌-◌, ◌^◌, Option, none, some, ltb, if◌then◌else◌}
use play_frame.Common.Int.{ℤ, pos, negsuc}
use play_frame.Common.Run.{Run, ok, ◌>>=◌}
use play_frame.MsgModuleBase.{MsgWrapper, register, handle_request}
use play_frame.LogicModule.{LogicType, LogicData, LogicModule}
use play_frame.LogicModule.Start.{Commands, on_logic_multi_step_start, on_logic_multi_step_resume}

pub record Msg (P : Type 0) : Type 0 where
  pub cmd : ℤ
  pub ret : ℤ
  pub seq : ℕ
  pub payload : P

-- The package classes.
abbrev pub proto_cs : ℕ
proto_cs = 1

abbrev pub proto_ss : ℕ
proto_ss = 2

-- The numbers of the clients' requests in cs_msg.proto.
abbrev pub client_commands : Commands
client_commands = record { quick_reg_req = pos 13; normal_reg_req = pos 15; login_req = pos 11 }

-- A `uint64_t` as an `int64_t`.
abbrev pub signed64 : ℕ → ℤ
signed64 n = if ltb n (2 ^ 63) then pos n else negsuc (2 ^ 64 - n - 1)

module _ {D P A W : Type 0}
    (steps : LogicType → ℕ → LogicData D → Msg P × A → W → Run (ℤ × LogicData D × W)) (time : ℤ)
    (memory : Option D) where
  -- The handlers, at the time `time`, where `malloc` gives `memory`.
  abbrev pub start_handler : MsgWrapper (Msg P) A (LogicModule D × W)
  start_handler = record {
    package_class = proto_cs;
    func = λ msg a s. do
      (ret, m, w) ←
          on_logic_multi_step_start steps client_commands (s.0) msg.cmd (msg, a) time memory (s.1)
      ok (ret, (m, w));
  }

  abbrev pub resume_handler : MsgWrapper (Msg P) A (LogicModule D × W)
  resume_handler = record {
    package_class = proto_ss;
    func = λ msg a s. do
      (ret, m, w) ←
          on_logic_multi_step_resume steps client_commands (s.0) (signed64 msg.seq) (msg, a) (s.1)
      ok (ret, (m, w));
  }

  -- ModuleInit: the requests of clients, then the answers of the data server in ss_msg.proto.
  abbrev pub client_wrapper_map : ℤ → Option (MsgWrapper (Msg P) A (LogicModule D × W))
  client_wrapper_map =
      register (register (register (λ cmd. none) (pos 13) start_handler) (pos 15) start_handler)
        (pos 11) start_handler

  abbrev pub game_wrapper_map : ℤ → Option (MsgWrapper (Msg P) A (LogicModule D × W))
  game_wrapper_map =
      register
        (register (register client_wrapper_map (pos 12) resume_handler) (pos 20) resume_handler)
        (pos 22) resume_handler
