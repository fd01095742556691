-- ===== src/DataServer/Message.antt =====
-- What the data server of src/datasvr/msg_module keeps, receives and sends.
use play_frame.Common.{ℕ, Option, List}
use play_frame.Common.Int.{ℤ}
use play_frame.MysqlMgr.{MysqlMgr}

-- The requests, with the fields that the handlers read.
pub record AccountRegReq : Type 0 where
  pub uid : ℕ
  pub password_hash : ℕ
  pub account : Option (List ℕ)
  pub player_data : List ℕ

pub record AccountVerifyReq : Type 0 where
  pub uid : ℕ
  pub password_hash : ℕ

pub record SetPlayerDataReq : Type 0 where
  pub uid : ℕ
  pub player_data : List ℕ

-- ProtoSs::Msg, as the handlers read it. GetPlayerDataReq has the fields of AccountVerifyReq.
pub record SsMsg : Type 0 where
  pub seq : ℕ
  pub player_idx : ℤ
  pub account_reg_req : AccountRegReq
  pub account_verify_req : AccountVerifyReq
  pub get_player_data_req : AccountVerifyReq
  pub set_player_data_req : SetPlayerDataReq

-- ProtoSs::Msg, as the callbacks fill it; 0 is the default of a field. The parts of the
-- reply that hold nothing but `numb`, which is always 1, are left out.
pub record Reply : Type 0 where
  pub cmd : ℤ
  pub ret : ℤ
  pub seq : ℕ
  pub player_idx : ℤ
  pub player_data : Option (List ℕ)

-- The functions that get the results of the queries.
pub data Callback : Type 0 where
  account_reg account_verify get_player_data set_player_data : Callback

-- A row of a result is an `X`. What the library does with a null result is its own.
pub record Net (W R X : Type 0) : Type 0 where
  pub recv : W → Option (Option (ℤ × SsMsg)) × W
  pub send_to_gamesvr : Reply → W → W
  pub real_escape_string : List ℕ → List ℕ
  pub fetch_row : Option R → W → Option X × W
  pub fetch_length : Option R → W → Option ℕ × W
  pub column : X → List ℕ

-- The clients at work are those with a request in the pipe.
pub record DataServer (R W : Type 0) : Type 0 where
  pub mgr : MysqlMgr R Callback W
  pub working : List ℕ
