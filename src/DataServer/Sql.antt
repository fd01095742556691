-- ===== src/DataServer/Sql.antt =====
-- The texts of the statements in src/datasvr/msg_module/msg_module.cpp, as lists of bytes.
use Prim.Native.Char.{code}
use Prim.Native.String.{String}
use play_frame.Common.{ℕ, zero, suc, ◌+◌, ◌/◌, ◌%◌, List, [], ◌∷◌, concat, ◌==◌, if◌then◌else◌}
use play_frame.DataServer.Message.{AccountRegReq, AccountVerifyReq, SetPlayerDataReq}

-- The bytes of a literal, and of a number.
codes : String → List ℕ
codes String.[] = []
codes (String.◌∷◌ c s) = code c ∷ codes s

digits : ℕ → ℕ → List ℕ → List ℕ
digits zero n rest = rest
digits (suc k) n rest =
    let more = digits k (n / 10) ((48 + n % 10) ∷ rest) in
    if n / 10 == 0 then (48 + n % 10) ∷ rest else more

-- A number has fewer digits than its value and one.
unfoldable pub decimal : ℕ → List ℕ
unfolding digits
decimal n = digits (n + 1) n []

abbrev quote : List ℕ
quote = 34 ∷ []

-- The part of a text in front of the first 0.
unfoldable pub c_str : List ℕ → List ℕ
c_str [] = []
c_str (c ∷ cs) = let rest = c_str cs in if c == 0 then [] else c ∷ rest

-- The statements, with the texts escaped.
unfoldable pub reg_sql_account : AccountRegReq → List ℕ → List ℕ → List ℕ
unfolding codes decimal
reg_sql_account req account player_data = concat (
    codes "INSERT INTO sg_data (uid, password_hash, account, reg_time, player_data) VALUES("
    ∷ decimal req.uid
    ∷ codes ","
    ∷ decimal req.password_hash
    ∷ codes ", "
    ∷ quote
    ∷ account
    ∷ quote
    ∷ codes ","
    ∷ codes "NOW(), "
    ∷ quote
    ∷ player_data
    ∷ quote
    ∷ codes ")"
    ∷ [])

unfoldable pub reg_sql_plain : AccountRegReq → List ℕ → List ℕ
unfolding codes decimal
reg_sql_plain req player_data = concat (
    codes "INSERT INTO sg_data (uid, password_hash, reg_time, player_data) VALUES("
    ∷ decimal req.uid
    ∷ codes ","
    ∷ decimal req.password_hash
    ∷ codes ", "
    ∷ codes "NOW(), "
    ∷ quote
    ∷ player_data
    ∷ quote
    ∷ codes ")"
    ∷ [])

unfoldable pub select_sql : String → AccountVerifyReq → String → List ℕ
unfolding codes decimal
select_sql what req and =
    concat (codes what ∷ decimal req.uid ∷ codes and ∷ decimal req.password_hash ∷ [])

unfoldable pub set_sql : SetPlayerDataReq → List ℕ → List ℕ
unfolding codes decimal
set_sql req player_data = concat (
    codes "UPDATE sg_data SET player_data="
    ∷ quote
    ∷ player_data
    ∷ quote
    ∷ codes "WHERE uid = "
    ∷ decimal req.uid
    ∷ [])
