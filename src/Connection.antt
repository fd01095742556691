-- ===== src/Connection.antt =====
-- src/connsvr/conn_mgr_module/connection.h and connection.cpp: the two buffers of a connection. What
-- has been received starts with the length of a package, in two bytes, the high one first, which
-- counts itself. A `char` is a number below 256. A count that would become negative is the size of
-- a `memmove` next, which is undefined.
pub mod Bytes
pub mod Frames
pub mod Package
use play_frame.Common.{ℕ, ◌+◌, ◌-◌, ◌*◌, Bool, false, ltb, leb, if◌then◌else◌}
use play_frame.Common.Int.{ℤ, pos, negsuc}
use play_frame.Common.Run.{Run, ok, fault, ◌>>=◌}
use play_frame.Common.Array.{Array, load}
use play_frame.Common.Buffer.{memcpy}

abbrev pub pkg_buf_size : ℕ
pkg_buf_size = 10240

pub record Connection : Type 0 where
  pub player_idx : ℤ
  pub conn_fd : ℤ
  pub recv_buf : Array ℕ
  pub recv_buf_size : ℕ
  pub send_buf : Array ℕ
  pub send_buf_size : ℕ

-- Connection::Init, whatever the memory held.
abbrev pub blank_buf : Array ℕ
blank_buf = record { size = pkg_buf_size; at = λ i. 0 }

abbrev pub blank_connection : Connection
blank_connection = record {
  player_idx = pos 0;
  conn_fd = pos 0;
  recv_buf = blank_buf;
  recv_buf_size = 0;
  send_buf = blank_buf;
  send_buf_size = 0;
}

-- `buf` points at the entry `from` of an array.
unfoldable pub add_recv_data : Connection → Array ℕ → ℕ → ℕ → Run (ℤ × Connection)
add_recv_data c buf from buf_len =
    if ltb pkg_buf_size (c.recv_buf_size + buf_len) then ok (negsuc 0, c) else do
      recv_buf ← memcpy c.recv_buf c.recv_buf_size buf from buf_len
      ok (pos 0, record c { recv_buf = recv_buf; recv_buf_size = c.recv_buf_size + buf_len })

unfoldable pub get_recv_proto_len : Connection → Run ℕ
get_recv_proto_len c = do high ← load c.recv_buf 0; low ← load c.recv_buf 1; ok (high * 256 + low)

unfoldable pub is_recv_proto_ready : Connection → Run Bool
is_recv_proto_ready c =
    if ltb 4 c.recv_buf_size
    then (do len ← get_recv_proto_len c; ok (leb len c.recv_buf_size))
    else ok false

unfoldable pub remove_recv_proto : Connection → Run Connection
remove_recv_proto c = do
  len ← get_recv_proto_len c
  if ltb c.recv_buf_size len then fault else do
    recv_buf ← memcpy c.recv_buf 0 c.recv_buf len (c.recv_buf_size - len)
    ok (record c { recv_buf = recv_buf; recv_buf_size = c.recv_buf_size - len })

unfoldable pub add_send_data : Connection → Array ℕ → ℕ → ℕ → Run (ℤ × Connection)
add_send_data c buf from buf_len =
    if ltb pkg_buf_size (c.send_buf_size + buf_len) then ok (negsuc 0, c) else do
      send_buf ← memcpy c.send_buf c.send_buf_size buf from buf_len
      ok (pos 0, record c { send_buf = send_buf; send_buf_size = c.send_buf_size + buf_len })

unfoldable pub remove_send_data : Connection → ℕ → Run Connection
remove_send_data c len = if ltb c.send_buf_size len then fault else do
  send_buf ← memcpy c.send_buf 0 c.send_buf len (c.send_buf_size - len)
  ok (record c { send_buf = send_buf; send_buf_size = c.send_buf_size - len })

unfoldable pub clear_send_data : Connection → Connection
clear_send_data c = record c { send_buf_size = 0 }
