-- ===== src/ConnCache.antt =====
-- src/tcpclient/conn_cache.h and conn_cache.cpp: the buffers of the test client, which grow. The size
-- of an array is its capacity, and a null buffer is an array without entries. What `malloc` leaves
-- in new memory is the argument `garbage`; it does not fail, and capacities have no bound.
pub mod Growth
pub mod Proto
mod Tests
use play_frame.Common.{ℕ, zero, suc, ◌+◌, ◌-◌, ◌*◌, Bool, ◌&&◌, ltb, leb, ◌==◌, if◌then◌else◌}
use play_frame.Common.Run.{Run, ok, fault, out_of_fuel, ◌>>=◌}
use play_frame.Common.Array.{Array, load}
use play_frame.Common.Buffer.{memcpy}

abbrev pub conn_cache_buf_len : ℕ
conn_cache_buf_len = 100 * 1024

pub record ConnCache : Type 0 where
  pub send_buf : Array ℕ
  pub send_buf_size : ℕ
  pub recv_buf : Array ℕ
  pub recv_buf_size : ℕ

unfoldable pub init : (ℕ → ℕ) → ConnCache
init garbage = record {
  send_buf = record { size = conn_cache_buf_len; at = garbage };
  send_buf_size = 0;
  recv_buf = record { size = conn_cache_buf_len; at = garbage };
  recv_buf_size = 0;
}

module _ (garbage : ℕ → ℕ) where
  -- One buffer, of which the first `n` entries are kept.
  unfoldable pub expand_buf : Array ℕ → ℕ → Run (Array ℕ)
  expand_buf buf n =
      if buf.size == 0
      then ok (record { size = conn_cache_buf_len; at = garbage })
      else memcpy (record { size = buf.size * 2; at = garbage }) 0 buf 0 n

  unfoldable pub expand : ConnCache → Run ConnCache
  expand c = do
    send_buf ← expand_buf c.send_buf c.send_buf_size
    recv_buf ← expand_buf c.recv_buf c.recv_buf_size
    ok (record c { send_buf = send_buf; recv_buf = recv_buf })

  -- The `while` of AddSendData and of AddRecvData, with fuel: until the capacity is `need`.
  pub reserve : (ConnCache → ℕ) → ℕ → ℕ → ConnCache → Run ConnCache
  reserve capacity need zero c = out_of_fuel
  reserve capacity need (suc k) c =
      let grown = expand c >>= reserve capacity need k in
      if ltb (capacity c) need then grown else ok c

  -- Each round adds to the capacity, so that as many rounds as are needed bytes are enough.
  unfoldable pub add_send_data : ConnCache → Array ℕ → ℕ → Run ConnCache
  add_send_data c buf buf_len = do
    let need = c.send_buf_size + buf_len
    c' ← reserve (λ d. d.send_buf.size) need (need + 1) c
    send_buf ← memcpy c'.send_buf c'.send_buf_size buf 0 buf_len
    ok (record c' { send_buf = send_buf; send_buf_size = c'.send_buf_size + buf_len })

  unfoldable pub add_recv_data : ConnCache → Array ℕ → ℕ → Run ConnCache
  add_recv_data c buf buf_len = do
    let need = c.recv_buf_size + buf_len
    c' ← reserve (λ d. d.recv_buf.size) need (need + 1) c
    recv_buf ← memcpy c'.recv_buf c'.recv_buf_size buf 0 buf_len
    ok (record c' { recv_buf = recv_buf; recv_buf_size = c'.recv_buf_size + buf_len })

-- A count that would become negative is the size of a `memmove` next.
unfoldable pub skip_send_data : ConnCache → ℕ → Run ConnCache
skip_send_data c len = if ltb c.send_buf_size len then fault else do
  send_buf ← memcpy c.send_buf 0 c.send_buf len (c.send_buf_size - len)
  ok (record c { send_buf = send_buf; send_buf_size = c.send_buf_size - len })

unfoldable pub skip_recv_data : ConnCache → ℕ → Run ConnCache
skip_recv_data c len = if ltb c.recv_buf_size len then fault else do
  recv_buf ← memcpy c.recv_buf 0 c.recv_buf len (c.recv_buf_size - len)
  ok (record c { recv_buf = recv_buf; recv_buf_size = c.recv_buf_size - len })

unfoldable pub get_recv_proto_len : ConnCache → Run ℕ
get_recv_proto_len c = do high ← load c.recv_buf 0; low ← load c.recv_buf 1; ok (high * 256 + low)

unfoldable pub skip_recv_proto : ConnCache → Run ConnCache
skip_recv_proto c = do len ← get_recv_proto_len c; skip_recv_data c len

unfoldable pub is_recv_proto_ready : ConnCache → Run Bool
is_recv_proto_ready c = do
  proto_len ← get_recv_proto_len c
  ok (ltb 2 c.recv_buf_size && leb proto_len c.recv_buf_size)
