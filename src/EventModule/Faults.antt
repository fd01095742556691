-- ===== src/EventModule/Faults.antt =====
-- Bytes of a client, and an event of the kernel, that stop the server.
use play_frame.Common.{
  ℕ, suc, ◌-◌, ◌≤◌, ◌<◌, ◌≡◌, none, some, arith, leb, ltb, ◌==◌, true, false, if◌then◌else◌, ◌&&◌,
  Option, ◌⊎◌, ◌≢◌, inl, inr,
}
use play_frame.Common.Int.{ℤ, pos, negsuc, sub_ℕ}
use play_frame.Common.Run.{◌>>=◌, fault, ok, ok-bind}
use play_frame.ShmPool.Memory.{Knows, read-mem_at, write-written}
use play_frame.Connection.{Connection, clear_send_data}
use play_frame.Connection.Bytes
use play_frame.Connection.Bytes.{unsent, proto_len, ready-ok, get_recv_proto_len-ok}
use play_frame.ConnMgr.{get_conn, release_conn}
use play_frame.EventModule.{
  EpollerPtr, Os, Server, copy_out, forward, read_loop, written_data, do_tcp_write, do_tcp_read,
  close_through, received_data, deref, send_conn_stop,
}
use play_frame.EventModule.Forward.{pool_of, at_conn}

module _ {W : Type 0} (os : Os W) (s : Server W) (x : ℕ) (fd : ℤ) (known : Knows (pool_of s) x)
    (valid : Bytes.IsValid (at_conn s x)) where
  -- Five bytes of a client are enough: when the length in front of the receive buffer is 0 or 1, less
  -- than its own two bytes, the loop of DoTcpRead copies a negative number of bytes.
  pub read_loop-short :
      (k : ℕ) (arg : Option EpollerPtr)
      → 5 ≤ (at_conn s x).recv_buf_size
      → proto_len (at_conn s x) valid < 2
      → read_loop os (suc k) s x fd arg ≡ fault
  unfolding read_loop forward copy_out
  read_loop-short k arg more short =
      let c = at_conn s x in
      let len = proto_len c valid in
      let ready : (if ltb 4 c.recv_buf_size then leb len c.recv_buf_size else false) ≡ true =
        ground arith in
      let small : ltb 10242 len ≡ false = ground arith in
      let negative : sub_ℕ len 2 ≡ negsuc (2 - len - 1) = ground arith in
      rw (
        read-mem_at (pool_of s) x known,
        ready-ok c valid,
        ready,
        get_recv_proto_len-ok c valid,
        small,
        negative,
      )

  -- DoTcpWrite with a null `client_data`, which ZmqReadLoop registers after EAGAIN, goes through the
  -- null pointer as soon as `send` has taken the whole send buffer, or finds it empty.
  pub do_tcp_write-null :
      get_conn s.conn_mgr fd ≡ some x
      → (os.send fd (unsent (at_conn s x)) s.world).0 ≡ pos ((at_conn s x).send_buf_size)
      → do_tcp_write os s fd none ≡ fault
  unfolding do_tcp_write get_conn written_data clear_send_data
  do_tcp_write-null mapped taken =
      let c = at_conn s x in
      let n = c.send_buf_size in
      let cleared : Connection = record c { send_buf_size = 0 } in
      let not_part : (ltb 0 n && ltb n n) ≡ false = ground arith in
      let whole : (n == n) ≡ true = ground arith in
      rw (
        mapped,
        read-mem_at (pool_of s) x known,
        taken,
        read-mem_at (pool_of s) x known,
        not_part,
        whole,
        write-written (pool_of s) x cleared known,
      )

  -- A close through a null `client_data` does not return.
  close_through-null : (s' state : Server W) → close_through os s' fd none ≢ ok state
  unfolding close_through
  close_through-null s' state r =
      let (v, q) =
        ok-bind (release_conn os.close s'.conn_mgr fd s'.world)
          (λ z. deref none >>= λ (e : EpollerPtr). ok state) state r in
      let r' : fault ≡ ok state = rw q at r in cc

  -- DoTcpRead with the same null `client_data` does not return when `recv` fails or the client has
  -- gone.
  pub do_tcp_read-null :
      (state : Server W)
      → get_conn s.conn_mgr fd ≡ some x
      → ((n : ℕ) × ((os.recv fd s.world).0 ≡ negsuc n)) ⊎ ((os.recv fd s.world).0 ≡ pos 0)
      → do_tcp_read os s fd none ≢ ok state
  unfolding do_tcp_read get_conn received_data
  do_tcp_read-null state mapped (inl (n, e)) r =
      close_through-null (record s { world = (os.recv fd s.world).2 }) state (rw (mapped, e) at r)
  do_tcp_read-null state mapped (inr e) r =
      close_through-null
        (send_conn_stop os (record s { world = (os.recv fd s.world).2 }) ((at_conn s x).player_idx))
        state (rw (mapped, e, read-mem_at (pool_of s) x known) at r)
