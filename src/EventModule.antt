-- ===== src/EventModule.antt =====
-- src/connsvr/event_module/event_module.cpp: what the connection server does with its sockets. The
-- calls of the system, of zmq and of the configuration are the fields of `Os`, on a state `W` of the
-- outside. A buffer that is written whole and then sent is the list of its bytes; the ConnData in
-- front of a message to or from the game server stands beside the message.
pub mod Forward
pub mod Stream
pub mod Accept
pub mod Wire
pub mod Answer
pub mod Faults
mod Tests
use play_frame.Common.{
  ℕ, zero, suc, ◌+◌, ◌-◌, ◌/◌, ◌%◌, ◌^◌, Bool, true, false, ◌||◌, not, Option, none, some, List,
  ltb, leb, ◌==◌, if◌then◌else◌, ◌&&◌, [],
}
use play_frame.Common.Int.{ℤ, pos, negsuc, sub_ℕ, ltb_ℤ, leb_ℤ, ◌==ℤ◌, pos_part}
use play_frame.Common.Run.{Run, ok, fault, out_of_fuel, ◌>>=◌, ◌>>◌, check}
use play_frame.Common.Array.{Array}
use play_frame.Common.Buffer.{window}
use play_frame.ShmPool.Memory.{read, write, deref}
use play_frame.Connection.{
  Connection, pkg_buf_size, blank_connection, add_recv_data, get_recv_proto_len,
  is_recv_proto_ready, remove_recv_proto, add_send_data, remove_send_data, clear_send_data,
}
use play_frame.ConnMgr.{ConnMgr, create_conn, get_conn, get_cur_conn_map_size, release_conn}
use play_frame.Epoller.{
  Epoller, Mask, Op, EpollEvent, event_read, event_write, add_event, del_event, clear_event, loop,
}

pub record ConnData : Type 0 where
  pub conn_fd : ℤ
  pub player_idx : ℤ
  pub conn_cmd : ℤ

abbrev pub conn_start : ℤ
conn_start = pos 1

abbrev pub conn_proc : ℤ
conn_proc = pos 2

abbrev pub conn_stop : ℤ
conn_stop = pos 3

abbrev pub sizeof_conn_data : ℕ
sizeof_conn_data = 12

pub data FileProc : Type 0 where
  do_tcp_accept_proc do_tcp_read_proc do_tcp_write_proc : FileProc

-- The one Epoller, as `client_data`.
pub data EpollerPtr : Type 0 where
  epoller_ptr : EpollerPtr

-- `recv` and `zmq_recv` return a count and their buffer, `zmq_recv` also the ConnData in front.
pub record Os (W : Type 0) : Type 0 where
  pub max_connection : ℕ
  pub accept : ℤ → W → ℤ × W
  pub set_non_block : ℤ → W → Bool × W
  pub recv : ℤ → W → ℤ × Array ℕ × W
  pub send : ℤ → List ℕ → W → ℤ × W
  pub would_block : W → Bool
  pub close : ℤ → W → W
  pub zmq_send : ConnData → List ℕ → W → ℤ × W
  pub zmq_recv : W → ℤ × ConnData × Array ℕ × W
  pub epoll_ctl : Op → ℤ → Mask → W → ℤ × W
  pub epoll_wait : W → List EpollEvent × W

pub record Server (W : Type 0) : Type 0 where
  pub conn_mgr : ConnMgr
  pub epoller : Epoller FileProc EpollerPtr
  pub world : W

-- `memcpy` of `n` bytes at `from`; as a `size_t`, a negative number is more than any array has.
unfoldable pub copy_out : Array ℕ → ℕ → ℤ → Run (List ℕ)
copy_out buf from (negsuc n) = fault
copy_out buf from (pos n) = if leb (from + n) buf.size then ok (window buf.at from n) else fault

-- The two bytes of `htons` in front of `msg_len` bytes of the message.
abbrev pub send_buf_of : ℕ → Array ℕ → Array ℕ
send_buf_of msg_len recv_buf = record {
  size = pkg_buf_size + 2;
  at = λ i.
      if i == 0
      then (msg_len + 2) % 2 ^ 16 / 256
      else if i == 1
      then (msg_len + 2) % 256
      else recv_buf.at (sizeof_conn_data + (i - 2));
}

-- What goes to the game server in front of a client's message.
abbrev pub conn_data_of : Connection → ℤ → ConnData
conn_data_of conn conn_fd = record {
  conn_fd = conn_fd;
  player_idx = conn.player_idx;
  conn_cmd = if conn.player_idx ==ℤ pos 0 then conn_start else conn_proc;
}

module _ {W : Type 0} where
  -- A connection behind its pointer, and an assignment to it.
  abbrev pub conn_at : Server W → ℕ → Run Connection
  conn_at s x = read s.conn_mgr.conn_pool x

  abbrev pub set_conn : Server W → ℕ → Connection → Run (Server W)
  set_conn s x conn = do
    pool ← write s.conn_mgr.conn_pool x conn
    ok (record s { conn_mgr = record s.conn_mgr { conn_pool = pool } })

module _ {W : Type 0} (os : Os W) where
  -- ReleaseConn and ClearEvent, one after the other.
  unfoldable pub close_conn : Server W → ℤ → Run (Server W)
  close_conn s conn_fd = do
    (m, w) ← release_conn os.close s.conn_mgr conn_fd s.world
    (e, w') ← clear_event os.epoll_ctl s.epoller conn_fd w
    ok (record { conn_mgr = m; epoller = e; world = w' })

  -- The same through `arg` of a function for reading or writing, which may be NULL.
  unfoldable pub close_through : Server W → ℤ → Option EpollerPtr → Run (Server W)
  close_through s conn_fd arg = do
    (m, w) ← release_conn os.close s.conn_mgr conn_fd s.world
    epoller ← deref arg
    (e, w') ← clear_event os.epoll_ctl s.epoller conn_fd w
    ok (record { conn_mgr = m; epoller = e; world = w' })

  -- The part of DoTcpAccept behind `accept`.
  accept_conn : Server W → ℤ → Option EpollerPtr → Run (Server W)
  accept_conn s conn_fd arg =
      let (fine, w) = os.set_non_block conn_fd s.world in
      do
        check fine
        (x, m) ← create_conn s.conn_mgr conn_fd
        s1 ← set_conn (record s { conn_mgr = m; world = w }) x blank_connection
        epoller ← deref arg
        (ret, e, w') ← add_event os.epoll_ctl s1.epoller conn_fd event_read do_tcp_read_proc arg w
        conn ← conn_at s1 x
        set_conn (record s1 { epoller = e; world = w' }) x (record conn { conn_fd = conn_fd })

  unfoldable pub do_tcp_accept : Server W → ℤ → Option EpollerPtr → Run (Server W)
  unfolding accept_conn
  do_tcp_accept s listen_fd arg =
      if leb os.max_connection (get_cur_conn_map_size s.conn_mgr)
      then ok s
      else let (conn_fd, w) = os.accept listen_fd s.world in
        if ltb_ℤ conn_fd (pos 0)
        then ok (record s { world = w })
        else accept_conn (record s { world = w }) conn_fd arg

  send_conn_stop : Server W → ℤ → Server W
  send_conn_stop s player_idx =
      let stop : ConnData = record {
        conn_fd = pos 0;
        player_idx = player_idx;
        conn_cmd = conn_stop;
      } in
      let (ret, w) = os.zmq_send stop [] s.world in
      if player_idx ==ℤ pos 0 then s else record s { world = w }

  -- The message in front of the receive buffer goes to the game server. The package is parsed
  -- only for the log.
  unfoldable pub forward : Server W → ℕ → ℤ → Run (ℤ × Server W)
  forward s x conn_fd = do
    conn ← conn_at s x
    len ← get_recv_proto_len conn
    msg ← copy_out conn.recv_buf 2 (sub_ℕ len 2)
    let (ret, w) = os.zmq_send (conn_data_of conn conn_fd) msg s.world
    conn' ← remove_recv_proto conn
    s' ← set_conn (record s { world = w }) x conn'
    ok (ret, s')

  -- The `while` of DoTcpRead, with fuel.
  pub read_loop : ℕ → Server W → ℕ → ℤ → Option EpollerPtr → Run (Server W)
  unfolding close_through
  read_loop zero s x conn_fd arg = out_of_fuel
  read_loop (suc k) s x conn_fd arg = do
    conn ← conn_at s x
    ready ← is_recv_proto_ready conn
    len ← get_recv_proto_len conn
    let round : Run (Server W) = do
      (ret, s') ← forward s x conn_fd
      let next = read_loop k s' x conn_fd arg
      if ltb_ℤ ret (pos 0) then close_through s' conn_fd arg else next
    if not ready || ltb (pkg_buf_size + 2) len then ok s else round

  -- The part of DoTcpRead behind `recv`. A package that a round removes has a byte or more.
  unfoldable pub received_data : Server W → ℕ → ℤ → Option EpollerPtr → ℤ → Array ℕ → Run (Server W)
  unfolding send_conn_stop read_loop
  received_data s x conn_fd arg (negsuc e) recv_buf = close_through s conn_fd arg
  received_data s x conn_fd arg (pos zero) recv_buf = do
    conn ← conn_at s x
    close_through (send_conn_stop s conn.player_idx) conn_fd arg
  received_data s x conn_fd arg (pos (suc n)) recv_buf = do
    conn ← conn_at s x
    (ret, conn') ← add_recv_data conn recv_buf 0 (suc n)
    s' ← set_conn s x conn'
    if not (ret ==ℤ pos 0)
        then close_through s' conn_fd arg
        else read_loop (conn'.recv_buf_size + 1) s' x conn_fd arg

  read_conn : Server W → Option ℕ → ℤ → Option EpollerPtr → Run (Server W)
  read_conn s none conn_fd arg = ok s
  read_conn s (some x) conn_fd arg =
      let (recv_len, recv_buf, w) = os.recv conn_fd s.world in
      received_data (record s { world = w }) x conn_fd arg recv_len recv_buf

  unfoldable pub do_tcp_read : Server W → ℤ → Option EpollerPtr → Run (Server W)
  unfolding read_conn
  do_tcp_read s conn_fd arg = read_conn s (get_conn s.conn_mgr conn_fd) conn_fd arg

  -- The end of ZmqReadLoop: the command of the message.
  unfoldable pub obey : Server W → ℕ → ConnData → Run (Server W)
  obey s x d = do
    conn ← conn_at s x
    named ← set_conn s x (record conn { player_idx = d.player_idx })
    if (d.conn_cmd ==ℤ conn_proc) && (conn.player_idx ==ℤ pos 0)
        then ok named
        else if d.conn_cmd ==ℤ conn_start
        then ok named
        else if d.conn_cmd ==ℤ conn_stop
        then close_conn s d.conn_fd
        else ok s

  -- AddSendData of what is behind `from`, and then the command; a full buffer closes the connection.
  unfoldable pub queue : Server W → ℕ → ConnData → Array ℕ → ℕ → ℕ → Run (Server W)
  unfolding obey
  queue s x d send_buf from n = do
    conn ← conn_at s x
    (ret, conn') ← add_send_data conn send_buf from n
    s' ← set_conn s x conn'
    if not (ret ==ℤ pos 0) then close_conn s' d.conn_fd else obey s' x d

  watch_write : Server W → ℤ → Option EpollerPtr → Run (Server W)
  watch_write s conn_fd arg = do
    (ret, e, w) ← add_event os.epoll_ctl s.epoller conn_fd event_write do_tcp_write_proc arg s.world
    ok (record s { epoller = e; world = w })

  -- What follows `send`, by its result. On EAGAIN `client_data` is NULL, and nothing is queued.
  unfoldable pub after_send : Server W → ℕ → ConnData → Array ℕ → ℕ → ℤ → Run (Server W)
  unfolding watch_write
  after_send s x d send_buf send_len (negsuc e) =
      if os.would_block s.world
      then (do s' ← watch_write s d.conn_fd none; obey s' x d)
      else close_conn s d.conn_fd
  after_send s x d send_buf send_len (pos ret) =
      if ltb ret send_len
      then (do
        s' ← watch_write s d.conn_fd (some epoller_ptr)
        queue s' x d send_buf ret (send_len - ret))
      else obey s x d

  -- The part of ZmqReadLoop behind GetConn, for a message of `msg_len` bytes.
  answer : Server W → Option ℕ → ConnData → Array ℕ → ℕ → Run (Server W)
  answer s none d recv_buf msg_len = ok s
  answer s (some x) d recv_buf msg_len = if ltb pkg_buf_size msg_len then ok s else do
    msg ← copy_out recv_buf sizeof_conn_data (pos msg_len)
    conn ← conn_at s x
    let send_buf = send_buf_of msg_len recv_buf
    let send_len = msg_len + 2
    let (ret, w) = os.send d.conn_fd (window send_buf.at 0 send_len) s.world
    if conn.send_buf_size == 0
        then after_send (record s { world = w }) x d send_buf send_len ret
        else queue s x d send_buf 0 send_len

  unfoldable pub zmq_read_loop : Server W → Run (Server W)
  unfolding answer
  zmq_read_loop s =
      let (recv_len, d, recv_buf, w) = os.zmq_recv s.world in
      let s' = record s { world = w } in
      if leb_ℤ (pos sizeof_conn_data) recv_len
      then answer s' (get_conn s.conn_mgr d.conn_fd) d recv_buf
          (pos_part recv_len - sizeof_conn_data)
      else ok s'

  -- The part of DoTcpWrite behind `send`, by its result.
  unfoldable pub written_data : Server W → ℕ → ℤ → Option EpollerPtr → ℤ → Run (Server W)
  written_data s x conn_fd arg (negsuc e) = close_through s conn_fd arg
  written_data s x conn_fd arg (pos ret) = do
    conn ← conn_at s x
    if ltb 0 ret && ltb ret conn.send_buf_size
        then (do conn' ← remove_send_data conn ret; set_conn s x conn')
        else if ret == conn.send_buf_size
        then (do
          s' ← set_conn s x (clear_send_data conn)
          epoller ← deref arg
          (e, w) ← del_event os.epoll_ctl s'.epoller conn_fd event_write s'.world
          ok (record s' { epoller = e; world = w }))
        else ok s

  write_conn : Server W → Option ℕ → ℤ → Option EpollerPtr → Run (Server W)
  write_conn s none conn_fd arg = ok s
  write_conn s (some x) conn_fd arg = do
    conn ← conn_at s x
    let (ret, w) = os.send conn_fd (window conn.send_buf.at 0 conn.send_buf_size) s.world
    written_data (record s { world = w }) x conn_fd arg ret

  unfoldable pub do_tcp_write : Server W → ℤ → Option EpollerPtr → Run (Server W)
  unfolding write_conn
  do_tcp_write s conn_fd arg = write_conn s (get_conn s.conn_mgr conn_fd) conn_fd arg

  call : FileProc → ℕ → Option EpollerPtr → Server W → Run (Server W)
  call do_tcp_accept_proc fd arg s = do_tcp_accept s (pos fd) arg
  call do_tcp_read_proc fd arg s = do_tcp_read s (pos fd) arg
  call do_tcp_write_proc fd arg s = do_tcp_write s (pos fd) arg

  -- The rounds of Run that are left.
  run_rounds : ℕ → Server W → Run (Server W)
  run_rounds zero s = ok s
  run_rounds (suc n) s = do
    polled ←
        loop (λ s. s.epoller) call
          (λ s. let (events, w) = os.epoll_wait s.world in (events, record s { world = w })) s
    next ← zmq_read_loop polled
    run_rounds n next

  unfoldable pub run : Server W → Run (Server W)
  unfolding run_rounds call
  run s = run_rounds 1000 s
