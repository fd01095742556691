-- ===== src/EventModule/Accept.antt =====
-- DoTcpAccept: the test against the limit is what keeps the pool from running out.
use play_frame.Common.{
  ℕ, ◌<◌, ◌≡◌, refl, ap, ◌∙◌, Option, none, some, length, arith, leb, Bool-cases, true, inl, inr,
  ◌⊎◌, leb→le, if◌then◌else◌,
}
use play_frame.Common.Int.{ℤ, pos, negsuc, ◌==ℤ◌, leb_ℤ}
use play_frame.Common.Run.{Returns, returns, Returns-if, Returns-bind}
use play_frame.Common.Array.{load-ok, store-ok}
use play_frame.ShmPool.Memory.{mem_at, written, read-mem_at, write-written, mem_at-written_self}
use play_frame.Connection.{Connection, blank_connection}
use play_frame.ConnMgr.{ConnMgr, get_conn, get_cur_conn_map_size}
use play_frame.ConnMgr.Invariant.{IsSound}
use play_frame.ConnMgr.Create.{Created, create_conn-Created, Created-written, Created-IsSound}
use play_frame.Epoller.{
  Epoller, Mask, add_event, event_read, is_none, ctl_add, ctl_mod, join, with_event,
}
use play_frame.EventModule.Forward.{not_negative}
use play_frame.EventModule.{
  FileProc, EpollerPtr, epoller_ptr, do_tcp_read_proc, Os, Server, do_tcp_accept,
}

-- A new connection for the socket, and nothing else changed but the events.
pub record Accepted {W : Type 0} (s : Server W) (fd : ℤ) (s' : Server W) : Type 0 where
  pub place : ℕ
  pub created : Created s.conn_mgr fd place s'.conn_mgr
  pub blank : mem_at s'.conn_mgr.conn_pool place ≡ record blank_connection { conn_fd = fd }
  pub sound : IsSound s'.conn_mgr

-- The table of events has its size.
abbrev pub IsSized : Epoller FileProc EpollerPtr → Type 0
IsSized e = e.file_events.size ≡ e.max_events_size

module _ {W : Type 0} (os : Os W) where
  add_event-Returns :
      (e : Epoller FileProc EpollerPtr) (fd : ℕ) (mask : Mask) (proc : FileProc)
      (arg : Option EpollerPtr) (w : W)
      → IsSized e
      → Returns (λ r. IsSized (r.1)) (add_event os.epoll_ctl e (pos fd) mask proc arg w)
  unfolding add_event
  add_event-Returns e fd mask proc arg w sized =
      Returns-if (leb_ℤ (pos e.max_events_size) (pos fd)) (λ beyond. returns sized)
        λ inside.
          let there : fd < e.file_events.size = ground (arith, sized) in
          let fe = e.file_events.at fd in
          let ret =
            (os.epoll_ctl (if is_none fe.mask then ctl_add else ctl_mod) (pos fd)
              (join mask fe.mask) w).0 in
          rw
            (
              load-ok e.file_events fd there,
              store-ok e.file_events fd (with_event fe mask proc arg) there,
            )
            (Returns-if (ret ==ℤ negsuc 0) (λ failed. returns sized) (λ fine. returns sized))

  -- In a server with sound connections, whose limit is the size of their pool, `accept` gives a
  -- socket that is not in the map and can be made non-blocking. DoTcpAccept returns: it changes
  -- nothing where the limit is reached; otherwise the socket has a new cleared connection in a unit
  -- that was free, every other connection stays, and the connections are sound again. So the limit
  -- keeps the pool from running out.
  pub do_tcp_accept-Accepted :
      (s : Server W) (listen_fd : ℤ) (fd : ℕ)
      → IsSound s.conn_mgr
      → IsSized s.epoller
      → os.max_connection ≡ s.conn_mgr.conn_pool.total_unit_count
      → (os.accept listen_fd s.world).0 ≡ pos fd
      → get_conn s.conn_mgr (pos fd) ≡ none
      → ((w : W) → (os.set_non_block (pos fd) w).0 ≡ true)
      → Returns
          (λ s'.
            ((get_cur_conn_map_size s.conn_mgr ≡ os.max_connection) × (s' ≡ s))
            ⊎ Accepted s (pos fd) s')
          (do_tcp_accept os s listen_fd (some epoller_ptr))
  unfolding do_tcp_accept get_cur_conn_map_size
  do_tcp_accept-Accepted s listen_fd fd sound sized limit accepted fresh fine =
      elim (Bool-cases (leb os.max_connection (length s.conn_mgr.conn_map))) [
        | inl full ↦
            rw full (returns (inl (omega (arith, leb→le _ _ full, sound.counted, limit), refl)))
        | inr free ↦
            let room : 0 < s.conn_mgr.conn_pool.valid_unit_count =
              ground (arith, sound.counted, limit) in
            rw (free, accepted, fine ((os.accept listen_fd s.world).1), not_negative fd)
              (Returns-bind (create_conn-Created s.conn_mgr sound (pos fd) fresh room)
                λ r (made, blank).
                  let x = r.0 in
                  let m = r.1 in
                  let pool1 = written m.conn_pool x blank_connection in
                  let m1 : ConnMgr = record m { conn_pool = pool1 } in
                  let made1 : Created s.conn_mgr (pos fd) x m1 =
                    Created-written s.conn_mgr sound (pos fd) fresh x m blank_connection made in
                  let c : Connection = record (mem_at pool1 x) { conn_fd = pos fd } in
                  let made2 = Created-written s.conn_mgr sound (pos fd) fresh x m1 c made1 in
                  let own = mem_at-written_self pool1 x c in
                  rw (write-written m.conn_pool x blank_connection made.known) (
                    Returns-bind
                      (add_event-Returns s.epoller fd event_read do_tcp_read_proc (some epoller_ptr)
                        _ sized)
                      λ e sized'.
                        rw (read-mem_at pool1 x made1.known, write-written pool1 x c made1.known)
                          (returns (
                            inr (record {
                              place = x;
                              created = made2;
                              blank =
                                  own
                                  ∙ ap (λ (c : Connection). record c { conn_fd = pos fd })
                                      (mem_at-written_self m.conn_pool x blank_connection);
                              sound =
                                  Created-IsSound s.conn_mgr sound (pos fd) fresh x
                                    (record m1 { conn_pool = written pool1 x c }) made2
                                    (ap (λ (c : Connection). c.conn_fd) own);
                            })))))
      ]
