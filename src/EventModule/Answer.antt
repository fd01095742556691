-- ===== src/EventModule/Answer.antt =====
-- What the game server sends reaches the client's queue as a package, behind what waits there.
use play_frame.Common.{
  ℕ, suc, ◌+◌, ◌-◌, ◌/◌, ◌%◌, ◌≤◌, ◌<◌, ◌≡◌, refl, sym, ap, ◌∙◌, subst, Option, some, List, [],
  ◌++◌, take, length, append_assoc, append-nil, arith, leb, ltb, ◌==◌, true, false,
}
use play_frame.Common.Int.{ℤ, pos, ◌==ℤ◌, leb_ℤ}
use play_frame.Common.Run.{Returns, returns, Returns-map, Returns-bind, Returns-if}
use play_frame.Common.Array.{Array}
use play_frame.Common.Buffer.{window, length-window, window-cong, drop-window, copied-append}
use play_frame.ShmPool.Memory.{Knows, mem_at, read-mem_at, write-written}
use play_frame.Connection.{Connection}
use play_frame.Connection.Bytes
use play_frame.Connection.Bytes.{unsent, unsent_more, add_send_data-ok}
use play_frame.Connection.Frames.{framed}
use play_frame.ConnMgr.{ConnMgr, get_conn}
use play_frame.Epoller.{event_write}
use play_frame.EventModule.{
  ConnData, EpollerPtr, epoller_ptr, do_tcp_write_proc, conn_proc, Os, Server, copy_out,
  send_buf_of, obey, queue, watch_write, after_send, zmq_read_loop,
}
use play_frame.EventModule.Forward.{pool_of, at_conn, with_conn, at_conn-with_conn, Knows-with_conn}
use play_frame.EventModule.Accept.{IsSized}
use play_frame.EventModule.Wire.{Sends, add_event-quiet, outgoing, send_some, take-drop, take_all}

-- The two bytes in front are the length of the package.
framed-window :
    (n : ℕ) (buf : Array ℕ)
    → n ≤ 10228
    → window (send_buf_of n buf).at 0 (n + 2) ≡ framed (window buf.at 12 n)
framed-window n buf le =
    let b = (send_buf_of n buf).at in
    let size = length-window buf.at 12 n in
    let e : n + 2 ≡ suc (suc n) = omega arith in
    let high : b 0 ≡ (length (window buf.at 12 n) + 2) / 256 = ground (arith, size) in
    let low : b 1 ≡ (length (window buf.at 12 n) + 2) % 256 = ground (arith, size) in
    let rest : window b 2 n ≡ window buf.at 12 n =
      window-cong b buf.at 2 12 n (λ i less. ground arith) in
    ap (window b 0) e ∙ cc

-- The ConnData of a message for the client of the socket `fd`.
abbrev pub proc_data : ℕ → ℤ → ConnData
proc_data fd player_idx = record { conn_fd = pos fd; player_idx = player_idx; conn_cmd = conn_proc }

module _ {W : Type 0} (os : Os W) (fd : ℕ) (wire : W → List ℕ)
    (sends : Sends os (pos fd) wire) where
  -- The command CONN_PROC leaves the queue alone.
  obey-outgoing :
      (s : Server W) (x : ℕ) (d : ConnData)
      → Knows (pool_of s) x
      → d.conn_cmd ≡ conn_proc
      → Returns (λ s'. outgoing wire s' x ≡ outgoing wire s x) (obey os s x d)
  unfolding obey
  obey-outgoing s x d known proc =
      let c : Connection = record (at_conn s x) { player_idx = d.player_idx } in
      rw (read-mem_at (pool_of s) x known, write-written (pool_of s) x c known, proc)
        (Returns-if ((at_conn s x).player_idx ==ℤ pos 0)
          (λ t.
            returns
              (ap (λ (c' : Connection). wire s.world ++ unsent c') (at_conn-with_conn s x known c)))
          (λ f. returns refl))

  -- The bytes behind `from` join the queue.
  queue-outgoing :
      (s : Server W) (x : ℕ) (d : ConnData) (buf : Array ℕ) (from n : ℕ)
      → Knows (pool_of s) x
      → Bytes.IsValid (at_conn s x)
      → d.conn_cmd ≡ conn_proc
      → from + n ≤ buf.size
      → (at_conn s x).send_buf_size + n ≤ 10240
      → Returns
          (λ s'. outgoing wire s' x ≡ outgoing wire s x ++ window buf.at from n)
          (queue os s x d buf from n)
  unfolding queue
  queue-outgoing s x d buf from n known valid proc there fits =
      let c = at_conn s x in
      let c1 = unsent_more c buf from n in
      let s1 = with_conn s x c1 in
      rw
        (
          read-mem_at (pool_of s) x known,
          add_send_data-ok c valid buf from n there fits,
          write-written (pool_of s) x c1 known,
        )
        (Returns-map (obey-outgoing s1 x d (Knows-with_conn s x known c1) proc) λ s' same.
          same
          ∙ ap (λ (c' : Connection). wire s.world ++ unsent c') (at_conn-with_conn s x known c1)
          ∙ ap (λ (l : List ℕ). wire s.world ++ l)
              (copied-append c.send_buf.at buf.at c.send_buf_size from n)
          ∙ sym (append_assoc (wire s.world) (unsent c) (window buf.at from n)))

  watch_write-quiet :
      (s : Server W) (arg : Option EpollerPtr)
      → IsSized s.epoller
      → Returns
          (λ s1. (s1.conn_mgr ≡ s.conn_mgr) × (wire s1.world ≡ wire s.world))
          (watch_write os s (pos fd) arg)
  unfolding watch_write
  watch_write-quiet s arg sized =
      Returns-bind
        (add_event-quiet os fd wire sends s.epoller event_write do_tcp_write_proc arg s.world sized)
        λ r same. returns (refl, same)

  -- A part that `send` has taken, and the rest that joins the empty queue.
  after_send-outgoing :
      (s : Server W) (x : ℕ) (i : ℤ) (buf : Array ℕ) (len n : ℕ) (old : List ℕ)
      → Knows (pool_of s) x
      → Bytes.IsValid (at_conn s x)
      → IsSized s.epoller
      → len ≤ buf.size
      → len ≤ 10240
      → (at_conn s x).send_buf_size ≡ 0
      → wire s.world ≡ old ++ take n (window buf.at 0 len)
      → Returns
          (λ s'. outgoing wire s' x ≡ old ++ window buf.at 0 len)
          (after_send os s x (proc_data fd i) buf len (pos n))
  unfolding after_send
  after_send-outgoing s x i buf len n old known valid sized there fits empty went =
      let bytes = window buf.at 0 len in
      let size = length-window buf.at 0 len in
      let none_waits : unsent (at_conn s x) ≡ [] = rw empty in
      let so_far : outgoing wire s x ≡ old ++ take n bytes =
        ap (λ (l : List ℕ). wire s.world ++ l) none_waits ∙ append-nil (wire s.world) ∙ went in
      Returns-if (ltb n len)
        (λ part.
          let less : n < len = ground arith in
          Returns-bind (watch_write-quiet s (some epoller_ptr) sized) λ s1 (same_conns, same_wire).
            let c = at_conn s1 x in
            let same_conn : c ≡ at_conn s x =
              ap (λ (m : ConnMgr). mem_at m.conn_pool x) same_conns in
            Returns-map
              (queue-outgoing s1 x (proc_data fd i) buf n (len - n)
                (subst (λ (m : ConnMgr). Knows m.conn_pool x) (sym same_conns) known)
                (subst Bytes.IsValid (sym same_conn) valid) refl (omega arith)
                (let e : c.send_buf_size ≡ 0 =
                    ap (λ (c' : Connection). c'.send_buf_size) same_conn ∙ empty in
                  omega arith))
              λ s' q.
                q
                ∙ ap (λ (l : List ℕ). (l ++ unsent c) ++ window buf.at n (len - n)) same_wire
                ∙ ap (λ (c' : Connection). (wire s.world ++ unsent c') ++ window buf.at n (len - n))
                    same_conn
                ∙ ap (λ (l : List ℕ). l ++ window buf.at n (len - n)) so_far
                ∙ append_assoc old (take n bytes) (window buf.at n (len - n))
                ∙ ap (λ (l : List ℕ). old ++ (take n bytes ++ l))
                    (sym (drop-window buf.at 0 len n n (omega arith) (omega arith)))
                ∙ ap (λ (l : List ℕ). old ++ l) (take-drop n bytes))
        (λ whole. Returns-map (obey-outgoing s x (proc_data fd i) known refl) λ s' same.
          same ∙ so_far ∙ ap (λ (l : List ℕ). old ++ l) (take_all n bytes (ground (arith, size))))

  -- For a connected client whose send buffer has room for the package, and where `send` does not
  -- fail, ZmqReadLoop puts a message of at most 10228 bytes with the command CONN_PROC behind the
  -- bytes that have gone out or wait, as a package: no earlier byte is lost, doubled or overtaken.
  pub zmq_read_loop-outgoing :
      (s : Server W) (x len n : ℕ) (i : ℤ) (buf : Array ℕ) (w : W)
      → os.zmq_recv s.world ≡ (pos (12 + len), proc_data fd i, buf, w)
      → wire w ≡ wire s.world
      → buf.size ≡ 10240
      → len ≤ 10228
      → get_conn s.conn_mgr (pos fd) ≡ some x
      → Knows (pool_of s) x
      → Bytes.IsValid (at_conn s x)
      → IsSized s.epoller
      → (at_conn s x).send_buf_size + (len + 2) ≤ 10240
      → (os.send (pos fd) (window (send_buf_of len buf).at 0 (len + 2)) w).0 ≡ pos n
      → Returns
          (λ s'. outgoing wire s' x ≡ outgoing wire s x ++ framed (window buf.at 12 len))
          (zmq_read_loop os s)
  unfolding zmq_read_loop copy_out
  zmq_read_loop-outgoing s x len n i buf w came quiet size small mapped known valid sized room
        taken =
      let e : 12 + len - 12 ≡ len = omega arith in
      let enough : leb_ℤ (pos 12) (pos (12 + len)) ≡ true = ground arith in
      let fits : ltb 10240 len ≡ false = ground arith in
      let inside : leb (12 + len) buf.size ≡ true = ground (arith, size) in
      let frame = send_buf_of len buf in
      let bytes = window frame.at 0 (len + 2) in
      let s1 : Server W = record s { world = w } in
      let (_, went) = send_some os fd wire sends bytes w n taken in
      let w1 = (os.send (pos fd) bytes w).1 in
      rw (came, enough, e, mapped, fits, inside, read-mem_at (pool_of s) x known, taken)
        (Returns-map
          (Returns-if ((at_conn s x).send_buf_size == 0)
            (λ empty.
              let nothing : (at_conn s x).send_buf_size ≡ 0 = ground arith in
              Returns-map
                (after_send-outgoing (record s { world = w1 }) x i frame (len + 2) n (wire w) known
                  valid sized (omega arith) (omega arith) nothing went)
                λ s' q.
                  q
                  ∙ ap (λ (l : List ℕ). l ++ bytes)
                      (sym (append-nil (wire w))
                        ∙ ap (λ (l : List ℕ). wire w ++ l)
                            (let u : unsent (at_conn s x) ≡ [] = rw nothing in sym u)))
            (λ busy.
              queue-outgoing s1 x (proc_data fd i) frame 0 (len + 2) known valid refl (omega arith)
                room))
          λ s' q.
            q
            ∙ ap (λ (l : List ℕ). (l ++ unsent (at_conn s x)) ++ bytes) quiet
            ∙ ap (λ (l : List ℕ). outgoing wire s x ++ l) (framed-window len buf small))
