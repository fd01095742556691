-- ===== src/EventModule/Forward.antt =====
-- One round of the loop of DoTcpRead, and the loop: whole messages go to the game server.
use play_frame.Common.{
  ℕ, zero, suc, ◌+◌, ◌<◌, ◌≡◌, ◌≢◌, refl, sym, ap, ◌∙◌, subst, List, [], ◌∷◌, ◌++◌, map, length,
  append_assoc, append-nil, arith, true, false, leb, ltb, le→ltb, All, Option,
}
use play_frame.Common.Int.{ℤ, pos, sub_ℕ, ltb_ℤ}
use play_frame.Common.Run.{ok, Returns, returns, Returns-map}
use play_frame.ShmPool.{PoolCtrl, find}
use play_frame.ShmPool.Memory.{
  Knows, mem_at, written, read-mem_at, write-written, find-written, mem_at-written_self,
  mem_at-written_other,
}
use play_frame.Connection.{Connection}
use play_frame.Connection.Bytes
use play_frame.Connection.Bytes.{
  received, removed, removed-IsValid, proto_len, get_recv_proto_len-ok, remove_recv_proto-ok,
}
use play_frame.Connection.Frames.{IsMessage, framed, stream, NotReady}
use play_frame.Connection.Package.{
  package-len, package-le, package-message, package-rest, package-ready, waiting-NotReady,
}
use play_frame.EventModule.{
  EpollerPtr, ConnData, Os, Server, conn_data_of, copy_out, forward, read_loop, set_conn,
}

abbrev pub Packets : Type 0
Packets = List (ConnData × List ℕ)

-- The messages that a connection's client has sent, as the game server gets them.
abbrev pub packets : Connection → ℤ → List (List ℕ) → Packets
packets c fd ms = map (λ m. (conn_data_of c fd, m)) ms

-- zmq takes every message, in order.
-- What `arriving` sees of the outside stays as it is.
pub record Accepts {W V : Type 0} (os : Os W) (log : W → Packets) (arriving : W → V) : Type 0 where
  pub result : (d : ConnData) (m : List ℕ) (w : W) → (n : ℕ) × ((os.zmq_send d m w).0 ≡ pos n)
  pub logged :
      (d : ConnData) (m : List ℕ) (w : W) → log ((os.zmq_send d m w).1) ≡ log w ++ (d, m) ∷ []
  pub untouched :
      (d : ConnData) (m : List ℕ) (w : W) → arriving ((os.zmq_send d m w).1) ≡ arriving w

pub not_negative : (n : ℕ) → ltb_ℤ (pos n) (pos 0) ≡ false
not_negative n = ground arith

module _ {W : Type 0} where
  abbrev pub pool_of : Server W → PoolCtrl Connection
  pool_of s = s.conn_mgr.conn_pool

  abbrev pub at_conn : Server W → ℕ → Connection
  at_conn s x = mem_at (pool_of s) x

  -- The server with the connection `x` replaced.
  abbrev pub with_conn : Server W → ℕ → Connection → Server W
  with_conn s x c = record s {
    conn_mgr = record s.conn_mgr { conn_pool = written (pool_of s) x c };
  }

  -- Nothing but the connection `x` and the outside has changed, and `x` keeps its player.
  pub record Within (s : Server W) (x : ℕ) (s' : Server W) : Type 0 where
    pub conns : s'.conn_mgr.conn_map ≡ s.conn_mgr.conn_map
    pub events : s'.epoller ≡ s.epoller
    pub units : (y : ℕ) → find (pool_of s') (pos y) ≡ find (pool_of s) (pos y)
    pub others : (y : ℕ) → x ≢ y → at_conn s' y ≡ at_conn s y
    pub player : (at_conn s' x).player_idx ≡ (at_conn s x).player_idx
    pub unsent : Bytes.unsent (at_conn s' x) ≡ Bytes.unsent (at_conn s x)

  pub Within-trans :
      (a : Server W) (x : ℕ) (b c : Server W) → Within a x b → Within b x c → Within a x c
  Within-trans a x b c p q = record {
    conns = q.conns ∙ p.conns;
    events = q.events ∙ p.events;
    units = λ y. q.units y ∙ p.units y;
    others = λ y ne. q.others y ne ∙ p.others y ne;
    player = q.player ∙ p.player;
    unsent = q.unsent ∙ p.unsent;
  }

  module _ (s : Server W) (x : ℕ) (known : Knows (pool_of s) x) (c : Connection) where
    pub set_conn-with_conn : set_conn s x c ≡ ok (with_conn s x c)
    set_conn-with_conn = rw (write-written (pool_of s) x c known)

    pub at_conn-with_conn : at_conn (with_conn s x c) x ≡ c
    at_conn-with_conn = mem_at-written_self (pool_of s) x c

    pub Knows-with_conn : Knows (pool_of (with_conn s x c)) x
    Knows-with_conn = find-written (pool_of s) x c x ∙ known

    pub with_conn-Within :
        c.player_idx ≡ (at_conn s x).player_idx
        → Bytes.unsent c ≡ Bytes.unsent (at_conn s x)
        → (w : W) → Within s x (record (with_conn s x c) { world = w })
    with_conn-Within player unsent w = record {
      conns = refl;
      events = refl;
      units = find-written (pool_of s) x c;
      others = λ y ne. mem_at-written_other (pool_of s) x c y ne;
      player = ap (λ (c : Connection). c.player_idx) at_conn-with_conn ∙ player;
      unsent = ap (λ (c : Connection). Bytes.unsent c) at_conn-with_conn ∙ unsent;
    }

-- What the loop has done with the messages `ms` in front of `part`.
pub record Forwarded {W V : Type 0} (log : W → Packets) (arriving : W → V) (s : Server W) (x : ℕ)
    (fd : ℤ) (ms : List (List ℕ)) (part : List ℕ) (s' : Server W) : Type 0 where
  pub within : Within s x s'
  pub sent : log s'.world ≡ log s.world ++ packets (at_conn s x) fd ms
  pub left : received (at_conn s' x) ≡ part
  pub unread : arriving s'.world ≡ arriving s.world
  pub valid : Bytes.IsValid (at_conn s' x)

module _ {W V : Type 0} (os : Os W) (log : W → Packets) (arriving : W → V)
    (a : Accepts os log arriving) (fd : ℤ) where
  module _ (s : Server W) (x : ℕ) (known : Knows (pool_of s) x)
      (v : Bytes.IsValid (at_conn s x)) where
    abbrev forwarded : List ℕ → Server W
    forwarded m =
        with_conn (record s { world = (os.zmq_send (conn_data_of (at_conn s x) fd) m s.world).1 }) x
          (removed (at_conn s x) (length m + 2))

    module _ (m rest : List ℕ) (i : IsMessage m)
        (front : received (at_conn s x) ≡ framed m ++ rest) where
      copy_out-message : copy_out (at_conn s x).recv_buf 2 (sub_ℕ (length m + 2) 2) ≡ ok m
      unfolding copy_out
      copy_out-message =
          let e : sub_ℕ (length m + 2) 2 ≡ pos (length m) = ground arith in
          let high = i.high in
          let sized = v.recv_sized in
          let fits : leb (2 + length m) (at_conn s x).recv_buf.size ≡ true = ground arith in
          rw (e, fits, package-message (at_conn s x) v m rest i front)

      forward-forwarded :
          forward os s x fd
          ≡ ok ((os.zmq_send (conn_data_of (at_conn s x) fd) m s.world).0, forwarded m)
      unfolding forward
      forward-forwarded = rw (
        read-mem_at (pool_of s) x known,
        get_recv_proto_len-ok (at_conn s x) v,
        package-len (at_conn s x) v m rest i front,
        copy_out-message,
        remove_recv_proto-ok (at_conn s x) v (package-le (at_conn s x) v m rest i front),
        package-len (at_conn s x) v m rest i front,
        write-written (pool_of s) x (removed (at_conn s x) (length m + 2)) known,
      )

  -- With the messages `ms` in front and then no whole package, the loop passes on exactly these.
  pub read_loop-Forwarded :
      (k : ℕ) (s : Server W) (x : ℕ) (arg : Option EpollerPtr) (ms : List (List ℕ)) (part : List ℕ)
      → Knows (pool_of s) x
      → Bytes.IsValid (at_conn s x)
      → All IsMessage ms
      → NotReady part
      → received (at_conn s x) ≡ stream ms ++ part
      → (at_conn s x).recv_buf_size < k
      → Returns (Forwarded log arriving s x fd ms part) (read_loop os k s x fd arg)
  unfolding read_loop
  read_loop-Forwarded zero s x arg ms part known v all waiting front fuel = absurd (omega arith)
  read_loop-Forwarded (suc k) s x arg [] part known v all waiting front fuel =
      let not_ready = waiting-NotReady (at_conn s x) v (subst NotReady (sym front) waiting) in
      rw (read-mem_at (pool_of s) x known, not_ready, get_recv_proto_len-ok (at_conn s x) v)
        (returns (record {
          within = record {
            conns = refl;
            events = refl;
            units = λ y. refl;
            others = λ y ne. refl;
            player = refl;
            unsent = refl;
          };
          sent = sym (append-nil (log s.world));
          left = front;
          unread = refl;
          valid = v;
        }))
  read_loop-Forwarded (suc k) s x arg (m ∷ ms) part known v (i, all) waiting front fuel =
      let c = at_conn s x in
      let rest = stream ms ++ part in
      let front' : received c ≡ framed m ++ rest =
        front ∙ append_assoc (framed m) (stream ms) part in
      let d = conn_data_of c fd in
      let s1 = forwarded s x known v m in
      let (n, accepted) = a.result d m s.world in
      let le = package-le c v m rest i front' in
      let len = package-len c v m rest i front' in
      let fits = v.recv_fits in
      let small : ltb 10242 (length m + 2) ≡ false = le→ltb 10242 (length m + 2) (omega arith) in
      let c1 = removed c (length m + 2) in
      let e1 : at_conn s1 x ≡ c1 =
        at_conn-with_conn (record s { world = (os.zmq_send d m s.world).1 }) x known c1 in
      let step : read_loop os (suc k) s x fd arg ≡ read_loop os k s1 x fd arg = rw (
        read-mem_at (pool_of s) x known,
        package-ready c v m rest i front',
        get_recv_proto_len-ok c v,
        len,
        small,
        forward-forwarded s x known v m rest i front',
        accepted,
        not_negative n,
      ) in
      let within : Within s x s1 =
        with_conn-Within s x known c1 refl refl ((os.zmq_send d m s.world).1) in
      subst (Returns (Forwarded log arriving s x fd (m ∷ ms) part)) (sym step) (
        Returns-map
          (read_loop-Forwarded k s1 x arg ms part
            (Knows-with_conn (record s { world = (os.zmq_send d m s.world).1 }) x known c1)
            (subst Bytes.IsValid (sym e1) (removed-IsValid c v (length m + 2))) all waiting
            (ap received e1 ∙ package-rest c v m rest i front')
            (subst (λ (c' : Connection). c'.recv_buf_size < k) (sym e1) (omega arith)))
          λ s' f. record {
            within = Within-trans s x s1 s' within f.within;
            sent =
                f.sent
                ∙ ap (λ (c' : Connection). log s1.world ++ packets c' fd ms) e1
                ∙ ap (λ (l : Packets). l ++ packets c fd ms) (a.logged d m s.world)
                ∙ append_assoc (log s.world) ((d, m) ∷ []) (packets c fd ms);
            left = f.left;
            unread = f.unread ∙ a.untouched d m s.world;
            valid = f.valid;
          })
