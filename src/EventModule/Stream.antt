-- ===== src/EventModule/Stream.antt =====
-- The stream of a client, in pieces that fit the receive buffer, and the messages in it.
use play_frame.Common.{
  ℕ, zero, suc, ◌+◌, ◌≤◌, ◌<◌, ◌≡◌, refl, sym, ap, ◌∙◌, subst, some, List, [], ◌∷◌, ◌++◌, length,
  map-append, append_assoc, append-nil, arith, All, inl, All-append, concat, Option,
}
use play_frame.Common.Int.{ℤ, pos}
use play_frame.Common.Run.{Run, ok, ◌>>=◌, Returns, returns, Returns-map, Returns-bind}
use play_frame.Common.Array.{Array}
use play_frame.Common.Buffer.{window, length-window, copied-append}
use play_frame.ShmPool.Memory.{Knows, read-mem_at, write-written}
use play_frame.Connection.{Connection}
use play_frame.Connection.Bytes
use play_frame.Connection.Bytes.{received, received_more, add_recv_data-ok, received_more-IsValid}
use play_frame.Connection.Frames.{
  IsMessage, IsWithin, stream, NotReady, Cut, stream-Cut, NotReady-stream,
}
use play_frame.ConnMgr.{get_conn, lookup}
use play_frame.EventModule.{EpollerPtr, Os, Server, conn_data_of, received_data, do_tcp_read}
use play_frame.EventModule.Forward.{
  Packets, packets, Accepts, Within, Within-trans, Forwarded, pool_of, at_conn, with_conn,
  at_conn-with_conn, Knows-with_conn, with_conn-Within, read_loop-Forwarded,
}

module _ {W V : Type 0} (os : Os W) (log : W → Packets) (arriving : W → V)
    (a : Accepts os log arriving) (fd : ℤ) where
  -- `n + 1` more bytes of the stream of `ms`.
  pub received_data-Forwarded :
      (s : Server W) (x n : ℕ) (buf : Array ℕ) (arg : Option EpollerPtr) (ms : List (List ℕ))
      (part : List ℕ)
      → Knows (pool_of s) x
      → Bytes.IsValid (at_conn s x)
      → All IsMessage ms
      → NotReady part
      → suc n ≤ buf.size
      → (at_conn s x).recv_buf_size + suc n ≤ 10240
      → received (at_conn s x) ++ window buf.at 0 (suc n) ≡ stream ms ++ part
      → Returns
          (Forwarded log arriving s x fd ms part)
          (received_data os s x fd arg (pos (suc n)) buf)
  unfolding received_data
  received_data-Forwarded s x n buf arg ms part known v all waiting there fits front =
      let c0 = at_conn s x in
      let c1 = received_more c0 buf 0 (suc n) in
      let s1 = with_conn s x c1 in
      let e1 : at_conn s1 x ≡ c1 = at_conn-with_conn s x known c1 in
      let within : Within s x s1 = with_conn-Within s x known c1 refl refl s.world in
      rw
        (
          read-mem_at (pool_of s) x known,
          add_recv_data-ok c0 v buf 0 (suc n) (omega arith) fits,
          write-written (pool_of s) x c1 known,
        )
        (Returns-map
          (read_loop-Forwarded os log arriving a fd (c0.recv_buf_size + suc n + 1) s1 x arg ms part
            (Knows-with_conn s x known c1)
            (subst Bytes.IsValid (sym e1)
              (received_more-IsValid c0 v buf 0 (suc n) (omega arith) fits))
            all waiting
            (ap received e1
              ∙ copied-append c0.recv_buf.at buf.at c0.recv_buf_size 0 (suc n)
              ∙ front)
            (subst (λ (c' : Connection). c'.recv_buf_size < c0.recv_buf_size + suc n + 1) (sym e1)
              (omega arith)))
          λ s' f. record {
            within = Within-trans s x s1 s' within f.within;
            sent = f.sent ∙ ap (λ (c' : Connection). log s.world ++ packets c' fd ms) e1;
            left = f.left;
            unread = f.unread;
            valid = f.valid;
          })

-- TCP hands over the pieces `arriving`, one at each `recv`.
pub record Delivers {W : Type 0} (os : Os W) (log : W → Packets) (arriving : W → List (List ℕ))
    (fd : ℤ) : Type 0 where
  pub accepts : Accepts os log arriving
  pub count :
      (w : W) (piece : List ℕ) (rest : List (List ℕ))
      → arriving w ≡ piece ∷ rest
      → (os.recv fd w).0 ≡ pos (length piece)
  pub holds :
      (w : W) (piece : List ℕ) (rest : List (List ℕ))
      → arriving w ≡ piece ∷ rest
      → (length piece ≤ (os.recv fd w).1.size)
        × (window (os.recv fd w).1.at 0 (length piece) ≡ piece)
  pub rest :
      (w : W) (piece : List ℕ) (rest : List (List ℕ))
      → arriving w ≡ piece ∷ rest
      → (arriving ((os.recv fd w).2) ≡ rest) × (log ((os.recv fd w).2) ≡ log w)

-- A piece is not empty and, with a package cut short, fits into the buffer.
pub record IsPiece (bound : ℕ) (piece : List ℕ) : Type 0 where
  pub some_bytes : 0 < length piece
  pub fits : length piece + bound ≤ 10240

packets-player :
    (c c' : Connection) (fd : ℤ) (ms : List (List ℕ))
    → c.player_idx ≡ c'.player_idx
    → packets c fd ms ≡ packets c' fd ms
packets-player c c' fd ms e = ap (λ (i : ℤ). packets (record c { player_idx = i }) fd ms) e

module _ {W : Type 0} (os : Os W) (log : W → Packets) (arriving : W → List (List ℕ)) (fd : ℤ)
    (args : ℕ → Option EpollerPtr) where
  -- As many calls of DoTcpRead, each with its own argument.
  unfoldable pub reads : ℕ → Server W → Run (Server W)
  reads zero s = ok s
  reads (suc n) s = do_tcp_read os s fd (args n) >>= reads n

  -- The client waits for `part`, and the rest of the stream of `ms` arrives in pieces.
  pub record Awaits (s : Server W) (x : ℕ) (ms : List (List ℕ)) (part : List ℕ) : Type 0 where
    pub mapped : get_conn s.conn_mgr fd ≡ some x
    pub known : Knows (pool_of s) x
    pub valid : Bytes.IsValid (at_conn s x)
    pub held : received (at_conn s x) ≡ part
    pub waiting : NotReady part
    pub remaining : part ++ concat (arriving s.world) ≡ stream ms

  module _ (delivers : Delivers os log arriving fd) (bound : ℕ) (room : 0 < bound) where
    -- One call.
    do_tcp_read-Awaits :
        (s : Server W) (x : ℕ) (arg : Option EpollerPtr) (ms : List (List ℕ)) (part piece : List ℕ)
        (rest : List (List ℕ))
        → Awaits s x ms part
        → All IsMessage ms
        → length part ≤ bound
        → arriving s.world ≡ piece ∷ rest
        → IsPiece bound piece
        → Returns
            (λ s'.
              (c : Cut ms (part ++ piece) (concat rest)) × Awaits s' x c.later c.part
              × (log s'.world ≡ log s.world ++ packets (at_conn s x) fd c.whole)
              × (arriving s'.world ≡ rest)
              × ((at_conn s' x).player_idx ≡ (at_conn s x).player_idx))
            (do_tcp_read os s fd arg)
    unfolding do_tcp_read get_conn
    do_tcp_read-Awaits s x arg ms part [] rest w all short next p =
        absurd (omega (arith, p.some_bytes))
    do_tcp_read-Awaits s x arg ms part (b ∷ bs) rest w all short next p =
        let n = length bs in
        let (there, same) = delivers.holds s.world (b ∷ bs) rest next in
        let (left, quiet) = delivers.rest s.world (b ∷ bs) rest next in
        let buf = (os.recv fd s.world).1 in
        let s1 : Server W = record s { world = (os.recv fd s.world).2 } in
        let front : received (at_conn s x) ++ window buf.at 0 (suc n) ≡ part ++ b ∷ bs =
          ap (λ (l : List ℕ). l ++ window buf.at 0 (suc n)) w.held
          ∙ ap (λ (l : List ℕ). part ++ l) same in
        let c : Cut ms (part ++ b ∷ bs) (concat rest) =
          stream-Cut ms (part ++ b ∷ bs) (concat rest) all (
            append_assoc part (b ∷ bs) (concat rest)
            ∙ ap (λ (l : List (List ℕ)). part ++ concat l) (sym next)
            ∙ w.remaining) in
        let held_size =
          sym (length-window (at_conn s x).recv_buf.at 0 (at_conn s x).recv_buf_size)
          ∙ ap length w.held in
        rw (w.mapped, delivers.count s.world (b ∷ bs) rest next)
          (Returns-map
            (received_data-Forwarded os log arriving delivers.accepts fd s1 x n buf arg c.whole
              c.part w.known w.valid
              ((All-append IsMessage c.whole c.later (subst (All IsMessage) c.split all)).0)
              c.waiting there (omega (arith, p.fits, held_size, short)) (front ∙ c.front))
            λ s' f. (
              c,
              record {
                mapped = ap (λ (map : List (ℤ × ℕ)). lookup map fd) f.within.conns ∙ w.mapped;
                known = f.within.units x ∙ w.known;
                valid = f.valid;
                held = f.left;
                waiting = c.waiting;
                remaining =
                    ap (λ (l : List (List ℕ)). c.part ++ concat l) (f.unread ∙ left) ∙ c.back;
              },
              f.sent ∙ ap (λ (l : Packets). l ++ packets (at_conn s x) fd c.whole) quiet,
              f.unread ∙ left,
              f.within.player,
            ))

    -- All calls.
    reads-Awaits :
        (pieces : List (List ℕ)) (s : Server W) (x : ℕ) (ms : List (List ℕ)) (part : List ℕ)
        → Awaits s x ms part
        → All IsMessage ms
        → All (IsWithin bound) ms
        → length part ≤ bound
        → arriving s.world ≡ pieces
        → All (IsPiece bound) pieces
        → Returns
            (λ s'.
              (log s'.world ≡ log s.world ++ packets (at_conn s x) fd ms)
              × (received (at_conn s' x) ≡ []))
            (reads (length pieces) s)
    unfolding reads
    reads-Awaits [] s x ms part w all within short next tt =
        let whole : part ≡ stream ms =
          sym (append-nil part)
          ∙ ap (λ (l : List (List ℕ)). part ++ concat l) (sym next)
          ∙ w.remaining in
        let empty : ms ≡ [] =
          NotReady-stream part ms [] all w.waiting (whole ∙ sym (append-nil (stream ms))) in
        returns (
          sym (append-nil (log s.world))
              ∙ ap (λ (l : List (List ℕ)). log s.world ++ packets (at_conn s x) fd l) (sym empty),
          w.held ∙ whole ∙ ap stream empty,
        )
    reads-Awaits (piece ∷ pieces) s x ms part w all within short next (p, ps) =
        Returns-bind
          (do_tcp_read-Awaits s x (args (length pieces)) ms part piece pieces w all short next p)
          λ s1 (c, w1, sent, left, player).
            let (_, later) =
              All-append IsMessage c.whole c.later (subst (All IsMessage) c.split all) in
            let (_, small) =
              All-append (IsWithin bound) c.whole c.later
                (subst (All (IsWithin bound)) c.split within) in
            let brief = c.brief bound room within in
            Returns-map
              (reads-Awaits pieces s1 x c.later c.part w1 later small (omega arith) left ps)
              λ s' (sent', empty). (
                sent'
                    ∙ ap (λ (l : Packets). l ++ packets (at_conn s1 x) fd c.later) sent
                    ∙ append_assoc (log s.world) (packets (at_conn s x) fd c.whole)
                        (packets (at_conn s1 x) fd c.later)
                    ∙ ap (λ (l : Packets). log s.world ++ l)
                        (ap (λ (l : Packets). packets (at_conn s x) fd c.whole ++ l)
                            (packets-player (at_conn s1 x) (at_conn s x) fd c.later player)
                          ∙ sym
                              (map-append (λ m. (conn_data_of (at_conn s x) fd, m)) c.whole c.later)
                          ∙ ap (λ (l : List (List ℕ)). packets (at_conn s x) fd l) (sym c.split)),
                empty,
              )

    -- A connection with an empty receive buffer, whose client sends the packages of `ms` (5 to
    -- `bound` bytes each), where zmq takes every message: however TCP cuts this stream into pieces of
    -- 1 to 10240 - `bound` bytes, the calls of DoTcpRead that take them all end, whatever their
    -- arguments, zmq gets exactly the messages `ms`, in order and behind the connection's ConnData,
    -- and the receive buffer is empty again.
    pub reads-packets :
        (s : Server W) (x : ℕ) (ms : List (List ℕ))
        → get_conn s.conn_mgr fd ≡ some x
        → Knows (pool_of s) x
        → Bytes.IsValid (at_conn s x)
        → (at_conn s x).recv_buf_size ≡ 0
        → All IsMessage ms
        → All (IsWithin bound) ms
        → concat (arriving s.world) ≡ stream ms
        → All (IsPiece bound) (arriving s.world)
        → Returns
            (λ s'.
              (log s'.world ≡ log s.world ++ packets (at_conn s x) fd ms)
              × ((at_conn s' x).recv_buf_size ≡ 0))
            (reads (length (arriving s.world)) s)
    reads-packets s x ms mapped known valid empty all within whole pieces =
        Returns-map
          (reads-Awaits (arriving s.world) s x ms []
            (record {
              mapped = mapped;
              known = known;
              valid = valid;
              held = rw empty;
              waiting = inl (omega arith);
              remaining = whole;
            })
            all within (omega arith) refl pieces)
          λ s' (sent, left). (
            sent,
            sym (length-window (at_conn s' x).recv_buf.at 0 (at_conn s' x).recv_buf_size)
                ∙ ap length left,
          )
