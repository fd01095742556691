-- ===== src/EventModule/Wire.antt =====
-- What goes out to a client: the bytes on the wire and those that wait in the send buffer.
use play_frame.Common.{
  ℕ, zero, suc, ◌≤◌, ◌<◌, ◌≡◌, refl, sym, ap, ◌∙◌, subst, Option, some, List, [], ◌∷◌, ◌++◌, take,
  drop, length, append_assoc, append-nil, arith, ltb, ◌==◌, inl, inr, ◌⊎◌, if◌then◌else◌, ◌&&◌,
}
use play_frame.Common.Int.{ℤ, pos, pos-injective, negsuc, ◌==ℤ◌, leb_ℤ}
use play_frame.Common.Run.{Returns, returns, Returns-bind, Returns-if}
use play_frame.Common.Array.{load-ok, store-ok}
use play_frame.Common.Buffer.{length-window}
use play_frame.ShmPool.Memory.{Knows, read-mem_at, write-written}
use play_frame.Connection.{Connection, clear_send_data}
use play_frame.Connection.Bytes
use play_frame.Connection.Bytes.{
  unsent, unsent_more, unsent_less, add_send_data-ok, remove_send_data-ok, unsent-less,
}
use play_frame.ConnMgr.{get_conn}
use play_frame.Epoller.{
  Epoller, Mask, Op, ctl_add, ctl_mod, ctl_del, add_event, del_event, is_none, join, without,
  with_event, event_write,
}
use play_frame.EventModule.{
  FileProc, EpollerPtr, epoller_ptr, Os, Server, written_data, do_tcp_write,
}
use play_frame.EventModule.Forward.{pool_of, at_conn, with_conn, at_conn-with_conn}
use play_frame.EventModule.Accept.{IsSized}

-- `send` takes some of the bytes, in order, or none of them; `epoll_ctl` sends nothing.
pub record Sends {W : Type 0} (os : Os W) (fd : ℤ) (wire : W → List ℕ) : Type 0 where
  pub effect :
      (bytes : List ℕ) (w : W)
      → ((n : ℕ) × ((os.send fd bytes w).0 ≡ pos n)
          × (n ≤ length bytes)
          × (wire ((os.send fd bytes w).1) ≡ wire w ++ take n bytes))
        ⊎ ((e : ℕ) × ((os.send fd bytes w).0 ≡ negsuc e) × (wire ((os.send fd bytes w).1) ≡ wire w))
  pub quiet : (op : Op) (i : ℤ) (mask : Mask) (w : W) → wire ((os.epoll_ctl op i mask w).1) ≡ wire w

module _ {W : Type 0} (os : Os W) (fd : ℕ) (wire : W → List ℕ)
    (sends : Sends os (pos fd) wire) where
  pub add_event-quiet :
      (e : Epoller FileProc EpollerPtr) (mask : Mask) (proc : FileProc) (arg : Option EpollerPtr)
      (w : W)
      → IsSized e
      → Returns (λ r. wire (r.2) ≡ wire w) (add_event os.epoll_ctl e (pos fd) mask proc arg w)
  unfolding add_event
  add_event-quiet e mask proc arg w sized =
      Returns-if (leb_ℤ (pos e.max_events_size) (pos fd)) (λ beyond. returns refl)
        λ inside.
          let there : fd < e.file_events.size = ground (arith, sized) in
          let fe = e.file_events.at fd in
          let op = if is_none fe.mask then ctl_add else ctl_mod in
          let ret = (os.epoll_ctl op (pos fd) (join mask fe.mask) w).0 in
          let same = sends.quiet op (pos fd) (join mask fe.mask) w in
          rw
            (
              load-ok e.file_events fd there,
              store-ok e.file_events fd (with_event fe mask proc arg) there,
            )
            (Returns-if (ret ==ℤ negsuc 0) (λ failed. returns same) (λ fine. returns same))

  pub del_event-quiet :
      (e : Epoller FileProc EpollerPtr) (mask : Mask) (w : W)
      → IsSized e
      → Returns (λ r. wire (r.1) ≡ wire w) (del_event os.epoll_ctl e (pos fd) mask w)
  unfolding del_event
  del_event-quiet e mask w sized =
      Returns-if (leb_ℤ (pos e.max_events_size) (pos fd)) (λ beyond. returns refl)
        λ inside.
          let there : fd < e.file_events.size = ground (arith, sized) in
          let fe = e.file_events.at fd in
          let rest = without fe.mask mask in
          let op = if is_none rest then ctl_del else ctl_mod in
          rw
            (
              load-ok e.file_events fd there,
              store-ok e.file_events fd (record fe { mask = rest }) there,
            )
            (Returns-if (is_none fe.mask) (λ idle. returns refl)
              (λ busy. returns (sends.quiet op (pos fd) rest w)))

-- The bytes for the client, sent or not.
abbrev pub outgoing : {W : Type 0} → (W → List ℕ) → Server W → ℕ → List ℕ
outgoing wire s x = wire s.world ++ unsent (at_conn s x)

pub take-drop : {A : Type 0} (n : ℕ) (xs : List A) → take n xs ++ drop n xs ≡ xs
take-drop zero xs = refl
take-drop (suc n) [] = refl
take-drop (suc n) (x ∷ xs) = ap (λ (l : List _). x ∷ l) (take-drop n xs)

pub take_all : {A : Type 0} (n : ℕ) (xs : List A) → length xs ≤ n → take n xs ≡ xs
take_all zero [] le = refl
take_all zero (x ∷ xs) le = absurd (omega arith)
take_all (suc n) [] le = refl
take_all (suc n) (x ∷ xs) le = ap (λ (l : List _). x ∷ l) (take_all n xs (omega arith))

module _ {W : Type 0} (os : Os W) (fd : ℕ) (wire : W → List ℕ)
    (sends : Sends os (pos fd) wire) where
  pub send_some :
      (bytes : List ℕ) (w : W) (n : ℕ)
      → (os.send (pos fd) bytes w).0 ≡ pos n
      → (n ≤ length bytes) × (wire ((os.send (pos fd) bytes w).1) ≡ wire w ++ take n bytes)
  send_some bytes w n taken = elim (sends.effect bytes w) [
    | inl (m, e, le, went) ↦
        let same : m ≡ n = pos-injective (sym e ∙ taken) in
        (
          subst (λ (k : ℕ). k ≤ length bytes) same le,
          went ∙ ap (λ (k : ℕ). wire w ++ take k bytes) same,
        )
    | inr (m, e, went) ↦ absurd (let h : negsuc m ≡ pos n = sym e ∙ taken in cc)
  ]

  -- For a connected client whose socket works, DoTcpWrite moves bytes from the send buffer to the
  -- wire: the bytes that have gone out, with those that wait behind them, stay the same.
  pub do_tcp_write-outgoing :
      (s : Server W) (x n : ℕ)
      → get_conn s.conn_mgr (pos fd) ≡ some x
      → Knows (pool_of s) x
      → Bytes.IsValid (at_conn s x)
      → IsSized s.epoller
      → (os.send (pos fd) (unsent (at_conn s x)) s.world).0 ≡ pos n
      → Returns
          (λ s'. outgoing wire s' x ≡ outgoing wire s x)
          (do_tcp_write os s (pos fd) (some epoller_ptr))
  unfolding do_tcp_write get_conn written_data clear_send_data
  do_tcp_write-outgoing s x n mapped known valid sized taken =
      let c = at_conn s x in
      let bytes = unsent c in
      let w1 = (os.send (pos fd) bytes s.world).1 in
      let s1 : Server W = record s { world = w1 } in
      let (short, went) = send_some bytes s.world n taken in
      let size = length-window c.send_buf.at 0 c.send_buf_size in
      let le : n ≤ c.send_buf_size = omega (arith, short, size) in
      rw (mapped, read-mem_at (pool_of s) x known, taken, read-mem_at (pool_of s) x known)
        (Returns-if (ltb 0 n && ltb n c.send_buf_size)
          (λ part.
            rw
              (
                remove_send_data-ok c valid n le,
                write-written (pool_of s) x (unsent_less c n) known,
              )
              (returns (
                ap (λ (l : List ℕ). l ++ unsent (at_conn (with_conn s1 x (unsent_less c n)) x)) went
                ∙ ap (λ (c' : Connection). (wire s.world ++ take n bytes) ++ unsent c')
                    (at_conn-with_conn s1 x known (unsent_less c n))
                ∙ ap (λ (l : List ℕ). (wire s.world ++ take n bytes) ++ l) (unsent-less c n le)
                ∙ append_assoc (wire s.world) (take n bytes) (drop n bytes)
                ∙ ap (λ (l : List ℕ). wire s.world ++ l) (take-drop n bytes))))
          (λ rest.
            Returns-if (n == c.send_buf_size)
              (λ whole.
                let cleared : Connection = record c { send_buf_size = 0 } in
                rw (write-written (pool_of s) x cleared known) (
                  Returns-bind (del_event-quiet os fd wire sends s.epoller event_write w1 sized)
                    λ r same. returns (
                      ap (λ (l : List ℕ). l ++ unsent (at_conn (with_conn s1 x cleared) x))
                        (same ∙ went)
                      ∙ ap (λ (c' : Connection). (wire s.world ++ take n bytes) ++ unsent c')
                          (at_conn-with_conn s1 x known cleared)
                      ∙ append-nil (wire s.world ++ take n bytes)
                      ∙ ap (λ (l : List ℕ). wire s.world ++ l)
                          (take_all n bytes (ground (arith, size))))))
              (λ none_sent.
                let zero_sent : n ≡ 0 = ground (arith, le) in
                returns (
                  ap (λ (l : List ℕ). l ++ bytes)
                    (went
                      ∙ ap (λ (k : ℕ). wire s.world ++ take k bytes) zero_sent
                      ∙ append-nil (wire s.world))))))
