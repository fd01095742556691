-- ===== src/ConnMgr/Create.antt =====
-- A new connection in the pool and in the map.
use play_frame.Common.{
  ℕ, ◌+◌, ◌<◌, ◌≡◌, ◌≢◌, sym, ap, ◌∙◌, none, some, length, arith, Bool-cases, false, inl, inr,
}
use play_frame.Common.Int.{ℤ, pos, ◌==ℤ◌, ==ℤ→eq}
use play_frame.Common.Run.{ok, Returns, returns, Returns-bind}
use play_frame.ShmPool
use play_frame.ShmPool.{PoolCtrl, find}
use play_frame.ShmPool.Operations.{alloc_correct}
use play_frame.ShmPool.Memory.{
  Knows, mem_at, written, write-written, written-IsValid, find-written, mem_at-written_self,
  mem_at-written_other,
}
use play_frame.Connection.{Connection, blank_connection}
use play_frame.ConnMgr.{ConnMgr, get_conn, create_conn}
use play_frame.ConnMgr.Invariant.{
  IsMap, IsSound, Knows-apart, IsMap-erase, lookup-erase_self, erase_absent, lookup-insert_self,
  lookup-insert_other,
}

-- The unit `x` is new, and stands in the map under `fd`; nothing else is new.
pub record Created (m : ConnMgr) (fd : ℤ) (x : ℕ) (m' : ConnMgr) : Type 0 where
  pub was_free : find m.conn_pool (pos x) ≡ ok none
  pub known : Knows m'.conn_pool x
  pub mapped : get_conn m' fd ≡ some x
  pub others : (other : ℤ) → (fd ==ℤ other) ≡ false → get_conn m' other ≡ get_conn m other
  pub units : (y : ℕ) → y ≢ x → find m'.conn_pool (pos y) ≡ find m.conn_pool (pos y)
  pub memory : (y : ℕ) → x ≢ y → mem_at m'.conn_pool y ≡ mem_at m.conn_pool y
  pub valid : ShmPool.Invariant.IsValid m'.conn_pool
  pub keyed : IsMap m'.conn_map
  pub counted : m'.conn_pool.valid_unit_count + length m'.conn_map ≡ m'.conn_pool.total_unit_count

module _ (m : ConnMgr) (sound : IsSound m) (fd : ℤ) (absent : get_conn m fd ≡ none) where
  -- With a unit left and a socket that is not in the map.
  pub create_conn-Created :
      0 < m.conn_pool.valid_unit_count
      → Returns
          (λ r. Created m fd (r.0) (r.1) × (mem_at r.1.conn_pool (r.0) ≡ blank_connection))
          (create_conn m fd)
  unfolding create_conn get_conn
  create_conn-Created room = Returns-bind (alloc_correct m.conn_pool sound.valid room) λ r g.
      let x = g.place in
      let same = erase_absent m.conn_map fd absent in
      rw (g.result, write-written (r.1) x blank_connection g.now_used)
        (returns (
          record {
            was_free = g.was_free;
            known = find-written (r.1) x blank_connection x ∙ g.now_used;
            mapped = lookup-insert_self m.conn_map fd x;
            others = λ other ne. lookup-insert_other m.conn_map fd x other ne;
            units = λ y ne. find-written (r.1) x blank_connection y ∙ g.others y ne;
            memory = λ y ne. mem_at-written_other (r.1) x blank_connection y ne ∙ g.memory y;
            valid = written-IsValid (r.1) x blank_connection g.valid;
            keyed = (lookup-erase_self m.conn_map fd, IsMap-erase m.conn_map fd sound.keyed);
            counted = omega (arith, ap length same, g.count, g.total, sound.counted);
          },
          mem_at-written_self (r.1) x blank_connection,
        ))

  -- Writing to the new connection keeps all that.
  pub Created-written :
      (x : ℕ) (m' : ConnMgr) (c : Connection)
      → Created m fd x m'
      → Created m fd x (record m' { conn_pool = written m'.conn_pool x c })
  unfolding get_conn
  Created-written x m' c d = record {
    was_free = d.was_free;
    known = find-written m'.conn_pool x c x ∙ d.known;
    mapped = d.mapped;
    others = d.others;
    units = λ y ne. find-written m'.conn_pool x c y ∙ d.units y ne;
    memory = λ y ne. mem_at-written_other m'.conn_pool x c y ne ∙ d.memory y ne;
    valid = written-IsValid m'.conn_pool x c d.valid;
    keyed = d.keyed;
    counted = d.counted;
  }

  -- Once it carries its socket, the connections are sound again.
  pub Created-IsSound :
      (x : ℕ) (m' : ConnMgr) → Created m fd x m' → (mem_at m'.conn_pool x).conn_fd ≡ fd → IsSound m'
  Created-IsSound x m' d own = record {
    valid = d.valid;
    known = λ other y e. elim (Bool-cases (fd ==ℤ other)) [
      | inl t ↦
          let same : x ≡ y =
            let h : get_conn m' other ≡ some x =
              ap (get_conn m') (sym (==ℤ→eq fd other t)) ∙ d.mapped in
            cc in
          rw (sym same) d.known
      | inr f ↦
          let old = sym (d.others other f) ∙ e in
          d.units y (Knows-apart m.conn_pool x y d.was_free (sound.known other y old))
          ∙ sound.known other y old
    ];
    named = λ other y e. elim (Bool-cases (fd ==ℤ other)) [
      | inl t ↦
          let same : x ≡ y =
            let h : get_conn m' other ≡ some x =
              ap (get_conn m') (sym (==ℤ→eq fd other t)) ∙ d.mapped in
            cc in
          rw (sym same) (own ∙ ==ℤ→eq fd other t)
      | inr f ↦
          let old = sym (d.others other f) ∙ e in
          ap (λ (c : Connection). c.conn_fd)
            (d.memory y
              (λ q. Knows-apart m.conn_pool x y d.was_free (sound.known other y old) (sym q)))
          ∙ sound.named other y old
    ];
    keyed = d.keyed;
    counted = d.counted;
  }
