-- ===== src/ConnMgr/Release.antt =====
-- ReleaseConn: the unit is free, the map has lost the entry, the socket is closed.
use play_frame.Common.{
  ℕ, ◌≡◌, ◌≢◌, refl, sym, ap, ◌∙◌, none, some, arith, Bool-cases, true, false, inl, inr,
}
use play_frame.Common.Int.{ℤ, pos, ◌==ℤ◌, ==ℤ→eq, ==ℤ-refl}
use play_frame.Common.Run.{ok, Returns, returns, Returns-bind}
use play_frame.ShmPool.{find}
use play_frame.ShmPool.Operations.{release_correct}
use play_frame.ShmPool.Memory.{mem_at, read-mem_at}
use play_frame.Connection.{Connection}
use play_frame.ConnMgr.{ConnMgr, lookup, erase, get_conn, release_conn}
use play_frame.ConnMgr.Invariant.{
  IsSound, IsMap-erase, lookup-erase_self, lookup-erase_other, length-erase,
}

pub record Released {W : Type 0} (m : ConnMgr) (fd : ℤ) (x : ℕ) (w' : W) (r : ConnMgr × W)
    : Type 0 where
  pub closed : r.1 ≡ w'
  pub unmapped : get_conn (r.0) fd ≡ none
  pub now_free : find (r.0).conn_pool (pos x) ≡ ok none
  pub others : (other : ℤ) → (fd ==ℤ other) ≡ false → get_conn (r.0) other ≡ get_conn m other
  pub memory : (y : ℕ) → mem_at (r.0).conn_pool y ≡ mem_at m.conn_pool y
  pub sound : IsSound (r.0)

module _ {W : Type 0} (close : ℤ → W → W) (m : ConnMgr) (sound : IsSound m) (fd : ℤ) where
  -- What is left in the map was there before, and is another unit.
  kept :
      (x : ℕ) (other : ℤ) (y : ℕ)
      → get_conn m fd ≡ some x
      → lookup (erase m.conn_map fd) other ≡ some y
      → (get_conn m other ≡ some y) × (y ≢ x)
  unfolding get_conn
  kept x other y mapped e = elim (Bool-cases (fd ==ℤ other)) [
    | inl t ↦
        let h : lookup (erase m.conn_map fd) other ≡ none =
          ap (lookup (erase m.conn_map fd)) (sym (==ℤ→eq fd other t))
          ∙ lookup-erase_self m.conn_map fd in
        absurd (cc)
    | inr f ↦
        let old : lookup m.conn_map other ≡ some y =
          sym (lookup-erase_other m.conn_map fd other f) ∙ e in
        (
          old,
          λ q.
              let a : (mem_at m.conn_pool y).conn_fd ≡ other = sound.named other y old in
              let b : (mem_at m.conn_pool x).conn_fd ≡ fd = sound.named fd x mapped in
              let c : fd ≡ other =
                sym b ∙ ap (λ (z : ℕ). (mem_at m.conn_pool z).conn_fd) (sym q) ∙ a in
              let d : (fd ==ℤ other) ≡ true = rw (sym c) (==ℤ-refl fd) in cc,
        )
  ]

  -- ReleaseConn of a socket in the map of sound connections returns: the socket is closed and not in
  -- the map, its unit is free, every other socket keeps its connection, and the connections are
  -- sound again.
  pub release_conn-Released :
      (x : ℕ) (w : W)
      → get_conn m fd ≡ some x
      → Returns (Released m fd x (close fd w)) (release_conn close m fd w)
  unfolding release_conn get_conn
  release_conn-Released x w mapped =
      let known = sound.known fd x mapped in
      let own : ((mem_at m.conn_pool x).conn_fd ==ℤ fd) ≡ true =
        rw (sound.named fd x mapped) (==ℤ-refl fd) in
      rw (mapped, read-mem_at m.conn_pool x known, own)
        (Returns-bind (release_correct m.conn_pool x sound.valid known) λ q t.
          let old : (other : ℤ)
              → (fd ==ℤ other) ≡ false
              → get_conn (record { conn_pool = q; conn_map = erase m.conn_map fd }) other
                ≡ get_conn m other =
            λ other ne. lookup-erase_other m.conn_map fd other ne in
          returns (record {
            closed = refl;
            unmapped = lookup-erase_self m.conn_map fd;
            now_free = t.now_free;
            others = old;
            memory = t.memory;
            sound = record {
              valid = t.valid;
              known = λ other y e.
                  let (old, ne) = kept x other y mapped e in
                  t.others y ne ∙ sound.known other y old;
              named = λ other y e.
                  let (old, ne) = kept x other y mapped e in
                  ap (λ (c : Connection). c.conn_fd) (t.memory y) ∙ sound.named other y old;
              keyed = IsMap-erase m.conn_map fd sound.keyed;
              counted = omega (
                arith,
                t.count,
                t.total,
                sound.counted,
                length-erase m.conn_map fd x sound.keyed mapped,
              );
            };
          }))

  -- A socket that is not in the map.
  pub release_conn-absent : (w : W) → get_conn m fd ≡ none → release_conn close m fd w ≡ ok (m, w)
  unfolding release_conn get_conn
  release_conn-absent w absent = rw absent
