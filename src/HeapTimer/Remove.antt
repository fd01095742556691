-- ===== src/HeapTimer/Remove.antt =====
-- RemoveNode takes one timer out and leaves all others alone.
use play_frame.Common.{
  ℕ, ◌+◌, ◌-◌, ◌<◌, ◌≡◌, ◌≢◌, refl, sym, ap, ◌∙◌, subst, inl, inr, none, some, arith, eq_cases,
  List, ◌∷◌, All, ltb→lt, ltb_false→le, ltb, false, Bool-cases, ne→==,
}
use play_frame.Common.Int.{ℤ, pos, negsuc, neg, neg-neg, ==ℤ-refl}
use play_frame.Common.Run.{ok, Returns, returns, Returns-bind, Returns-map, Returns-if}
use play_frame.Common.Array.{update_self, update_other, set, load-ok, store-ok}
use play_frame.TimeValue.Order.{Le, gte, gte→Le, not_gte→Le, Le-refl, Le→gte}
use play_frame.ShmPool.FreeList.{Chain, Chain-update, Chain-avoids, Chain-negative}
use play_frame.HeapTimer.{
  TimerNode, HeapTimer, rand_num, push_free_timer_id, remove_node, fill_gap, rotate, rotate_up,
  rotate_down, get_left_child_pos, put_node, get_parent_pos,
}
use play_frame.HeapTimer.Layout.{slot, Layout, slot-injective}
use play_frame.HeapTimer.Order.{IsHeap, Rising, Sinking, parent}
use play_frame.HeapTimer.Settled.{
  nodes_at, link_at, placed, placed-again, Settled, Gap, put_node-placed,
}
use play_frame.HeapTimer.RotateUp.{rotate_up-Settled, get_parent_pos-parent}
use play_frame.HeapTimer.RotateDown.{rotate_down-Settled}
use play_frame.HeapTimer.Invariant.{HasId, Held, IsValid, timer_at, Settled-all}
use play_frame.HeapTimer.Delete.{
  drop-Layout, drop-others, moved-all, moved-Layout, moved-others, moved-absent, moved-Sinking,
  moved-Rising,
}

-- The timer `x` has left those of `t`.
pub record Left (t : HeapTimer) (x : ℕ) (t' : HeapTimer) : Type 0 where
  pub absent : timer_at t' x ≡ none
  pub others : (i : ℕ) → 0 < i → i < t.heap_size → i ≢ x → timer_at t' i ≡ timer_at t i
  pub count : t'.cur_size + 1 ≡ t.cur_size
  pub size : t'.heap_size ≡ t.heap_size
  pub valid : IsValid t'

-- The random number in a node's id.
pub rand_num-HasId :
    (rand : ℕ → ℤ) (node : TimerNode) (d : HasId rand node) → rand_num node.timer_id ≡ pos d.number
rand_num-HasId rand node d = let s = d.small in rw d.id (ground arith)

module _ (t : HeapTimer) (fs : List ℕ) (v : Held t fs) (place : ℕ)
    (inside : place < t.cur_size) where
  abbrev x : ℕ
  x = slot (nodes_at t place)

  abbrev n : ℕ
  n = t.cur_size - 1

  one_more : t.cur_size ≡ n + 1
  one_more = omega arith

  layout : Layout t.heap_size (n + 1) (nodes_at t) (link_at t)
  layout = subst (λ c. Layout t.heap_size c (nodes_at t) (link_at t)) one_more v.layout

  ordered : IsHeap (n + 1) (nodes_at t)
  ordered = subst (λ c. IsHeap c (nodes_at t)) one_more v.ordered

  freed_link : (m : ℕ) × (neg t.free_timer_node_index ≡ negsuc m)
  freed_link = Chain-negative (link_at t) (t.heap_size - 1) fs t.free_timer_node_index v.chained

  abbrev k : ℕ
  k = freed_link.0

  -- The timers once the index is free.
  abbrev freed : HeapTimer
  freed = record t {
    timer_node_index_array = set t.timer_node_index_array x (negsuc k);
    free_timer_node_index = pos x;
    rand_array = set t.rand_array x (pos 0);
  }

  abbrev less : HeapTimer
  less = record freed { cur_size = n }

  push-freed : push_free_timer_id t (nodes_at t place).timer_id ≡ ok freed
  unfolding push_free_timer_id
  push-freed =
      let d = v.ids place inside in
      let h : x < t.heap_size = v.layout.high place inside in
      rw
        (
          v.layout.named place inside,
          load-ok t.rand_array x (omega (arith, v.rands)),
          d.known,
          rand_num-HasId t.rand_array.at (nodes_at t place) d,
          ==ℤ-refl (pos d.number),
          freed_link.1,
          store-ok t.timer_node_index_array x (negsuc k) (omega (arith, v.sized.links)),
        )
        (rw (store-ok t.rand_array x (pos 0) (omega (arith, v.rands))))

  avoids : All (λ y. y ≢ x) fs
  avoids =
      Chain-avoids (link_at t) (t.heap_size - 1) x place fs t.free_timer_node_index
        (v.layout.linked place inside) v.chained

  first_again : neg (link_at freed x) ≡ t.free_timer_node_index
  first_again =
      ap neg (update_self (link_at t) x (negsuc k) ∙ sym freed_link.1)
      ∙ neg-neg t.free_timer_node_index

  chained : Chain (link_at freed) (t.heap_size - 1) (x ∷ fs) (pos x)
  chained = (
    refl,
    v.layout.low place inside,
    let h = v.layout.high place inside in omega arith,
    subst (λ z. Chain (link_at freed) (t.heap_size - 1) fs z) (sym first_again)
        (Chain-update (link_at t) (t.heap_size - 1) x (negsuc k) fs t.free_timer_node_index avoids
          v.chained),
  )

  id_kept : (p : ℕ) → p < n + 1 → place ≢ p → HasId freed.rand_array.at (nodes_at t p)
  id_kept p h ne =
      let d = v.ids p (omega arith) in
      record {
        number = d.number;
        id = d.id;
        known =
            update_other t.rand_array.at x (slot (nodes_at t p)) (pos 0) (λ e. ne (
              slot-injective t.heap_size (n + 1) (nodes_at t) (link_at t) layout place p
                (omega arith) h e))
            ∙ d.known;
        small = d.small;
      }

  -- The last node leaves, and the others stay where they are.
  last-Left : place ≡ n → Left t x less
  last-Left e = record {
    absent = rw (update_self (link_at t) x (negsuc k)) refl;
    others = λ i lo hi ne.
        drop-others t.heap_size n (nodes_at t) (link_at t) layout place k i (λ s. ne (sym s));
    count = omega arith;
    size = refl;
    valid = (
      x ∷ fs,
      record {
        sized = record { heap = v.sized.heap; links = v.sized.links };
        rands = v.rands;
        room = omega (arith, v.room);
        layout = drop-Layout t.heap_size n (nodes_at t) (link_at t) layout place k e;
        ordered = λ c lo hi. ordered c lo (omega arith);
        ids = λ p h. id_kept p (omega arith) (λ s. omega arith);
        chained = chained;
        distinct = (avoids, v.distinct);
        counted = omega (arith, v.counted);
        seeded = v.seeded;
      },
    );
  }

  module _ (inner : place < n) where
    abbrev last : TimerNode
    last = nodes_at t n

    -- The last node stands at the place.
    abbrev filled : HeapTimer
    filled = placed less place last

    filled-Layout : Layout t.heap_size n (nodes_at filled) (link_at filled)
    filled-Layout = moved-Layout t.heap_size n (nodes_at t) (link_at t) layout place k inner

    put_node-filled : put_node less place last ≡ ok filled
    put_node-filled =
        let h = layout.high n (omega arith) in
        put_node-placed n less place last (omega (arith, v.sized.heap, v.room))
          (layout.named n (omega arith)) (omega (arith, v.sized.links))

    gap : Gap n filled place last
    gap = record {
      sized = record { heap = v.sized.heap; links = v.sized.links };
      bound = omega (arith, v.room);
      inside = inner;
      layout =
          subst (λ u. Layout t.heap_size n (nodes_at u) (link_at u))
            (sym (placed-again less place last)) filled-Layout;
    }

    filled_ids : (p : ℕ) → p < n → HasId freed.rand_array.at (nodes_at filled p)
    filled_ids =
        moved-all t.heap_size n (nodes_at t) (link_at t) layout place k inner
          (HasId freed.rand_array.at) id_kept

    abbrev parent_node : TimerNode
    parent_node = nodes_at filled (parent place)

    upper : 0 < place → parent_node ≡ nodes_at t (parent place)
    upper h = update_other (nodes_at t) place (parent place) last (λ e. omega arith)

    sunk :
        Le parent_node.expire_time last.expire_time
        → Returns (Settled n filled) (rotate_down filled last place (get_left_child_pos place))
    sunk late =
        subst
          (λ u. Returns (Settled n u) (rotate_down filled last place (get_left_child_pos place)))
          (placed-again less place last)
          (rotate_down-Settled filled place last gap (
            subst (λ u. Sinking n (nodes_at u) place) (sym (placed-again less place last))
              (moved-Sinking t.heap_size n (nodes_at t) (link_at t) layout place k inner ordered
                (λ h. rw (upper h) at late))))

    risen :
        0 < place
        → Le last.expire_time parent_node.expire_time
        → Returns (Settled n filled) (rotate_up filled last place (get_parent_pos place))
    risen below early =
        subst (λ u. Returns (Settled n u) (rotate_up filled last place (get_parent_pos place)))
          (placed-again less place last)
          (rotate_up-Settled n filled place last gap (
            subst (λ u. Rising n (nodes_at u) place) (sym (placed-again less place last))
              (moved-Rising t.heap_size n (nodes_at t) (link_at t) layout place k inner ordered
                below (rw (upper below) at early))))

    -- At the root the last node is compared with itself.
    not_root : gte last.expire_time parent_node.expire_time ≡ false → 0 < place
    not_root e = elim (eq_cases place 0) [
      | inl z ↦
          let same : parent_node ≡ last = rw z (update_self (nodes_at t) 0 last) in
          let self = Le→gte last.expire_time last.expire_time (Le-refl last.expire_time) in
          let moved = ap (λ (y : TimerNode). gte last.expire_time y.expire_time) same in absurd cc
      | inr ne ↦ omega arith
    ]

    fill_gap-Settled : Returns (Settled n filled) (fill_gap less place)
    unfolding fill_gap rotate
    fill_gap-Settled =
        rw
          (
            load-ok t.heap n (omega (arith, v.sized.heap, v.room)),
            put_node-filled,
            get_parent_pos-parent place,
            load-ok filled.heap (parent place) (omega (arith, v.sized.heap, v.room)),
          )
          (Returns-if (gte last.expire_time parent_node.expire_time)
            (λ late. sunk (gte→Le last.expire_time parent_node.expire_time late))
            (λ early.
              rw (← get_parent_pos-parent place) (
                risen (not_root early)
                  (not_gte→Le last.expire_time parent_node.expire_time early))))

    module _ (t' : HeapTimer) (s : Settled n filled t') where
      abbrev settled : HeapTimer
      settled = record filled { heap = t'.heap; timer_node_index_array = t'.timer_node_index_array }

      settled-Chain : Chain (link_at t') (t.heap_size - 1) (x ∷ fs) (pos x)
      settled-Chain =
          let l = layout.linked n (omega arith) in
          let apart : x ≢ slot last = λ e.
            let p =
              slot-injective t.heap_size (n + 1) (nodes_at t) (link_at t) layout place n
                (omega arith) (omega arith) e in
            omega arith in
          s.chained (t.heap_size - 1) (x ∷ fs) (pos x) (
            Chain-update (link_at freed) (t.heap_size - 1) (slot last) (pos place) (x ∷ fs) (pos x)
              (
                apart,
                Chain-avoids (link_at t) (t.heap_size - 1) (slot last) n fs t.free_timer_node_index
                    l v.chained,
              )
              chained)

      settled-Left : Left t x settled
      settled-Left = record {
        absent =
            s.nodes x (v.layout.low place inside) (v.layout.high place inside)
            ∙ moved-absent t.heap_size n (nodes_at t) (link_at t) layout place k inner;
        others = λ i lo hi ne.
            s.nodes i lo hi
            ∙ moved-others t.heap_size n (nodes_at t) (link_at t) layout place k inner i lo hi
                (λ e. ne (sym e));
        count = omega arith;
        size = refl;
        valid = (
          x ∷ fs,
          record {
            sized = record {
              heap = s.sized.heap ∙ ap (λ (u : HeapTimer). u.heap_size) s.frame;
              links = s.sized.links ∙ ap (λ (u : HeapTimer). u.heap_size) s.frame;
            };
            rands = v.rands;
            room = omega (arith, v.room);
            layout = s.layout;
            ordered = s.ordered;
            ids = Settled-all n filled t' filled-Layout s (HasId freed.rand_array.at) filled_ids;
            chained = settled-Chain;
            distinct = (avoids, v.distinct);
            counted = omega (arith, v.counted);
            seeded = v.seeded;
          },
        );
      }

    fill_gap-Left : Returns (Left t x) (fill_gap less place)
    fill_gap-Left =
        Returns-map fill_gap-Settled λ t' s. subst (Left t x) (sym s.frame) (settled-Left t' s)

  -- RemoveNode of a place in use.
  pub remove_node-Left :
      Returns
        (λ r. (r.0 ≡ some (record (nodes_at t place) { timer_id = negsuc 0 })) × Left t x r.1)
        (remove_node t place)
  unfolding remove_node
  remove_node-Left =
      rw
        (
          ne→== t.cur_size 0 (λ e. omega arith),
          load-ok t.heap place (omega (arith, v.sized.heap, v.room)),
          push-freed,
        )
        (elim (Bool-cases (ltb place (t.cur_size - 1))) [
          | inl e ↦
              rw e (Returns-bind (fill_gap-Left (ltb→lt place n e)) (λ t' l. returns (refl, l)))
          | inr e ↦ let f = ltb_false→le place n e in rw e (returns (refl, last-Left (omega arith)))
        ])
