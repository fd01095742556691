-- ===== src/HeapTimer/Ready.antt =====
-- RegisterTimer up to the point where the node enters the heap: an index is taken from the free
-- list, and the arrays grow.
use play_frame.Common.{
  ℕ, suc, ◌+◌, ◌-◌, ◌*◌, ◌^◌, ◌<◌, ◌≡◌, ◌≢◌, refl, sym, ◌∙◌, List, ◌∷◌, ◌++◌, length, All, Distinct,
  arith, inl, subst, ◌≤◌, none,
}
use play_frame.Common.Int.{pos, negsuc, neg}
use play_frame.Common.Run.{ok}
use play_frame.Common.Array.{load-ok, store-ok, set, update_self, update_other}
use play_frame.Random
use play_frame.Random.{modulus}
use play_frame.ShmPool.FreeList.{Chain, On-negative}
use play_frame.ShmPool.Init.{range, length-range, range-above, range-Distinct, Chain-range}
use play_frame.HeapTimer.{HeapTimer, pop_free_timer_id, grow_heap}
use play_frame.HeapTimer.Layout.{slot, Layout}
use play_frame.HeapTimer.Order.{IsHeap}
use play_frame.HeapTimer.Settled.{nodes_at, link_at, Sized}
use play_frame.HeapTimer.Invariant.{HasId, IsSeed, Held, timer_at}
use play_frame.HeapTimer.Insert.{
  slot_taken, grow-Layout, grown_link-old, grown_link-new, grown_link, Chain-append, length-append,
  avoids-append, Distinct-append,
}

-- Index `x` has left the free list `xs` with the random number `r`, and has no node yet.
pub record Ready (t : HeapTimer) (x r : ℕ) (xs : List ℕ) : Type 0 where
  pub sized : Sized t
  pub rands : t.rand_array.size ≡ t.heap_size
  pub low : 0 < x
  pub high : x < t.heap_size
  pub layout : Layout t.heap_size t.cur_size (nodes_at t) (link_at t)
  pub ordered : IsHeap t.cur_size (nodes_at t)
  pub ids : (p : ℕ) → p < t.cur_size → HasId t.rand_array.at (nodes_at t p)
  pub free : (m : ℕ) × (link_at t x ≡ negsuc m)
  pub number : t.rand_array.at x ≡ pos r
  pub small : r < 2 ^ 31
  pub chained : Chain (link_at t) (t.heap_size - 1) xs t.free_timer_node_index
  pub distinct : Distinct xs
  pub avoids : All (λ y. y ≢ x) xs
  pub counted : length xs + t.cur_size + 2 ≡ t.heap_size
  pub seeded : IsSeed t.rand_maker

abbrev pub popped : HeapTimer → ℕ → ℕ → HeapTimer
popped t x r = record t {
  rand_array = set t.rand_array x (pos r);
  free_timer_node_index = neg (link_at t x);
  rand_maker = pos r;
}

module _ (t : HeapTimer) (x r : ℕ) (xs : List ℕ) (v : Held t (x ∷ xs)) where
  pub pop-first :
      Random.get_rand t.rand_maker ≡ pos r
      → pop_free_timer_id t ≡ ok (pos (x * 2 ^ 32 + r), popped t x r)
  unfolding pop_free_timer_id
  pop-first e =
      let h : x < t.heap_size = omega (arith, v.chained.2, v.room) in
      rw (v.chained.0, load-ok t.timer_node_index_array x (omega (arith, v.sized.links)), e)
        (rw (store-ok t.rand_array x (pos r) (omega (arith, v.rands))))

  free_first : (m : ℕ) × (link_at t x ≡ negsuc m)
  free_first = On-negative (link_at t) (t.heap_size - 1) x (x ∷ xs) _ v.chained (inl refl)

  pub pop-Ready : 0 < r → r < modulus → Ready (popped t x r) x r xs
  pop-Ready lo hi = record {
    sized = record { heap = v.sized.heap; links = v.sized.links };
    rands = v.rands;
    low = v.chained.1;
    high = omega (arith, v.chained.2, v.room);
    layout = v.layout;
    ordered = v.ordered;
    ids = λ p h.
        let old = v.ids p h in
        let (m, f) = free_first in
        record {
          number = old.number;
          id = old.id;
          known =
              update_other t.rand_array.at x (slot (nodes_at t p)) (pos r) (λ e.
                slot_taken t.heap_size t.cur_size (nodes_at t) (link_at t) v.layout x m p f h
                  (sym e))
              ∙ old.known;
          small = old.small;
        };
    free = free_first;
    number = update_self t.rand_array.at x (pos r);
    small = omega arith;
    chained = v.chained.3;
    distinct = v.distinct.1;
    avoids = v.distinct.0;
    counted = omega (arith, v.counted);
    seeded = record { seed = r; is_seed = refl; nonzero = lo; bound = hi };
  }

module _ (t : HeapTimer) (x r : ℕ) (xs : List ℕ) (v : Ready t x r xs) where
  abbrev fresh : List ℕ
  fresh = range t.heap_size t.heap_size

  grown : (i : ℕ) → i < t.heap_size → link_at (grow_heap t) i ≡ link_at t i
  unfolding grow_heap
  grown i h = grown_link-old t.heap_size (link_at t) i h

  pub grow-timer_at : (i : ℕ) → i < t.heap_size → timer_at (grow_heap t) i ≡ timer_at t i
  unfolding grow_heap
  grow-timer_at i h = rw (grown_link-old t.heap_size (link_at t) i h)

  -- The new places have no timers.
  pub grow-fresh : (i : ℕ) → t.heap_size ≤ i → i < 2 * t.heap_size → timer_at (grow_heap t) i ≡ none
  unfolding grow_heap
  grow-fresh i lo hi = rw (grown_link-new t.heap_size (link_at t) i lo)

  the_end : 0 < t.heap_size → t.heap_size ≡ suc (t.heap_size - 1)
  the_end h = omega arith

  pub grow-Ready : Ready (grow_heap t) x r (xs ++ fresh)
  unfolding grow_heap
  grow-Ready =
      let positive : 0 < t.heap_size = omega (arith, v.counted) in
      record {
        sized = record { heap = refl; links = refl };
        rands = refl;
        low = v.low;
        high = omega (arith, v.high);
        layout = grow-Layout t.heap_size (link_at t) t.cur_size (nodes_at t) v.layout;
        ordered = v.ordered;
        ids = λ p h.
            let old = v.ids p h in
            record {
              number = old.number;
              id = old.id;
              known = ground (arith, old.known, v.layout.high p h);
              small = old.small;
            };
        free = (v.free.0, grown x v.high ∙ v.free.1);
        number = ground (arith, v.number, v.high);
        small = v.small;
        chained =
            Chain-append (link_at t) (grown_link t.heap_size (link_at t)) (t.heap_size - 1)
              (2 * t.heap_size - 1) xs fresh t.free_timer_node_index (omega arith)
              (λ i le. grown i (omega arith))
              (subst
                (λ z.
                  Chain (grown_link t.heap_size (link_at t)) (2 * t.heap_size - 1) fresh (pos z))
                (the_end positive)
                (Chain-range (grown_link t.heap_size (link_at t)) (2 * t.heap_size - 1) t.heap_size
                  t.heap_size (λ j p q. grown_link-new t.heap_size (link_at t) j p) positive
                  (omega arith)))
              v.chained;
        distinct =
            Distinct-append (link_at t) (t.heap_size - 1) xs fresh _ v.chained v.distinct
              (range-Distinct t.heap_size t.heap_size)
              (λ y le. range-above t.heap_size t.heap_size y (omega arith));
        avoids = avoids-append x xs fresh v.avoids (range-above t.heap_size t.heap_size x v.high);
        counted =
            omega (arith, v.counted, length-append xs fresh, length-range t.heap_size t.heap_size);
        seeded = v.seeded;
      }
