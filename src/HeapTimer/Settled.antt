-- ===== src/HeapTimer/Settled.antt =====
-- What RotateUp and RotateDown leave behind: the same timers, in heap order.
use mathlib.Core.Path.{fun_ext}
use play_frame.Common.{ℕ, ◌≤◌, ◌<◌, ◌≡◌, ◌≢◌, refl, ◌∙◌, List, inl, inr, arith, Bool-cases, ◌==◌}
use play_frame.Common.Int.{ℤ, pos}
use play_frame.Common.Run.{ok, Returns, returns}
use play_frame.Common.Array.{update, update_self, update_other, set, store-ok}
use play_frame.ShmPool.FreeList.{Chain}
use play_frame.HeapTimer.{TimerNode, HeapTimer, timer_node_index, put_node}
use play_frame.HeapTimer.Layout.{
  slot, Layout, node_of, swap_at, swap_link, swap-node_of, swap-Chain,
}
use play_frame.HeapTimer.Order.{IsHeap}

abbrev pub nodes_at : HeapTimer → ℕ → TimerNode
nodes_at t = t.heap.at

abbrev pub link_at : HeapTimer → ℕ → ℤ
link_at t = t.timer_node_index_array.at

-- The timers once `node` stands at `place`.
abbrev pub placed : HeapTimer → ℕ → TimerNode → HeapTimer
placed t place node = record t {
  heap = set t.heap place node;
  timer_node_index_array = set t.timer_node_index_array (slot node) (pos place);
}

-- The timers once the nodes at `p` and `q` have traded places.
abbrev pub swapped : HeapTimer → ℕ → ℕ → HeapTimer
swapped t p q = record t {
  heap = record t.heap { at = swap_at (nodes_at t) p q };
  timer_node_index_array = record t.timer_node_index_array {
    at = swap_link (nodes_at t) (link_at t) p q;
  };
}

pub record Sized (t : HeapTimer) : Type 0 where
  pub heap : t.heap.size ≡ t.heap_size
  pub links : t.timer_node_index_array.size ≡ t.heap_size

-- `t'` holds the timers of `t`, of which there are `n`, in heap order.
pub record Settled (n : ℕ) (t t' : HeapTimer) : Type 0 where
  pub frame : t' ≡ record t { heap = t'.heap; timer_node_index_array = t'.timer_node_index_array }
  pub sized : Sized t'
  pub layout : Layout t.heap_size n (nodes_at t') (link_at t')
  pub ordered : IsHeap n (nodes_at t')
  pub nodes :
      (i : ℕ)
      → 0 < i
      → i < t.heap_size
      → node_of (nodes_at t') (link_at t') i ≡ node_of (nodes_at t) (link_at t) i
  pub chained : (m : ℕ) (fs : List ℕ) (z : ℤ) → Chain (link_at t) m fs z → Chain (link_at t') m fs z

pub Settled-swapped :
    (n : ℕ) (t t' : HeapTimer) (p q : ℕ)
    → Layout t.heap_size n (nodes_at t) (link_at t)
    → p < n
    → q < n
    → p ≢ q
    → Settled n (swapped t p q) t'
    → Settled n t t'
Settled-swapped n t t' p q v hp hq ne s = record {
  frame = s.frame;
  sized = s.sized;
  layout = s.layout;
  ordered = s.ordered;
  nodes = λ i lo hi.
      s.nodes i lo hi ∙ swap-node_of t.heap_size n (nodes_at t) (link_at t) v p q hp hq ne i lo hi;
  chained = λ m fs z c.
      s.chained m fs z (swap-Chain t.heap_size n (nodes_at t) (link_at t) v p q hp hq ne m fs z c);
}

module _ {ℓ} {A : Type ℓ} (f : ℕ → A) where
  update-update : (i : ℕ) (a b : A) → update (update f i a) i b ≡ update f i b
  update-update i a b = fun_ext λ j. elim (Bool-cases (i == j)) [ inl e ↦ rw e | inr e ↦ rw e ]

  update-shadow :
      (i j : ℕ) (a b c : A) → update (update (update f i a) j b) i c ≡ update (update f j b) i c
  update-shadow i j a b c = fun_ext λ k. elim (Bool-cases (i == k)) [ inl e ↦ rw e | inr e ↦ rw e ]

module _ (at : ℕ → TimerNode) (link : ℕ → ℤ) (place q : ℕ) (node : TimerNode) (ne : place ≢ q) where
  moved_at : update (update at place (at q)) q node ≡ swap_at (update at place node) place q
  moved_at = rw (
    update_other at place q node ne,
    update_self at place node,
    update-update at place node (at q),
  )

  moved_link :
      update (update link (slot (at q)) (pos place)) (slot node) (pos q)
      ≡ swap_link (update at place node) (update link (slot node) (pos place)) place q
  moved_link = rw (
    update_other at place q node ne,
    update_self at place node,
    update-shadow link (slot node) (slot (at q)) (pos place) (pos place) (pos q),
  )

-- Moving another node into the gap and the gap to that node's place trades the two.
pub placed-placed :
    (t : HeapTimer) (place q : ℕ) (node : TimerNode)
    → place ≢ q
    → placed (placed t place (nodes_at t q)) q node ≡ swapped (placed t place node) place q
placed-placed t place q node ne = λ i. record t {
  heap = record t.heap { at = moved_at (nodes_at t) (link_at t) place q node ne i };
  timer_node_index_array = record t.timer_node_index_array {
    at = moved_link (nodes_at t) (link_at t) place q node ne i;
  };
}

-- Writing the same node to the same place again changes nothing.
pub placed-again :
    (t : HeapTimer) (place : ℕ) (node : TimerNode)
    → placed (placed t place node) place node ≡ placed t place node
placed-again t place node = λ i. record t {
  heap = record t.heap { at = update-update (nodes_at t) place node node i };
  timer_node_index_array = record t.timer_node_index_array {
    at = update-update (link_at t) (slot node) (pos place) (pos place) i;
  };
}

module _ (n : ℕ) (t : HeapTimer) (place : ℕ) (node : TimerNode) where
  -- The gap of `t` at `place` is for `node`.
  pub record Gap : Type 0 where
    pub sized : Sized t
    pub bound : n ≤ t.heap_size
    pub inside : place < n
    pub layout :
        Layout t.heap_size n (nodes_at (placed t place node)) (link_at (placed t place node))

  pub put_node-placed :
      place < t.heap.size
      → timer_node_index node.timer_id ≡ pos (slot node)
      → slot node < t.timer_node_index_array.size
      → put_node t place node ≡ ok (placed t place node)
  unfolding put_node
  put_node-placed h e l =
      rw (store-ok t.heap place node h, e)
        (rw (store-ok t.timer_node_index_array (slot node) (pos place) l))

  pub put_node-Settled :
      Gap
      → IsHeap n (nodes_at (placed t place node))
      → Returns (Settled n (placed t place node)) (put_node t place node)
  put_node-Settled g h =
      let here : nodes_at (placed t place node) place ≡ node =
        update_self (nodes_at t) place node in
      rw
        (put_node-placed (omega (arith, g.sized.heap, g.bound, g.inside))
          (rw here at (g.layout.named place g.inside))
          (omega (arith, g.sized.links, rw here at (g.layout.high place g.inside))))
        (returns (record {
          frame = refl;
          sized = record { heap = g.sized.heap; links = g.sized.links };
          layout = g.layout;
          ordered = h;
          nodes = λ i lo hi. refl;
          chained = λ m fs z c. c;
        }))
