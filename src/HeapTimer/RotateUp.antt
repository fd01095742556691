-- ===== src/HeapTimer/RotateUp.antt =====
-- RotateUp restores the heap order.
use play_frame.Common.{
  not-true, not-false, ltb→lt, ℕ, zero, suc, ◌+◌, ◌<◌, ◌≡◌, ◌≢◌, sym, inl, inr, arith, eq_cases,
  ltb, subst, not,
}
use play_frame.Common.Run.{Returns, Returns-map, Returns-if}
use play_frame.Common.Array.{update_self, load-ok}
use play_frame.TimeValue.Order.{Le, gte, not_gte→Le, gte→Le}
use play_frame.HeapTimer.{TimerNode, HeapTimer, rotate_up, rotate_up_loop, get_parent_pos}
use play_frame.HeapTimer.Order.{parent, Before, IsHeap, Rising, rise-Rising}
use play_frame.HeapTimer.Gap.{beside, Gap-moved, put_node-beside, Settled-moved}
use play_frame.HeapTimer.Settled.{nodes_at, placed, placed-placed, Settled, Gap, put_node-Settled}

pub get_parent_pos-parent : (c : ℕ) → get_parent_pos c ≡ parent c
get_parent_pos-parent c = ground arith

module _ (n : ℕ) (t : HeapTimer) (place : ℕ) (node : TimerNode) (g : Gap n t place node)
    (v : Rising n (nodes_at (placed t place node)) place) where
  here : nodes_at (placed t place node) place ≡ node
  here = update_self (nodes_at t) place node

  module _ (below_root : 0 < place) where
    above : parent place < n
    above = omega (arith, g.inside)

    ne : place ≢ parent place
    ne e = omega arith

    early-Before :
        Le node.expire_time (nodes_at t (parent place)).expire_time
        → Before (nodes_at (placed t place node)) place (parent place)
    early-Before h = rw (here, beside n t place (parent place) node g above ne) h

    rise_on :
        Le node.expire_time (nodes_at t (parent place)).expire_time
        → Rising n
            (nodes_at (placed (placed t place (nodes_at t (parent place))) (parent place) node))
            (parent place)
    rise_on h =
        subst (λ p. Rising n (nodes_at p) (parent place))
          (sym (placed-placed t place (parent place) node ne))
          (rise-Rising n (nodes_at (placed t place node)) place v below_root (early-Before h))

    settled :
        Le (nodes_at t (parent place)).expire_time node.expire_time
        → IsHeap n (nodes_at (placed t place node))
    settled h c lo hi = elim (eq_cases c place) [
      | inl e ↦ rw (e, here, beside n t place (parent place) node g above ne) h
      | inr nc ↦ v.edges c lo hi nc
    ]

  at_root : place ≡ 0 → IsHeap n (nodes_at (placed t place node))
  at_root e c lo hi = v.edges c lo hi (λ s. omega arith)

rotate_up_loop-Settled :
    (k n : ℕ) (t : HeapTimer) (place : ℕ) (node : TimerNode)
    → place < k
    → Gap n t place node
    → Rising n (nodes_at (placed t place node)) place
    → Returns (Settled n (placed t place node)) (rotate_up_loop k t node place (parent place))
unfolding rotate_up_loop
rotate_up_loop-Settled zero n t place node f g v = absurd (omega arith)
rotate_up_loop-Settled (suc k) n t place node f g v =
    let q = parent place in
    let x = nodes_at t q in
    rw (load-ok t.heap (parent place) (omega (arith, g.sized.heap, g.bound, g.inside))) (
      Returns-if (ltb 0 place)
        (λ below.
          let below_root = ltb→lt 0 place below in
          let inside = above n t place node g v below_root in
          let ne = ne n t place node g v below_root in
          Returns-if (not (gte node.expire_time x.expire_time))
            (λ early.
              let le = not_gte→Le node.expire_time x.expire_time (not-true _ early) in
              rw (put_node-beside n t place q node g inside ne, get_parent_pos-parent q)
                (Returns-map
                  (rotate_up_loop-Settled k n (placed t place x) q node (omega arith)
                    (Gap-moved n t place q node g inside ne)
                    (rise_on n t place node g v below_root le))
                  (λ t' s. Settled-moved n t place q node g inside ne s)))
            (λ late. put_node-Settled n t place node g (
              settled n t place node g v below_root
                (gte→Le node.expire_time x.expire_time (not-false _ late)))))
        (λ root. put_node-Settled n t place node g (at_root n t place node g v (ground arith))))

-- RotateUp of a node that may be too low in the heap.
pub rotate_up-Settled :
    (n : ℕ) (t : HeapTimer) (place : ℕ) (node : TimerNode)
    → Gap n t place node
    → Rising n (nodes_at (placed t place node)) place
    → Returns (Settled n (placed t place node)) (rotate_up t node place (get_parent_pos place))
unfolding rotate_up
rotate_up-Settled n t place node g v =
    rw (get_parent_pos-parent place)
      (rotate_up_loop-Settled (place + 1) n t place node (omega arith) g v)
