-- ===== src/HeapTimer/RotateDown.antt =====
-- RotateDown restores the heap order.
use play_frame.Common.{
  ℕ, zero, suc, ◌+◌, ◌-◌, ◌*◌, ◌≤◌, ◌<◌, ◌≡◌, ◌≢◌, refl, sym, inl, inr, arith, eq_cases, Bool-cases,
  ltb, subst, ltb→lt, ltb_false→le,
}
use play_frame.Common.Run.{Returns, returns, Returns-map, Returns-bind, Returns-if}
use play_frame.Common.Array.{update_self, load-ok}
use play_frame.TimeValue.Order.{Le, Le-refl, gte, not_gte→Le, gte→Le, Le-trans}
use play_frame.HeapTimer.{
  TimerNode, HeapTimer, smaller_child, rotate_down, rotate_down_loop, get_left_child_pos,
}
use play_frame.HeapTimer.Order.{parent, Before, IsHeap, Sinking, IsSmallerChild, sink-Sinking}
use play_frame.HeapTimer.Gap.{beside, Gap-moved, put_node-beside, Settled-moved}
use play_frame.HeapTimer.Settled.{nodes_at, placed, placed-placed, Settled, Gap, put_node-Settled}

module _ (t : HeapTimer) (place : ℕ) (node : TimerNode) (g : Gap t.cur_size t place node) where
  abbrev at : ℕ → TimerNode
  at = nodes_at (placed t place node)

  here : at place ≡ node
  here = update_self (nodes_at t) place node

  -- Entries other than the gap are those of `t`.
  order_beside :
      (a b : ℕ)
      → a < t.cur_size
      → b < t.cur_size
      → place ≢ a
      → place ≢ b
      → Le (nodes_at t a).expire_time (nodes_at t b).expire_time
      → Before at a b
  order_beside a b ha hb na nb h =
      rw (beside t.cur_size t place a node g ha na, beside t.cur_size t place b node g hb nb) h

  smaller_child-IsSmallerChild :
      2 * place + 1 < t.cur_size
      → Returns (IsSmallerChild t.cur_size at place) (smaller_child t (2 * place + 1))
  unfolding smaller_child
  smaller_child-IsSmallerChild h =
      let l = 2 * place + 1 in
      Returns-if (ltb (l + 1) t.cur_size)
        (λ two.
          let r_in = ltb→lt (l + 1) t.cur_size two in
          rw
            (
              load-ok t.heap l (omega (arith, g.sized.heap, g.bound)),
              load-ok t.heap (l + 1) (omega (arith, g.sized.heap, g.bound)),
            )
            (elim (Bool-cases (gte (nodes_at t l).expire_time (nodes_at t (l + 1)).expire_time)) [
              | inl e ↦ rw e (
                  returns (record {
                    inside = r_in;
                    child = inr (omega arith);
                    least = λ c lo hi pc. elim (eq_cases c l) [
                      | inl s ↦ rw s (
                          order_beside (l + 1) l r_in h (λ x. omega arith) (λ x. omega arith)
                            (gte→Le (nodes_at t l).expire_time (nodes_at t (l + 1)).expire_time e))
                      | inr ns ↦ let s : c ≡ l + 1 = omega arith in rw s (Le-refl _)
                    ];
                  }))
              | inr e ↦ rw e (
                  returns (record {
                    inside = h;
                    child = inl refl;
                    least = λ c lo hi pc. elim (eq_cases c l) [
                      | inl s ↦ rw s (Le-refl _)
                      | inr ns ↦
                          let s : c ≡ l + 1 = omega arith in
                          rw s (
                            order_beside l (l + 1) h r_in (λ x. omega arith) (λ x. omega arith)
                              (not_gte→Le (nodes_at t l).expire_time
                                (nodes_at t (l + 1)).expire_time e))
                    ];
                  }))
            ]))
        (λ one.
          let out = ltb_false→le (l + 1) t.cur_size one in
          returns (record {
            inside = h;
            child = inl refl;
            least = λ c lo hi pc. let s : c ≡ l = omega arith in rw s (Le-refl _);
          }))

  module _ (v : Sinking t.cur_size at place) where
    -- Nothing below the gap.
    no_child : t.cur_size ≤ 2 * place + 1 → IsHeap t.cur_size at
    no_child h c lo hi = v.edges c lo hi (λ e. omega arith)

    module _ (m : ℕ) (s : IsSmallerChild t.cur_size at place m) where
      apart : place ≢ m
      apart e = omega (arith, s.child)

      -- The node is earlier than its children.
      settled : Le node.expire_time (nodes_at t m).expire_time → IsHeap t.cur_size at
      settled h c lo hi = elim (eq_cases (parent c) place) [
        | inl e ↦
            rw (e, here)
              (Le-trans node.expire_time (nodes_at t m).expire_time (at c).expire_time h
                (rw (beside t.cur_size t place m node g s.inside apart) at (s.least c lo hi e)))
        | inr ne ↦ v.edges c lo hi ne
      ]

      sink_on :
          Le (nodes_at t m).expire_time node.expire_time
          → Sinking t.cur_size (nodes_at (placed (placed t place (nodes_at t m)) m node)) m
      sink_on h =
          subst (λ p. Sinking t.cur_size (nodes_at p) m) (sym (placed-placed t place m node apart))
            (sink-Sinking t.cur_size at place m v s
              (rw (here, beside t.cur_size t place m node g s.inside apart) h))

rotate_down_loop-Settled :
    (k : ℕ) (t : HeapTimer) (place : ℕ) (node : TimerNode)
    → t.cur_size - place < k
    → (g : Gap t.cur_size t place node) → Sinking t.cur_size (nodes_at (placed t place node)) place
    → Returns
        (Settled t.cur_size (placed t place node))
        (rotate_down_loop k t node place (2 * place + 1))
unfolding rotate_down_loop
rotate_down_loop-Settled zero t place node f g v = absurd (omega arith)
rotate_down_loop-Settled (suc k) t place node f g v =
    Returns-if (ltb (2 * place + 1) t.cur_size)
      (λ more. Returns-bind (smaller_child-IsSmallerChild t place node g (ltb→lt _ _ more)) λ m s.
        let x = nodes_at t m in
        let ne = apart t place node g v m s in
        rw (load-ok t.heap m (omega (arith, g.sized.heap, g.bound, s.inside))) (
          Returns-if (gte node.expire_time x.expire_time)
            (λ late.
              let le = gte→Le node.expire_time x.expire_time late in
              rw (put_node-beside t.cur_size t place m node g s.inside ne) (
                Returns-map
                  (rotate_down_loop-Settled k (placed t place x) m node
                    (omega (arith, s.child, s.inside))
                    (Gap-moved t.cur_size t place m node g s.inside ne)
                    (sink_on t place node g v m s le))
                  (λ t' r. Settled-moved t.cur_size t place m node g s.inside ne r)))
            (λ early.
              put_node-Settled t.cur_size t place node g
                (settled t place node g v m s (not_gte→Le node.expire_time x.expire_time early)))))
      (λ none.
        put_node-Settled t.cur_size t place node g
          (no_child t place node g v (ltb_false→le _ _ none)))

-- RotateDown of a node that may be too high in the heap.
pub rotate_down-Settled :
    (t : HeapTimer) (place : ℕ) (node : TimerNode)
    → Gap t.cur_size t place node
    → Sinking t.cur_size (nodes_at (placed t place node)) place
    → Returns
        (Settled t.cur_size (placed t place node))
        (rotate_down t node place (get_left_child_pos place))
unfolding rotate_down
rotate_down-Settled t place node g v =
    rotate_down_loop-Settled (t.cur_size + 1) t place node (omega arith) g v
