-- ===== src/HeapTimer/Order.antt =====
-- The heap order, and that it survives one round of RotateUp and of RotateDown.
use play_frame.Common.{
  ℕ, zero, suc, ◌+◌, ◌-◌, ◌*◌, ◌/◌, ◌<◌, ◌≡◌, ◌≢◌, sym, ◌⊎◌, inl, inr, arith, eq_cases, ◌∙◌,
}
use play_frame.TimeValue.Order.{Le, Le-refl, Le-trans}
use play_frame.HeapTimer.{TimerNode}
use play_frame.HeapTimer.Layout.{swap_at, swap_at-cases, swap_at-first}
use play_frame.Common.Array.{update_self, update}

-- GetParentPos, without its test.
abbrev pub parent : ℕ → ℕ
parent c = (c - 1) / 2

-- The node at `p` expires no later than the one at `c`.
abbrev pub Before : (ℕ → TimerNode) → ℕ → ℕ → Type 0
Before at p c = Le (at p).expire_time (at c).expire_time

-- No node expires before its parent.
abbrev pub IsHeap : ℕ → (ℕ → TimerNode) → Type 0
IsHeap n at = (c : ℕ) → 0 < c → c < n → Before at (parent c) c

-- The children of `i` expire no earlier than its parent.
abbrev pub IsBridged : ℕ → (ℕ → TimerNode) → ℕ → Type 0
IsBridged n at i = (c : ℕ) → 0 < c → c < n → parent c ≡ i → 0 < i → Before at (parent i) c

-- Only the edge above `i` may be out of order.
pub record Rising (n : ℕ) (at : ℕ → TimerNode) (i : ℕ) : Type 0 where
  pub inside : i < n
  pub edges : (c : ℕ) → 0 < c → c < n → c ≢ i → Before at (parent c) c
  pub bridged : IsBridged n at i

-- Only the edges below `i` may be out of order.
pub record Sinking (n : ℕ) (at : ℕ → TimerNode) (i : ℕ) : Type 0 where
  pub edges : (c : ℕ) → 0 < c → c < n → parent c ≢ i → Before at (parent c) c
  pub bridged : IsBridged n at i

-- The first and the last node of a heap.
root_first_below :
    (k n : ℕ) (at : ℕ → TimerNode) (i : ℕ) → IsHeap n at → i < k → i < n → Before at 0 i
root_first_below zero n at i h f p = absurd (omega arith)
root_first_below (suc k) n at i h f p = elim (eq_cases i 0) [
  | inl e ↦ rw e (Le-refl _)
  | inr ne ↦
      Le-trans _ (at (parent i)).expire_time _
        (root_first_below k n at (parent i) h (omega arith) (omega arith)) (h i (omega arith) p)
]

-- The root of a heap expires first.
pub root_first : (n : ℕ) (at : ℕ → TimerNode) (i : ℕ) → IsHeap n at → i < n → Before at 0 i
root_first n at i h p = root_first_below (suc i) n at i h (omega arith) p

module _ (n : ℕ) (at : ℕ → TimerNode) where
  -- What stands at the places after a trade, as a Before.
  module _ (i q : ℕ) (ne : i ≢ q) where
    abbrev traded : ℕ → TimerNode
    traded = swap_at at i q

    at_i : traded i ≡ at q
    at_i = swap_at-first at i q ne

    at_q : traded q ≡ at i
    at_q = update_self (update at i (at q)) q (at i)

    at_other : (r : ℕ) → r ≢ i → r ≢ q → traded r ≡ at r
    at_other r ni nq = elim (swap_at-cases at i q r) [
      | inl (e, _) ↦ absurd (nq (sym e))
      | inr (inl (e, _)) ↦ absurd (ni (sym e))
      | inr (inr (_, _, e)) ↦ e
    ]

    -- Two entries after the trade are in order if the two that they were are.
    before :
        (a b : ℕ) {x y : TimerNode}
        → traded a ≡ x
        → traded b ≡ y
        → Le x.expire_time y.expire_time
        → Before traded a b
    before a b e f h = rw (e, f) h

  module _ (i : ℕ) (v : Rising n at i) (below_root : 0 < i) (early : Before at i (parent i)) where
    ne : i ≢ parent i
    ne e = omega arith

    abbrev q : ℕ
    q = parent i

    pub rise-Rising : Rising n (swap_at at i (parent i)) (parent i)
    rise-Rising = record {
      inside = omega (arith, v.inside);
      edges = λ c lo hi nc. elim (eq_cases c i) [
        | inl e ↦ rw e (before i q ne q i (at_q i q ne) (at_i i q ne) early)
        | inr ni ↦ elim (eq_cases (parent c) i) [
          | inl e ↦ rw e (
              before i q ne i c (at_i i q ne) (at_other i q ne c ni nc)
                (v.bridged c lo hi e below_root))
          | inr np ↦ elim (eq_cases (parent c) q) [
            | inl e ↦ rw e (
                before i q ne q c (at_q i q ne) (at_other i q ne c ni nc)
                  (Le-trans _ (at q).expire_time _ early (rw e at (v.edges c lo hi ni))))
            | inr nq ↦
                before i q ne (parent c) c (at_other i q ne (parent c) np nq)
                  (at_other i q ne c ni nc) (v.edges c lo hi ni)
          ]
        ]
      ];
      bridged = λ c lo hi e pos_q.
          let above = v.edges q pos_q (omega (arith, v.inside)) (λ s. omega arith) in
          let top = at_other i q ne (parent q) (λ s. omega arith) (λ s. omega arith) in
          elim (eq_cases c i) [
            | inl s ↦ rw s (before i q ne (parent q) i top (at_i i q ne) above)
            | inr ni ↦
                before i q ne (parent q) c top (at_other i q ne c ni (λ s. omega arith))
                  (Le-trans _ (at q).expire_time _ above (rw e at (v.edges c lo hi ni)))
          ];
    }

  -- `m` is a child of `i`, and no child of `i` expires before it.
  pub record IsSmallerChild (i m : ℕ) : Type 0 where
    pub inside : m < n
    pub child : (m ≡ 2 * i + 1) ⊎ (m ≡ 2 * i + 2)
    pub least : (c : ℕ) → 0 < c → c < n → parent c ≡ i → Before at m c

  module _ (i m : ℕ) (v : Sinking n at i) (s : IsSmallerChild i m) (late : Before at m i) where
    apart : i ≢ m
    apart e = omega (arith, s.child)

    above_m : parent m ≡ i
    above_m = omega (arith, s.child)

    pub sink-Sinking : Sinking n (swap_at at i m) m
    sink-Sinking = record {
      edges = λ c lo hi nm. elim (eq_cases c i) [
        | inl e ↦
            let pi : 0 < i = omega arith in
            rw e (
              before i m apart (parent i) i
                (at_other i m apart (parent i) (λ x. omega arith) (λ x. omega (arith, s.child)))
                (at_i i m apart) (v.bridged m (omega (arith, s.child)) s.inside above_m pi))
        | inr ni ↦ elim (eq_cases c m) [
          | inl e ↦ rw (e, above_m) (before i m apart i m (at_i i m apart) (at_q i m apart) late)
          | inr nc ↦ elim (eq_cases (parent c) i) [
            | inl e ↦ rw e (
                before i m apart i c (at_i i m apart) (at_other i m apart c ni nc)
                  (s.least c lo hi e))
            | inr np ↦
                before i m apart (parent c) c (at_other i m apart (parent c) np nm)
                  (at_other i m apart c ni nc) (v.edges c lo hi np)
          ]
        ]
      ];
      bridged = λ c lo hi e pm. rw above_m (
          before i m apart i c (at_i i m apart)
            (at_other i m apart c (λ x. omega (arith, s.child)) (λ x. omega (arith, s.child)))
            (rw e at (v.edges c lo hi (λ x. apart (sym x ∙ e)))));
    }
