-- ===== src/HeapTimer/Insert.antt =====
-- The heap and the index array with one more node, or with more room.
use play_frame.Common.{
  ℕ, suc, ◌+◌, ◌*◌, ◌≤◌, ◌<◌, ◌≡◌, ◌≢◌, refl, sym, ap, ◌∙◌, subst, List, [], ◌∷◌, ◌++◌, length, All,
  Distinct, arith, some, ltb, if◌then◌else◌, lt→ltb, eq_cases, inl, inr,
}
use play_frame.Common.Int.{ℤ, pos, negsuc, neg, pos-injective}
use play_frame.Common.Array.{update, update_self, update_other}
use play_frame.ShmPool.FreeList.{Chain}
use play_frame.HeapTimer.{TimerNode, timer_node_index}
use play_frame.HeapTimer.Layout.{slot, Layout, node_of, entry}
use play_frame.HeapTimer.Order.{IsHeap, Rising, parent}

module _ (size n : ℕ) (at : ℕ → TimerNode) (link : ℕ → ℤ) (v : Layout size n at link) where
  -- The index of a node is not free.
  pub slot_taken : (x m p : ℕ) → link x ≡ negsuc m → p < n → slot (at p) ≢ x
  slot_taken x m p free h e = let l = v.linked p h in let l' : link x ≡ pos p = rw (← e) l in cc

  module _ (x m : ℕ) (node : TimerNode) (free : link x ≡ negsuc m) (low : 0 < x) (high : x < size)
      (named : timer_node_index node.timer_id ≡ pos x) (here : slot node ≡ x) where
    last : update at n node n ≡ node
    last = update_self at n node

    earlier : (p : ℕ) → p < n → update at n node p ≡ at p
    earlier p h = update_other at n p node (λ e. omega arith)

    pub insert-all :
        (P : TimerNode → Type 0)
        → P node
        → ((p : ℕ) → p < n → P (at p))
        → (p : ℕ) → p < n + 1
        → P (update at n node p)
    insert-all P last_one all p h = elim (eq_cases p n) [
      | inl e ↦ rw (e, last) last_one
      | inr ne ↦ subst P (sym (earlier p (omega arith))) (all p (omega arith))
    ]

    -- A node with a free index joins behind the others.
    pub insert-Layout : Layout size (n + 1) (update at n node) (update link (slot node) (pos n))
    insert-Layout = record {
      named = insert-all (λ y. timer_node_index y.timer_id ≡ pos (slot y)) (rw here named) v.named;
      low = insert-all (λ y. 0 < slot y) (rw here low) v.low;
      high = insert-all (λ y. slot y < size) (rw here high) v.high;
      linked = λ p h. elim (eq_cases p n) [
        | inl e ↦ rw (e, last) (update_self link (slot node) (pos n))
        | inr ne ↦
            let q : p < n = omega arith in
            rw
              (
                earlier p q,
                here,
                update_other link x (slot (at p)) (pos n) (λ e. slot_taken x m p free q (sym e)),
              )
              (v.linked p q)
      ];
      back = λ i p lo hi e. elim (eq_cases x i) [
        | inl s ↦
            let e' : pos n ≡ pos p = sym (update_self link x (pos n)) ∙ rw (here, ← s) at e in
            let q : n ≡ p = pos-injective e' in (omega arith, rw (← q, last, here) s)
        | inr ne ↦
            let e' : link i ≡ pos p = sym (update_other link x i (pos n) ne) ∙ rw (here) at e in
            let b = v.back i p lo hi e' in (omega (arith, b.0), rw (earlier p b.0) b.1)
      ];
    }

    pub insert-node : node_of (update at n node) (update link (slot node) (pos n)) x ≡ some node
    insert-node = rw (here, update_self link x (pos n)) (ap some last)

    kept : (i : ℕ) (z : ℤ) → link i ≡ z → 0 < i → i < size → entry (update at n node) z ≡ entry at z
    kept i (negsuc k) e lo hi = refl
    kept i (pos p) e lo hi = ap some (earlier p (v.back i p lo hi e).0)

    pub insert-others :
        (i : ℕ)
        → 0 < i
        → i < size
        → i ≢ x
        → node_of (update at n node) (update link (slot node) (pos n)) i ≡ node_of at link i
    insert-others i lo hi ne =
        rw (here, update_other link x i (pos n) (λ e. ne (sym e))) (kept i (link i) refl lo hi)

-- Behind a heap only the new edge may be out of order.
pub IsHeap-Rising :
    (n : ℕ) (at : ℕ → TimerNode) (node : TimerNode)
    → IsHeap n at
    → Rising (n + 1) (update at n node) n
IsHeap-Rising n at node h = record {
  inside = omega arith;
  edges = λ c lo hi ne.
      let old = λ (p : ℕ) (q : p < n). update_other at n p node (λ e. omega arith) in
      rw (old c (omega arith), old (parent c) (omega arith)) (h c lo (omega arith));
  bridged = λ c lo hi e below. absurd (omega arith);
}

-- The index array with twice as many places.
abbrev pub grown_link : ℕ → (ℕ → ℤ) → ℕ → ℤ
grown_link size link i = if ltb i size then link i else negsuc i

module _ (size : ℕ) (link : ℕ → ℤ) where
  pub grown_link-old : (i : ℕ) → i < size → grown_link size link i ≡ link i
  grown_link-old i h = rw (lt→ltb i size h)

  pub grown_link-new : (i : ℕ) → size ≤ i → grown_link size link i ≡ negsuc i
  grown_link-new i h = ground arith

  pub grow-Layout :
      (n : ℕ) (at : ℕ → TimerNode)
      → Layout size n at link
      → Layout (2 * size) n at (grown_link size link)
  grow-Layout n at v = record {
    named = v.named;
    low = v.low;
    high = λ p h. omega (arith, v.high p h);
    linked = λ p h. rw (grown_link-old (slot (at p)) (v.high p h)) (v.linked p h);
    back = λ i p lo hi e. elim (eq_cases (if ltb i size then 1 else 0) 1) [
      | inl s ↦ let q : i < size = ground arith in v.back i p lo q (sym (grown_link-old i q) ∙ e)
      | inr ne ↦ absurd (ground arith)
    ];
  }

-- Two free lists, one behind the other.
pub Chain-append :
    (link link' : ℕ → ℤ) (n m : ℕ) (xs ys : List ℕ) (z : ℤ)
    → n ≤ m
    → ((i : ℕ) → i ≤ n → link' i ≡ link i)
    → Chain link' m ys (pos (suc n))
    → Chain link n xs z
    → Chain link' m (xs ++ ys) z
Chain-append link link' n m [] ys z le same d c = rw c d
Chain-append link link' n m (x ∷ xs) ys z le same d c = (
  c.0,
  c.1,
  omega (arith, c.2),
  rw (same x c.2) (Chain-append link link' n m xs ys (neg (link x)) le same d c.3),
)

pub length-append : (xs ys : List ℕ) → length (xs ++ ys) ≡ length xs + length ys
length-append [] ys = omega arith
length-append (x ∷ xs) ys = omega (arith, length-append xs ys)

All-append : (P : ℕ → Type 0) (xs ys : List ℕ) → All P xs → All P ys → All P (xs ++ ys)
All-append P [] ys a b = b
All-append P (x ∷ xs) ys a b = (a.0, All-append P xs ys a.1 b)

pub avoids-append :
    (x : ℕ) (xs ys : List ℕ)
    → All (λ y. y ≢ x) xs
    → All (λ y. y ≢ x) ys
    → All (λ y. y ≢ x) (xs ++ ys)
avoids-append x xs ys = All-append (λ y. y ≢ x) xs ys

-- A free list, and places beyond it.
pub Distinct-append :
    (link : ℕ → ℤ) (n : ℕ) (xs ys : List ℕ) (z : ℤ)
    → Chain link n xs z
    → Distinct xs
    → Distinct ys
    → ((x : ℕ) → x ≤ n → All (λ y. y ≢ x) ys)
    → Distinct (xs ++ ys)
Distinct-append link n [] ys z c d e above = e
Distinct-append link n (x ∷ xs) ys z c d e above = (
  avoids-append x xs ys d.0 (above x c.2),
  Distinct-append link n xs ys (neg (link x)) c.3 d.1 e above,
)
