-- ===== src/HeapTimer/Delete.antt =====
-- The heap and the index array without one of the nodes, whose place the last node takes.
use play_frame.Common.{
  ℕ, ◌+◌, ◌<◌, ◌≡◌, ◌≢◌, refl, sym, ap, ◌∙◌, inl, inr, none, some, arith, eq_cases,
}
use play_frame.Common.Int.{ℤ, pos, negsuc, pos-injective}
use play_frame.Common.Array.{update, update_self, update_other}
use play_frame.TimeValue.Order.{Le, Le-trans}
use play_frame.HeapTimer.{TimerNode, timer_node_index}
use play_frame.HeapTimer.Layout.{slot, Layout, node_of, entry, slot-injective}
use play_frame.HeapTimer.Order.{IsHeap, Rising, Sinking, parent, Before}

module _ (size n : ℕ) (at : ℕ → TimerNode) (link : ℕ → ℤ) (v : Layout size (n + 1) at link)
    (place k : ℕ) where
  -- The index array once the node at `place` has left.
  abbrev pub unlinked : ℕ → ℤ
  unlinked = update link (slot (at place)) (negsuc k)

  apart : (p q : ℕ) → p < n + 1 → q < n + 1 → p ≢ q → slot (at p) ≢ slot (at q)
  apart p q hp hq ne e = ne (slot-injective size (n + 1) at link v p q hp hq e)

  unlinked-other : (i : ℕ) → slot (at place) ≢ i → unlinked i ≡ link i
  unlinked-other i ne = update_other link (slot (at place)) i (negsuc k) ne

  pub unlinked_self : unlinked (slot (at place)) ≡ negsuc k
  unlinked_self = update_self link (slot (at place)) (negsuc k)

  pub unlinked-linked :
      (p : ℕ) → p < n + 1 → place < n + 1 → place ≢ p → unlinked (slot (at p)) ≡ pos p
  unlinked-linked p h hp ne = unlinked-other (slot (at p)) (apart place p hp h ne) ∙ v.linked p h

  unlinked-back :
      (i p : ℕ)
      → 0 < i
      → i < size
      → unlinked i ≡ pos p
      → (slot (at place) ≢ i) × (p < n + 1) × (slot (at p) ≡ i)
  unlinked-back i p lo hi e = elim (eq_cases (slot (at place)) i) [
    | inl s ↦ let u : unlinked i ≡ negsuc k = rw (← s) unlinked_self in absurd (cc)
    | inr ne ↦ let b = v.back i p lo hi (sym (unlinked-other i ne) ∙ e) in (ne, b.0, b.1)
  ]

  -- The last node leaves.
  pub drop-Layout : place ≡ n → Layout size n at unlinked
  drop-Layout last = record {
    named = λ p h. v.named p (omega arith);
    low = λ p h. v.low p (omega arith);
    high = λ p h. v.high p (omega arith);
    linked = λ p h. unlinked-linked p (omega arith) (omega arith) (λ e. omega arith);
    back = λ i p lo hi e.
        let (ne, b, s) = unlinked-back i p lo hi e in
        let other : p ≢ n = λ q. ne (rw (last, ← q) s) in (omega arith, s);
  }

  pub drop-others : (i : ℕ) → slot (at place) ≢ i → node_of at unlinked i ≡ node_of at link i
  drop-others i ne = ap (entry at) (unlinked-other i ne)

  module _ (inner : place < n) where
    -- Both arrays once the last node has taken the place.
    abbrev pub moved_at : ℕ → TimerNode
    moved_at = update at place (at n)

    abbrev pub moved_link : ℕ → ℤ
    moved_link = update unlinked (slot (at n)) (pos place)

    at_place : moved_at place ≡ at n
    at_place = update_self at place (at n)

    at_other : (p : ℕ) → p ≢ place → moved_at p ≡ at p
    at_other p ne = update_other at place p (at n) (λ e. ne (sym e))

    pub moved-all :
        (P : TimerNode → Type 0)
        → ((p : ℕ) → p < n + 1 → place ≢ p → P (at p))
        → (p : ℕ) → p < n
        → P (moved_at p)
    moved-all P all p h = elim (eq_cases p place) [
      | inl e ↦ rw (e, at_place) (all n (omega arith) (λ s. omega arith))
      | inr ne ↦ rw (at_other p ne) (all p (omega arith) (λ s. ne (sym s)))
    ]

    pub moved-Layout : Layout size n moved_at moved_link
    moved-Layout = record {
      named = moved-all (λ y. timer_node_index y.timer_id ≡ pos (slot y)) (λ p h ne. v.named p h);
      low = moved-all (λ y. 0 < slot y) (λ p h ne. v.low p h);
      high = moved-all (λ y. slot y < size) (λ p h ne. v.high p h);
      linked = λ p h. elim (eq_cases p place) [
        | inl e ↦ rw (e, at_place) (update_self unlinked (slot (at n)) (pos place))
        | inr ne ↦ rw (at_other p ne) (
            update_other unlinked (slot (at n)) (slot (at p)) (pos place)
              (apart n p (omega arith) (omega arith) (λ e. omega arith))
            ∙ unlinked-linked p (omega arith) (omega arith) (λ s. ne (sym s)))
      ];
      back = λ i p lo hi e. elim (eq_cases (slot (at n)) i) [
        | inl s ↦
            let l : moved_link i ≡ pos place =
              rw (← s) (update_self unlinked (slot (at n)) (pos place)) in
            let q : place ≡ p = pos-injective (sym l ∙ e) in rw (← q) (inner, ap slot at_place ∙ s)
        | inr nn ↦
            let (np, b, s) =
              unlinked-back i p lo hi
                (sym (update_other unlinked (slot (at n)) i (pos place) nn) ∙ e) in
            let not_n : p ≢ n = λ q. nn (rw (← q) s) in
            let not_place : p ≢ place = λ q. np (rw (← q) s) in
            (omega arith, ap slot (at_other p not_place) ∙ s)
      ];
    }

    moved-entry :
        (i : ℕ) (z : ℤ)
        → link i ≡ z
        → 0 < i
        → i < size
        → slot (at place) ≢ i
        → entry moved_at z ≡ entry at z
    moved-entry i (negsuc m) e lo hi ne = refl
    moved-entry i (pos p) e lo hi ne =
        let b = v.back i p lo hi e in ap some (at_other p (λ q. ne (rw (← q) b.1)))

    -- Every other timer keeps its node.
    pub moved-others :
        (i : ℕ)
        → 0 < i
        → i < size
        → slot (at place) ≢ i
        → node_of moved_at moved_link i ≡ node_of at link i
    moved-others i lo hi ne = elim (eq_cases (slot (at n)) i) [
      | inl s ↦
          rw (← s, update_self unlinked (slot (at n)) (pos place), v.linked n (omega arith))
            (ap some at_place)
      | inr nn ↦
          rw (update_other unlinked (slot (at n)) i (pos place) nn, unlinked-other i ne)
            (moved-entry i (link i) refl lo hi ne)
    ]

    pub moved-absent : node_of moved_at moved_link (slot (at place)) ≡ none
    moved-absent =
        rw
          (
            update_other unlinked (slot (at n)) (slot (at place)) (pos place)
                (apart n place (omega arith) (omega arith) (λ e. omega arith)),
            unlinked_self,
          )
          refl

    module _ (h : IsHeap (n + 1) at) where
      over : (c : ℕ) → 0 < c → c < n → parent c ≡ place → 0 < place → Before at (parent place) c
      over c lo hi e below =
          Le-trans _ (at place).expire_time _ (h place below (omega arith))
            (rw e at (h c lo (omega arith)))

      bridge :
          (c : ℕ) → 0 < c → c < n → parent c ≡ place → 0 < place → Before moved_at (parent place) c
      bridge c lo hi e below =
          rw (at_other (parent place) (λ q. omega arith), at_other c (λ q. omega arith))
            (over c lo hi e below)

      -- The last node is no earlier than the parent.
      pub moved-Sinking :
          (0 < place → Le (at (parent place)).expire_time (at n).expire_time)
          → Sinking n moved_at place
      moved-Sinking late = record {
        edges = λ c lo hi np. elim (eq_cases c place) [
          | inl e ↦
              let below : 0 < place = omega arith in
              rw (e, at_place, at_other (parent place) (λ q. omega arith)) (late below)
          | inr nc ↦ rw (at_other c nc, at_other (parent c) np) (h c lo (omega arith))
        ];
        bridged = bridge;
      }

      -- The last node is no later than the parent.
      pub moved-Rising :
          0 < place
          → Le (at n).expire_time (at (parent place)).expire_time
          → Rising n moved_at place
      moved-Rising below early = record {
        inside = inner;
        edges = λ c lo hi nc. elim (eq_cases (parent c) place) [
          | inl e ↦
              rw (e, at_place, at_other c nc)
                (Le-trans _ (at (parent place)).expire_time _ early (over c lo hi e below))
          | inr np ↦ rw (at_other c nc, at_other (parent c) np) (h c lo (omega arith))
        ];
        bridged = bridge;
      }
