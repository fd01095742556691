-- ===== src/HeapTimer/Repeat.antt =====
-- A timer that starts again: its node goes down from the root with a later time.
use play_frame.Common.{
  ℕ, ◌-◌, ◌<◌, ◌≡◌, ◌≢◌, refl, sym, ap, ◌∙◌, subst, inl, inr, some, arith, eq_cases, List,
}
use play_frame.Common.Int.{pos, ℤ, negsuc}
use play_frame.Common.Run.{Returns, Returns-map}
use play_frame.Common.Array.{update_self, update_other}
use play_frame.TimeValue.{TimeValue}
use play_frame.ShmPool.FreeList.{Chain-update, Chain-avoids}
use play_frame.HeapTimer.{TimerNode, HeapTimer, rotate_down, get_left_child_pos, timer_node_index}
use play_frame.HeapTimer.Layout.{slot, slot-named, Layout, entry}
use play_frame.HeapTimer.Order.{Sinking, parent}
use play_frame.HeapTimer.Settled.{nodes_at, link_at, placed, Settled, Gap}
use play_frame.HeapTimer.RotateDown.{rotate_down-Settled}
use play_frame.HeapTimer.Invariant.{HasId, Held, IsValid, timer_at, Settled-all}

-- The timer `x` of `t` has the node `node` instead of its own.
pub record Changed (t : HeapTimer) (x : ℕ) (node : TimerNode) (t' : HeapTimer) : Type 0 where
  pub present : timer_at t' x ≡ some node
  pub others : (i : ℕ) → 0 < i → i < t.heap_size → i ≢ x → timer_at t' i ≡ timer_at t i
  pub count : t'.cur_size ≡ t.cur_size
  pub size : t'.heap_size ≡ t.heap_size
  pub valid : IsValid t'

module _ (t : HeapTimer) (fs : List ℕ) (v : Held t fs) (more : 0 < t.cur_size) (e : TimeValue) where
  abbrev node : TimerNode
  node = record (nodes_at t 0) { expire_time = e }

  abbrev x : ℕ
  x = slot (nodes_at t 0)

  here : slot node ≡ x
  here = slot-named node x (v.layout.named 0 more)

  abbrev t1 : HeapTimer
  t1 = placed t 0 node

  placed-node : nodes_at t1 0 ≡ node
  placed-node = update_self (nodes_at t) 0 node

  placed-other : (p : ℕ) → p ≢ 0 → nodes_at t1 p ≡ nodes_at t p
  placed-other p ne = update_other (nodes_at t) 0 p node (λ q. ne (sym q))

  same_link : (i : ℕ) → link_at t1 i ≡ link_at t i
  same_link i = elim (eq_cases (slot node) i) [
    | inl q ↦
        rw (← q) (update_self (link_at t) (slot node) (pos 0))
        ∙ sym (v.layout.linked 0 more)
        ∙ ap (link_at t) (sym here ∙ q)
    | inr ne ↦ update_other (link_at t) (slot node) i (pos 0) ne
  ]

  same_slot : (p : ℕ) → slot (nodes_at t1 p) ≡ slot (nodes_at t p)
  same_slot p = elim (eq_cases p 0) [
    | inl q ↦ rw (q, placed-node) here
    | inr ne ↦ rw (placed-other p ne) refl
  ]

  -- What holds of every node, and of the new one, holds of every node now.
  placed-all :
      (P : TimerNode → Type 0)
      → P node
      → ((p : ℕ) → p < t.cur_size → P (nodes_at t p))
      → (p : ℕ) → p < t.cur_size
      → P (nodes_at t1 p)
  placed-all P new all p h = elim (eq_cases p 0) [
    | inl q ↦ rw (q, placed-node) new
    | inr ne ↦ rw (placed-other p ne) (all p h)
  ]

  layout : Layout t.heap_size t.cur_size (nodes_at t1) (link_at t1)
  layout = record {
    named = λ p h.
        placed-all (λ y. timer_node_index y.timer_id ≡ pos (slot y))
          (rw here (v.layout.named 0 more)) v.layout.named p h;
    low = λ p h. rw (same_slot p) (v.layout.low p h);
    high = λ p h. rw (same_slot p) (v.layout.high p h);
    linked = λ p h. rw (same_slot p, same_link (slot (nodes_at t p))) (v.layout.linked p h);
    back = λ i p lo hi l.
        let b = v.layout.back i p lo hi (sym (same_link i) ∙ l) in (b.0, same_slot p ∙ b.1);
  }

  ids : (p : ℕ) → p < t.cur_size → HasId t.rand_array.at (nodes_at t1 p)
  ids =
      placed-all (HasId t.rand_array.at)
        (let d = v.ids 0 more in
          record { number = d.number; id = rw here d.id; known = rw here d.known; small = d.small })
        v.ids

  sinking : Sinking t.cur_size (nodes_at t1) 0
  sinking = record {
    edges = λ c lo hi ne.
        rw (placed-other c (λ q. omega arith), placed-other (parent c) ne) (v.ordered c lo hi);
    bridged = λ c lo hi q below. absurd (omega arith);
  }

  gap : Gap t.cur_size t 0 node
  gap = record { sized = v.sized; bound = omega (arith, v.room); inside = more; layout = layout }

  kept :
      (i : ℕ) (z : ℤ)
      → link_at t i ≡ z
      → 0 < i
      → i < t.heap_size
      → i ≢ x
      → entry (nodes_at t1) z ≡ entry (nodes_at t) z
  kept i (negsuc m) l lo hi ne = refl
  kept i (pos p) l lo hi ne =
      let b = v.layout.back i p lo hi l in
      ap some (placed-other p (λ q. ne (sym b.1 ∙ ap (λ k. slot (nodes_at t k)) q)))

  placed-timer : (i : ℕ) → 0 < i → i < t.heap_size → i ≢ x → timer_at t1 i ≡ timer_at t i
  placed-timer i lo hi ne =
      ap (entry (nodes_at t1)) (same_link i) ∙ kept i (link_at t i) refl lo hi ne

  module _ (t' : HeapTimer) (s : Settled t.cur_size t1 t') where
    abbrev settled : HeapTimer
    settled = record t { heap = t'.heap; timer_node_index_array = t'.timer_node_index_array }

    settled-Changed : Changed t x node settled
    settled-Changed = record {
      present =
          s.nodes x (v.layout.low 0 more) (v.layout.high 0 more)
          ∙ ap (entry (nodes_at t1)) (same_link x ∙ v.layout.linked 0 more)
          ∙ ap some placed-node;
      others = λ i lo hi ne. s.nodes i lo hi ∙ placed-timer i lo hi ne;
      count = refl;
      size = refl;
      valid = (
        fs,
        record {
          sized = record {
            heap = s.sized.heap ∙ ap (λ (u : HeapTimer). u.heap_size) s.frame;
            links = s.sized.links ∙ ap (λ (u : HeapTimer). u.heap_size) s.frame;
          };
          rands = v.rands;
          room = v.room;
          layout = s.layout;
          ordered = s.ordered;
          ids = Settled-all t.cur_size t1 t' layout s (HasId t.rand_array.at) ids;
          chained = s.chained (t.heap_size - 1) fs t.free_timer_node_index (
              Chain-update (link_at t) (t.heap_size - 1) (slot node) (pos 0) fs
                t.free_timer_node_index
                (Chain-avoids (link_at t) (t.heap_size - 1) (slot node) 0 fs t.free_timer_node_index
                  (rw here (v.layout.linked 0 more)) v.chained)
                v.chained);
          distinct = v.distinct;
          counted = v.counted;
          seeded = v.seeded;
        },
      );
    }

  -- RotateDown of the first node, once it has a later time.
  pub rotate_down-Changed : Returns (Changed t x node) (rotate_down t node 0 (get_left_child_pos 0))
  rotate_down-Changed =
      Returns-map (rotate_down-Settled t 0 node gap sinking)
        λ t' s. subst (Changed t x node) (sym s.frame) (settled-Changed t' s)
