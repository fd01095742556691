-- ===== src/HeapTimer/Invariant.antt =====
-- What holds of the timers between calls.
use play_frame.Common.{
  ℕ, ◌+◌, ◌-◌, ◌*◌, ◌^◌, ◌≤◌, ◌<◌, ◌≡◌, refl, sym, ap, ◌∙◌, subst, List, length, Distinct, Option,
  some,
}
use play_frame.Common.Int.{ℤ, pos, negsuc}
use play_frame.Random.{modulus}
use play_frame.ShmPool.FreeList.{Chain}
use play_frame.HeapTimer.{TimerNode, HeapTimer}
use play_frame.HeapTimer.Layout.{slot, Layout, node_of, entry}
use play_frame.HeapTimer.Order.{IsHeap}
use play_frame.HeapTimer.Settled.{nodes_at, link_at, Sized, Settled}

-- The random number in the node's id is the one at its index.
pub record HasId (rand : ℕ → ℤ) (x : TimerNode) : Type 0 where
  pub number : ℕ
  pub id : x.timer_id ≡ pos (slot x * 2 ^ 32 + number)
  pub known : rand (slot x) ≡ pos number
  pub small : number < 2 ^ 31

pub record IsSeed (z : ℤ) : Type 0 where
  pub seed : ℕ
  pub is_seed : z ≡ pos seed
  pub nonzero : 0 < seed
  pub bound : seed < modulus

-- The free indices are `fs`.
pub record Held (t : HeapTimer) (fs : List ℕ) : Type 0 where
  pub sized : Sized t
  pub rands : t.rand_array.size ≡ t.heap_size
  pub room : t.cur_size + 2 ≤ t.heap_size
  pub layout : Layout t.heap_size t.cur_size (nodes_at t) (link_at t)
  pub ordered : IsHeap t.cur_size (nodes_at t)
  pub ids : (p : ℕ) → p < t.cur_size → HasId t.rand_array.at (nodes_at t p)
  pub chained : Chain (link_at t) (t.heap_size - 1) fs t.free_timer_node_index
  pub distinct : Distinct fs
  pub counted : length fs + t.cur_size + 1 ≡ t.heap_size
  pub seeded : IsSeed t.rand_maker

abbrev pub IsValid : HeapTimer → Type 0
IsValid t = (fs : List ℕ) × Held t fs

-- The node of the timer with index `i`.
abbrev pub timer_at : HeapTimer → ℕ → Option TimerNode
timer_at t i = node_of (nodes_at t) (link_at t) i

pub entry-some :
    (at : ℕ → TimerNode) (z : ℤ) (x : TimerNode)
    → entry at z ≡ some x
    → (q : ℕ) × (z ≡ pos q) × (at q ≡ x)
entry-some at (pos q) x e = (q, refl, cc)
entry-some at (negsuc q) x e = absurd (cc)

-- What holds of every node holds of every node once they have been put in order.
pub Settled-all :
    (n : ℕ) (t t' : HeapTimer)
    → Layout t.heap_size n (nodes_at t) (link_at t)
    → Settled n t t'
    → (P : TimerNode → Type 0) → ((p : ℕ) → p < n → P (nodes_at t p))
    → (p : ℕ) → p < n
    → P (nodes_at t' p)
Settled-all n t t' v s P all p h =
    let x = nodes_at t' p in
    let i = slot x in
    let e : timer_at t i ≡ some x =
      sym (s.nodes i (s.layout.low p h) (s.layout.high p h))
      ∙ ap (entry (nodes_at t')) (s.layout.linked p h) in
    let (q, l, same) = entry-some (nodes_at t) (link_at t i) x e in
    let b = v.back i q (s.layout.low p h) (s.layout.high p h) l in subst P same (all q b.0)
