-- ===== src/LogicModule/Sound.antt =====
-- What holds of the logics between calls: the logics that wait are exactly those with a timer.
use play_frame.Common.{
  ℕ, ◌+◌, ◌*◌, ◌/◌, ◌<◌, ◌^◌, ◌≡◌, ◌≢◌, sym, ap, ◌∙◌, some, arith, Option, false, inl, inr, ◌⊎◌,
  Bool-cases,
}
use play_frame.Common.Int.{ℤ, pos, pos-injective, ◌==ℤ◌, ==ℤ→eq, leb_ℤ}
use play_frame.HeapTimer.{TimerNode, HeapTimer, timer_node_index}
use play_frame.HeapTimer.Layout.{slot}
use play_frame.HeapTimer.Settled.{nodes_at, link_at}
use play_frame.HeapTimer.Invariant.{IsValid, timer_at, entry-some}
use play_frame.HeapTimer.PollRound.{HasIntervals}
use play_frame.LogicModule.{LogicData, LogicModule}

-- The timer at the index `i` has the id `id`.
pub record Timer (t : HeapTimer) (id : ℤ) (i : ℕ) : Type 0 where
  pub node : TimerNode
  pub low : 0 < i
  pub high : i < t.heap_size
  pub at : timer_at t i ≡ some node
  pub named : node.timer_id ≡ id

-- `map` and the timers `t` go together.
pub record Tracks {D : Type 0} (t : HeapTimer) (map : ℤ → Option (LogicData D)) : Type 0 where
  pub known :
      (id : ℤ) (head : LogicData D) → map id ≡ some head → id ≢ pos 0 → (i : ℕ) × Timer t id i
  pub waiting : (id : ℤ) (i : ℕ) → Timer t id i → (head : LogicData D) × (map id ≡ some head)

-- Every timer calls the module.
abbrev pub IsOwn : HeapTimer → Type 0
IsOwn t =
    (i : ℕ) (node : TimerNode)
    → 0 < i
    → i < t.heap_size
    → timer_at t i ≡ some node
    → node.cb_obj ≡ some 0

pub record IsSound {D : Type 0} (m : LogicModule D) : Type 0 where
  pub valid : IsValid m.heap_timer
  pub intervals : HasIntervals m.heap_timer
  pub own : IsOwn m.heap_timer
  pub tracks : Tracks m.heap_timer m.logic_data_map

-- The index of a timer is in its id.
pub Timer-index :
    (t : HeapTimer) (id : ℤ) (i : ℕ)
    → IsValid t
    → (r : Timer t id i) → (timer_node_index id ≡ pos i) × (slot r.node ≡ i)
Timer-index t id i (fs, v) r =
    let (q, l, same) = entry-some (nodes_at t) (link_at t i) r.node r.at in
    let b = v.layout.back i q r.low r.high l in
    (
      ap (λ (z : ℤ). timer_node_index z) (sym r.named) ∙ rw (← same, ← b.1) (v.layout.named q b.0),
      ap slot (sym same) ∙ b.1,
    )

-- No two timers have the same id, and none has the id 0.
pub Timer-unique :
    (t : HeapTimer) (id : ℤ) (i j : ℕ) → IsValid t → Timer t id i → Timer t id j → i ≡ j
Timer-unique t id i j v r u =
    pos-injective (sym (Timer-index t id i v r).0 ∙ (Timer-index t id j v u).0)

pub Timer-nonzero : (t : HeapTimer) (id : ℤ) (i : ℕ) → IsValid t → Timer t id i → id ≢ pos 0
Timer-nonzero t id i v r e =
    let p = (Timer-index t id i v r).0 in
    let q : timer_node_index id ≡ pos (0 / 2 ^ 32) = ap timer_node_index e in
    let same : 0 / 2 ^ 32 ≡ i = pos-injective (sym q ∙ p) in let low = r.low in omega arith

-- Its id is positive.
pub Timer-positive :
    (t : HeapTimer) (id : ℤ) (i : ℕ) → IsValid t → Timer t id i → leb_ℤ id (pos 0) ≡ false
Timer-positive t id i (fs, v) r =
    let (q, l, same) = entry-some (nodes_at t) (link_at t i) r.node r.at in
    let inside = (v.layout.back i q r.low r.high l).0 in
    let d = v.ids q inside in
    let low = v.layout.low q inside in
    let number : id ≡ pos (slot (nodes_at t q) * 2 ^ 32 + d.number) =
      sym r.named ∙ ap (λ (y : TimerNode). y.timer_id) (sym same) ∙ d.id in
    rw number (ground arith)

-- The test for a key.
pub same_key : (k id : ℤ) → ((k ==ℤ id) ≡ false) ⊎ (k ≡ id)
same_key k id = elim (Bool-cases (k ==ℤ id)) [ inl e ↦ inr (==ℤ→eq k id e) | inr e ↦ inl e ]

pub ne→==ℤ : (a b : ℤ) → a ≢ b → (a ==ℤ b) ≡ false
ne→==ℤ a b ne = elim (same_key a b) [ inl e ↦ e | inr e ↦ absurd (ne e) ]
