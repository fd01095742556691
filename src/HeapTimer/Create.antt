-- ===== src/HeapTimer/Create.antt =====
-- The timers at the start, and the first to expire.
use play_frame.Common.{
  ℕ, ◌+◌, ◌-◌, ◌<◌, ◌≡◌, refl, ap, arith, Option, none, some, ◌⊎◌, ltb, inr, ltb→lt, inl,
  ltb_false→le,
}
use play_frame.Common.Int.{ℤ, pos, negsuc}
use play_frame.Common.Run.{Returns, returns, Returns-if}
use play_frame.Common.Array.{load-ok}
use play_frame.Random
use play_frame.Random.{modulus}
use play_frame.ShmPool.Init.{range, length-range, range-Distinct, Chain-range}
use play_frame.TimeValue.{TimeValue}
use play_frame.HeapTimer.Layout.{slot, entry}
use play_frame.TimeValue.Order.{Le}
use play_frame.HeapTimer.{TimerNode, HeapTimer, init, first_timeout}
use play_frame.HeapTimer.Order.{root_first}
use play_frame.HeapTimer.Settled.{nodes_at, link_at}
use play_frame.HeapTimer.Invariant.{IsValid, timer_at, entry-some}

-- A heap for at least one timer starts valid and without timers, if the clock is between 1 and
-- 2147483646.
pub init-IsValid :
    (heap_size time : ℕ) (garbage : ℕ → TimerNode)
    → 0 < heap_size
    → 0 < time
    → time < modulus
    → IsValid (init heap_size (pos time) garbage)
      × ((i : ℕ) → timer_at (init heap_size (pos time) garbage) i ≡ none)
unfolding init Random.init
init-IsValid heap_size time garbage some_room lo hi = (
  (
    range heap_size 1,
    record {
      sized = record { heap = refl; links = refl };
      rands = refl;
      room = omega arith;
      layout = record {
        named = λ p h. absurd (omega arith);
        low = λ p h. absurd (omega arith);
        high = λ p h. absurd (omega arith);
        linked = λ p h. absurd (omega arith);
        back = λ i p l h e. absurd (cc);
      };
      ordered = λ c l h. absurd (omega arith);
      ids = λ p h. absurd (omega arith);
      chained =
          Chain-range negsuc (heap_size + 1 - 1) heap_size 1 (λ j p q. refl) (omega arith)
            (omega arith);
      distinct = range-Distinct heap_size 1;
      counted = omega (arith, length-range heap_size 1);
      seeded = record { seed = time; is_seed = refl; nonzero = lo; bound = hi };
    },
  ),
  λ i. refl,
)

entry-cases : (at : ℕ → TimerNode) (z : ℤ) → (entry at z ≡ none) ⊎ ((q : ℕ) × (z ≡ pos q))
entry-cases at (pos q) = inr (q, refl)
entry-cases at (negsuc q) = inl refl

-- There is no timer, or `r` is the time of a timer that expires no later than any other.
abbrev pub IsEarliest : HeapTimer → Option TimeValue → Type 0
IsEarliest t r =
    ((r ≡ none) × ((i : ℕ) → 0 < i → i < t.heap_size → timer_at t i ≡ none))
    ⊎ ((i : ℕ) × (x : TimerNode) × (0 < i)
        × (i < t.heap_size)
        × (timer_at t i ≡ some x)
        × (r ≡ some x.expire_time)
        × ((j : ℕ) (y : TimerNode)
            → 0 < j
            → j < t.heap_size
            → timer_at t j ≡ some y
            → Le x.expire_time y.expire_time))

-- FirstTimeout of valid timers is NULL only if there is no timer, and is otherwise the time of a
-- timer that expires no later than any other.
pub first_timeout-IsEarliest :
    (t : HeapTimer) → IsValid t → Returns (IsEarliest t) (first_timeout t)
unfolding first_timeout
first_timeout-IsEarliest t (fs, v) =
    Returns-if (ltb 0 t.cur_size)
      (λ more.
        let some_timer = ltb→lt 0 t.cur_size more in
        let at = nodes_at t in
        rw (load-ok t.heap 0 (omega (arith, v.sized.heap, v.room))) (
          returns (
            inr (
              slot (at 0),
              at 0,
              v.layout.low 0 some_timer,
              v.layout.high 0 some_timer,
              ap (entry at) (v.layout.linked 0 some_timer),
              refl,
              λ j y lo hi e.
                  let (q, l, same) = entry-some at (link_at t j) y e in
                  let inside = (v.layout.back j q lo hi l).0 in
                  rw (← same) (root_first t.cur_size at q v.ordered inside),
            ))))
      (λ empty. returns (
        inl (
          refl,
          λ i lo hi. elim (entry-cases (nodes_at t) (link_at t i)) [
            | inl e ↦ e
            | inr (q, l) ↦
                let b = v.layout.back i q lo hi l in
                let z = ltb_false→le 0 t.cur_size empty in absurd (omega (arith, b.0))
          ],
        )))
