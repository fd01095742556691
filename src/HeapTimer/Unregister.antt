-- ===== src/HeapTimer/Unregister.antt =====
-- UnregisterTimer takes out the timer with the id, if there still is one.
use play_frame.Common.{
  ℕ, ◌+◌, ◌*◌, ◌/◌, ◌^◌, ◌<◌, ◌≡◌, ◌≢◌, refl, sym, ap, ◌∙◌, subst, ◌⊎◌, inl, inr, Option, some,
  arith, eq_cases, le→ltb, false,
}
use play_frame.Common.Int.{◌≤ℤ◌, ℤ, pos, negsuc, ==ℤ-refl, ◌==ℤ◌}
use play_frame.Common.Run.{◌>>=◌, ok, Returns, returns, Returns-bind, Returns-map}
use play_frame.Common.Array.{load-ok}
use play_frame.HeapTimer.{
  TimerNode, HeapTimer, timer_node_index, rand_num, signed32, is_zero, register_timer,
  unregister_timer, unregister_index, unregister_node,
}
use play_frame.HeapTimer.Layout.{entry}
use play_frame.HeapTimer.Settled.{nodes_at, link_at}
use play_frame.HeapTimer.Invariant.{IsValid, timer_at, entry-some}
use play_frame.TimeValue.{TimeValue}
use play_frame.HeapTimer.Register.{register_correct}
use play_frame.HeapTimer.Remove.{Left, rand_num-HasId, remove_node-Left}

-- UnregisterTimer with the id of a timer of valid timers takes out this timer: it is gone, every
-- other timer keeps its node, and the timers are valid again.
pub unregister_correct :
    (t : HeapTimer) (i : ℕ) (node : TimerNode)
    → IsValid t
    → 0 < i
    → i < t.heap_size
    → timer_at t i ≡ some node
    → Returns (Left t i) (unregister_timer t node.timer_id)
unfolding unregister_timer unregister_index unregister_node
unregister_correct t i node (fs, v) lo hi e =
    let (p, l, same) = entry-some (nodes_at t) (link_at t i) node e in
    let b = v.layout.back i p lo hi l in
    let d = v.ids p b.0 in
    let known : t.rand_array.at i ≡ pos d.number = rw (← b.1) d.known in
    let named : timer_node_index node.timer_id ≡ pos i =
      rw (← same, ← b.1) (v.layout.named p b.0) in
    let number : rand_num node.timer_id ≡ pos d.number =
      rw (← same) (rand_num-HasId t.rand_array.at (nodes_at t p) d) in
    rw
      (
        named,
        le→ltb t.heap_size i (omega arith),
        load-ok t.timer_node_index_array i (omega (arith, v.sized.links)),
        l,
        load-ok t.rand_array i (omega (arith, v.rands)),
        known,
        number,
        ==ℤ-refl (pos d.number),
        load-ok t.heap p (omega (arith, v.sized.heap, b.0, v.room)),
      )
      (Returns-bind (remove_node-Left t fs v p b.0)
        λ r m. returns (subst (λ (j : ℕ). Left t j r.1) b.1 m.1))

sign : (z : ℤ) → ((m : ℕ) × (z ≡ negsuc m)) ⊎ ((p : ℕ) × (z ≡ pos p))
sign (negsuc m) = inl (m, refl)
sign (pos p) = inr (p, refl)

number_differs : (r w : ℕ) → r ≢ w → (pos r ==ℤ signed32 w) ≡ false
number_differs r w ne = ground arith

-- UnregisterTimer with an id that no timer of valid timers has, whose index is from 1 on and within
-- the arrays, changes nothing.
pub unregister-stale :
    (t : HeapTimer) (i w : ℕ)
    → IsValid t
    → 0 < i
    → i < t.heap_size
    → w < 2 ^ 32
    → ((node : TimerNode) → timer_at t i ≡ some node → node.timer_id ≢ pos (i * 2 ^ 32 + w))
    → unregister_timer t (pos (i * 2 ^ 32 + w)) ≡ ok t
unfolding unregister_timer unregister_index unregister_node
unregister-stale t i w (fs, v) lo hi small other =
    let named : (i * 2 ^ 32 + w) / 2 ^ 32 ≡ i = omega arith in
    let low_half : rand_num (pos (i * 2 ^ 32 + w)) ≡ signed32 w = ap signed32 (omega arith) in
    rw
      (
        named,
        le→ltb t.heap_size i (omega arith),
        load-ok t.timer_node_index_array i (omega (arith, v.sized.links)),
      )
      (elim (sign (link_at t i)) [
        | inl (m, l) ↦ rw l
        | inr (p, l) ↦
            let b = v.layout.back i p lo hi l in
            let d = v.ids p b.0 in
            let known : t.rand_array.at i ≡ pos d.number = rw (← b.1) d.known in
            let ne : d.number ≢ w =
              λ same. other (nodes_at t p) (ap (entry (nodes_at t)) l) (rw (← same, ← b.1) d.id) in
            rw (
              l,
              load-ok t.rand_array i (omega (arith, v.rands)),
              known,
              low_half,
              number_differs d.number w ne,
            )
      ])

-- The timers of `t` are those of `t'`.
pub record Same (t t' : HeapTimer) : Type 0 where
  pub timers : (i : ℕ) → 0 < i → i < t.heap_size → timer_at t' i ≡ timer_at t i
  pub count : t'.cur_size ≡ t.cur_size
  pub valid : IsValid t'

-- RegisterTimer, and UnregisterTimer with the id that it returned, leave the timers of valid timers as
-- they were, where the interval is not 0 and the delay is not negative in its microseconds.
pub register-unregister :
    (t : HeapTimer) (interval delay : TimeValue) (cb_obj : Option ℕ) (argument : ℕ) (time : ℤ)
    → IsValid t
    → is_zero interval ≡ false
    → pos 0 ≤ℤ delay.usec
    → Returns
        (Same t)
        (register_timer t interval delay cb_obj argument time >>= λ r. unregister_timer r.1 r.0)
register-unregister t interval delay cb_obj argument time v nz h =
    Returns-bind (register_correct t interval delay cb_obj argument time v nz h) λ r g.
      let inside : g.place < r.1.heap_size = omega (arith, g.high, g.joined.size) in
      rw g.id (
        Returns-map
          (unregister_correct r.1 g.place g.node g.joined.valid g.low inside g.joined.present)
          (λ t' l. record {
            timers = λ i lo hi. elim (eq_cases i g.place) [
              | inl e ↦ rw e (l.absent ∙ sym g.was_free)
              | inr ne ↦
                  l.others i lo (omega (arith, g.joined.size)) ne ∙ g.joined.others i lo hi ne
            ];
            count = omega (arith, l.count, g.joined.count);
            valid = l.valid;
          }))
