-- ===== src/HeapTimer/Poll.antt =====
-- TimerPoll of src/common/frame/heap_timer.cpp. The callback objects are the function `execute`: it
-- gets the object, the id and the argument of a timer, the state `S` outside and the timers, and
-- returns the number that Execute returns. A poll has fuel for its loop.
use play_frame.Common.{ℕ, zero, suc, Bool, false, ◌&&◌, not, Option, none, some, ltb}
use play_frame.Common.{if◌then◌else◌}
use play_frame.Common.Int.{ℤ, pos, ◌==ℤ◌}
use play_frame.Common.Run.{Run, ok, fault, out_of_fuel, ◌>>=◌}
use play_frame.Common.Array.{load}
use play_frame.TimeValue.{TimeValue}
use play_frame.TimeValue.Order.{gte}
use play_frame.HeapTimer.{
  TimerNode, HeapTimer, expire_time, is_zero, remove_node, rotate_down, get_left_child_pos,
}

-- The node with this id is the first of the heap.
unfoldable pub is_first : HeapTimer → ℤ → Run Bool
is_first t timer_id =
    if ltb 0 t.cur_size
    then (do first ← load t.heap 0; ok (first.timer_id ==ℤ timer_id))
    else ok false

-- The part behind the callback: the timer starts again, or leaves.
unfoldable pub renew : HeapTimer → TimeValue → TimerNode → ℤ → Run HeapTimer
renew t now expire_node ret =
    if (ret ==ℤ pos 0) && not (is_zero expire_node.interval_time)
    then (do
      expire ← expire_time now expire_node.interval_time
      rotate_down t (record expire_node { expire_time = expire }) 0 (get_left_child_pos 0))
    else do (node, t') ← remove_node t 0; ok t'

module _ {S : Type 0} (execute : ℕ → ℤ → ℕ → S → HeapTimer → Run (ℤ × S × HeapTimer)) where
  unfoldable pub call_back : TimerNode → Option ℕ → S → HeapTimer → Run (ℤ × S × HeapTimer)
  call_back node none s t = ok (pos 0, s, t)
  call_back node (some cb_obj) s t = execute cb_obj node.timer_id node.argument s t

  -- One round. A callback that takes out its own timer leaves `expire_node` dangling; a callback
  -- that brings another node to the front is a fault of the model too, since place 0 is then not
  -- that of `expire_node`.
  unfoldable pub expire_first : S → HeapTimer → TimeValue → TimerNode → Run (S × HeapTimer)
  unfolding call_back is_first
  expire_first s t now expire_node = do
    (ret, s', t') ← call_back expire_node expire_node.cb_obj s t
    first ← is_first t' expire_node.timer_id
    if first then (do t'' ← renew t' now expire_node ret; ok (s', t'')) else fault

  unfoldable pub timer_poll : ℕ → S → HeapTimer → TimeValue → Run (S × HeapTimer)
  timer_poll zero s t now = out_of_fuel
  timer_poll (suc fuel) s t now =
      let round : Run (S × HeapTimer) = do
        expire_node ← load t.heap 0
        let go = expire_first s t now expire_node >>= λ r. timer_poll fuel r.0 r.1 now
        if gte now expire_node.expire_time then go else ok (s, t)
      in if ltb 0 t.cur_size then round else ok (s, t)
