-- ===== src/HeapTimer.antt =====
-- src/common/frame/heap_timer.h and heap_timer.cpp: timers in a binary heap by expiry time. A node
-- pointer in `heap` is the node itself; the entries of `heap` from `cur_size` on are garbage.
-- `timer_node_index_array` holds the heap position of a timer in use, and a link of the free list
-- (as in the pool) otherwise. The clock is an argument, and `new` does not fail.
pub mod Layout
pub mod Order
pub mod Settled
pub mod Gap
pub mod RotateUp
pub mod RotateDown
pub mod Invariant
pub mod Insert
pub mod Ready
pub mod Register
pub mod Create
pub mod Delete
pub mod Remove
pub mod Unregister
pub mod Poll
pub mod Repeat
pub mod Due
pub mod Serve
pub mod PollRound
pub mod Polled
mod Tests
use play_frame.Common.{
  ℕ, zero, suc, ◌+◌, ◌-◌, ◌*◌, ◌/◌, ◌%◌, ◌^◌, Bool, true, false, ◌&&◌, ◌||◌, not, Option, none,
  some, ltb, leb, ◌==◌, if◌then◌else◌,
}
use play_frame.Common.Int.{ℤ, pos, negsuc, neg, ◌==ℤ◌, ◌+ℤ◌}
use play_frame.Common.Run.{Run, ok, fault, out_of_fuel, ◌>>=◌}
use play_frame.Common.Array.{Array, index, load, store}
use play_frame.Random
use play_frame.TimeValue
use play_frame.TimeValue.{TimeValue}
use play_frame.TimeValue.Order.{gte}

pub record TimerNode : Type 0 where
  pub timer_id : ℤ
  pub expire_time : TimeValue
  pub interval_time : TimeValue
  -- `data`
  pub argument : ℕ
  pub cb_obj : Option ℕ

pub record HeapTimer : Type 0 where
  pub heap_size : ℕ
  pub cur_size : ℕ
  pub heap : Array TimerNode
  pub timer_node_index_array : Array ℤ
  pub rand_array : Array ℤ
  pub free_timer_node_index : ℤ
  pub rand_maker : ℤ

-- `((int64_t)timer_node_index << 32) | ((int64_t)rand_num)`: a negative number sets all high bits.
abbrev pub make_timer_id : ℕ → ℤ → ℤ
make_timer_id i (pos r) = pos (i * 2 ^ 32 + r)
make_timer_id i (negsuc r) = negsuc r

-- `(int32_t)(timer_id >> 32)`
abbrev pub timer_node_index : ℤ → ℤ
timer_node_index (pos n) = pos (n / 2 ^ 32)
timer_node_index (negsuc n) = negsuc (n / 2 ^ 32)

-- An `int32_t` with the given bits.
abbrev pub signed32 : ℕ → ℤ
signed32 w = if ltb w (2 ^ 31) then pos w else negsuc (2 ^ 32 - w - 1)

-- `(int32_t)(timer_id & 0xffffffff)`
abbrev pub rand_num : ℤ → ℤ
rand_num (pos n) = signed32 (n % 2 ^ 32)
rand_num (negsuc n) = signed32 (2 ^ 32 - 1 - n % 2 ^ 32)

-- The constructor. `garbage` is the uninitialised memory of `heap_`.
unfoldable pub init : ℕ → ℤ → (ℕ → TimerNode) → HeapTimer
init heap_size time garbage = record {
  heap_size = heap_size + 1;
  cur_size = 0;
  heap = record { size = heap_size + 1; at = garbage };
  timer_node_index_array = record { size = heap_size + 1; at = negsuc };
  rand_array = record { size = heap_size + 1; at = λ i. pos 0 };
  free_timer_node_index = pos 1;
  rand_maker = Random.init (pos 0) time;
}

unfoldable pub pop_free_timer_id : HeapTimer → Run (ℤ × HeapTimer)
pop_free_timer_id t = do
  i ← index t.free_timer_node_index
  next ← load t.timer_node_index_array i
  let rand = Random.get_rand t.rand_maker
  rands ← store t.rand_array i rand
  ok (
    make_timer_id i rand,
    record t { rand_array = rands; free_timer_node_index = neg next; rand_maker = rand },
  )

unfoldable pub push_free_timer_id : HeapTimer → ℤ → Run HeapTimer
push_free_timer_id t old_timer_id = do
  i ← index (timer_node_index old_timer_id)
  timer_rand ← load t.rand_array i
  if not (timer_rand ==ℤ rand_num old_timer_id) then ok t else do
    links ← store t.timer_node_index_array i (neg t.free_timer_node_index)
    rands ← store t.rand_array i (pos 0)
    ok (record t {
      timer_node_index_array = links;
      free_timer_node_index = pos i;
      rand_array = rands;
    })

-- `now + interval`
abbrev pub expire_time : TimeValue → TimeValue → Run TimeValue
expire_time now interval = TimeValue.set (now.sec +ℤ interval.sec) (now.usec +ℤ interval.usec)

abbrev pub get_parent_pos : ℕ → ℕ
get_parent_pos cur_pos = if cur_pos == 0 then 0 else (cur_pos - 1) / 2

abbrev pub get_left_child_pos : ℕ → ℕ
get_left_child_pos cur_pos = 2 * cur_pos + 1

-- `heap_[pos] = node`, and the position of the node in the index array.
unfoldable pub put_node : HeapTimer → ℕ → TimerNode → Run HeapTimer
put_node t place node = do
  nodes ← store t.heap place node
  i ← index (timer_node_index node.timer_id)
  links ← store t.timer_node_index_array i (pos place)
  ok (record t { heap = nodes; timer_node_index_array = links })

-- RotateUp, with fuel for its loop.
rotate_up_loop : ℕ → HeapTimer → TimerNode → ℕ → ℕ → Run HeapTimer
rotate_up_loop zero t move_node place parent_pos = out_of_fuel
rotate_up_loop (suc k) t move_node place parent_pos =
    let rise : Run HeapTimer = do
      parent ← load t.heap parent_pos
      let up = put_node t place parent >>= λ t'.
          rotate_up_loop k t' move_node parent_pos (get_parent_pos parent_pos)
      if not (gte move_node.expire_time parent.expire_time) then up else put_node t place move_node
    in if ltb 0 place then rise else put_node t place move_node

-- Each round halves the position, so that as many rounds as the position, and one, are enough.
unfoldable pub rotate_up : HeapTimer → TimerNode → ℕ → ℕ → Run HeapTimer
unfolding rotate_up_loop
rotate_up t move_node place parent_pos = rotate_up_loop (place + 1) t move_node place parent_pos

-- The earlier of the children at `child_pos` and behind it, the right one if both are as early.
unfoldable pub smaller_child : HeapTimer → ℕ → Run ℕ
smaller_child t child_pos =
    if ltb (child_pos + 1) t.cur_size
    then (do
      left ← load t.heap child_pos
      right ← load t.heap (child_pos + 1)
      ok (if gte left.expire_time right.expire_time then child_pos + 1 else child_pos))
    else ok child_pos

-- RotateDown, with fuel for its loop.
rotate_down_loop : ℕ → HeapTimer → TimerNode → ℕ → ℕ → Run HeapTimer
rotate_down_loop zero t move_node place child_pos = out_of_fuel
rotate_down_loop (suc k) t move_node place child_pos =
    let sink : Run HeapTimer = do
      child ← smaller_child t child_pos
      node ← load t.heap child
      let down = put_node t place node >>= λ t'.
          rotate_down_loop k t' move_node child (get_left_child_pos child)
      if gte move_node.expire_time node.expire_time then down else put_node t place move_node
    in if ltb child_pos t.cur_size then sink else put_node t place move_node

-- Each round moves down by at least one position, and stops at `cur_size`.
unfoldable pub rotate_down : HeapTimer → TimerNode → ℕ → ℕ → Run HeapTimer
unfolding rotate_down_loop
rotate_down t move_node place child_pos =
    rotate_down_loop (t.cur_size + 1) t move_node place child_pos

-- GrowHeap doubles the arrays; the new places join the end of the free list.
unfoldable pub grow_heap : HeapTimer → HeapTimer
grow_heap t = record t {
  heap_size = 2 * t.heap_size;
  heap = record { size = 2 * t.heap_size; at = t.heap.at };
  timer_node_index_array = record {
    size = 2 * t.heap_size;
    at = λ i. if ltb i t.heap_size then t.timer_node_index_array.at i else negsuc i;
  };
  rand_array = record {
    size = 2 * t.heap_size;
    at = λ i. if ltb i t.heap_size then t.rand_array.at i else pos 0;
  };
}

abbrev pub is_zero : TimeValue → Bool
is_zero tv = (tv.sec ==ℤ pos 0) && (tv.usec ==ℤ pos 0)

-- RegisterTimer at the time `time` of the clock, with `-1` for a refusal.
unfoldable pub register_timer :
    HeapTimer → TimeValue → TimeValue → Option ℕ → ℕ → ℤ → Run (ℤ × HeapTimer)
register_timer t interval delay cb_obj argument time =
    if is_zero interval
    then ok (negsuc 0, t)
    else if leb t.heap_size t.cur_size
    then ok (negsuc 0, t)
    else do
      (timer_id, t1) ← pop_free_timer_id t
      now ← TimeValue.set time (pos 0)
      expire ← expire_time now delay
      let t2 = if leb t1.heap_size (t1.cur_size + 2) then grow_heap t1 else t1
      t3 ←
          rotate_up t2
            (record {
              timer_id = timer_id;
              expire_time = expire;
              interval_time = interval;
              argument = argument;
              cb_obj = cb_obj;
            })
            t2.cur_size (get_parent_pos t2.cur_size)
      ok (timer_id, record t3 { cur_size = t3.cur_size + 1 })

-- The node at `place` goes down if it is no earlier than its parent, and up otherwise.
rotate : HeapTimer → TimerNode → ℕ → TimerNode → Run HeapTimer
unfolding rotate_down rotate_up
rotate t move_node place parent =
    if gte move_node.expire_time parent.expire_time
    then rotate_down t move_node place (get_left_child_pos place)
    else rotate_up t move_node place (get_parent_pos place)

-- The part of RemoveNode that moves the last node to the gap.
unfoldable pub fill_gap : HeapTimer → ℕ → Run HeapTimer
unfolding rotate
fill_gap t del_node_pos = do
  move_node ← load t.heap t.cur_size
  t' ← put_node t del_node_pos move_node
  parent ← load t'.heap (get_parent_pos del_node_pos)
  rotate t' move_node del_node_pos parent

-- RemoveNode; the node comes back with the id -1.
unfoldable pub remove_node : HeapTimer → ℕ → Run (Option TimerNode × HeapTimer)
remove_node t del_node_pos = if t.cur_size == 0 then ok (none, t) else do
  del_node ← load t.heap del_node_pos
  t1 ← push_free_timer_id t del_node.timer_id
  let t2 = record t1 { cur_size = t1.cur_size - 1 }
  t3 ← if ltb del_node_pos t2.cur_size then fill_gap t2 del_node_pos else ok t2
  ok (some (record del_node { timer_id = negsuc 0 }), t3)

-- The part of UnregisterTimer behind `node_pos`, for the index `i`.
unregister_node : HeapTimer → ℤ → ℕ → ℤ → Run HeapTimer
unregister_node t timer_id i (negsuc _) = ok t
unregister_node t timer_id i (pos node_pos) = do
  timer_rand ← load t.rand_array i
  if not (timer_rand ==ℤ rand_num timer_id)
      then ok t
      else do del_node ← load t.heap node_pos; (node, t') ← remove_node t node_pos; ok t'

-- The part behind `timer_node_index`. An index equal to `heap_size` passes the guard.
unregister_index : HeapTimer → ℤ → ℤ → Run HeapTimer
unfolding unregister_node
unregister_index t timer_id (negsuc _) = ok t
unregister_index t timer_id (pos i) =
    if ltb t.heap_size i
    then ok t
    else do node_pos ← load t.timer_node_index_array i; unregister_node t timer_id i node_pos

-- UnregisterTimer.
unfoldable pub unregister_timer : HeapTimer → ℤ → Run HeapTimer
unfolding unregister_index
unregister_timer t timer_id = unregister_index t timer_id (timer_node_index timer_id)

-- FirstTimeout, with `none` for the null pointer.
unfoldable pub first_timeout : HeapTimer → Run (Option TimeValue)
first_timeout t =
    if ltb 0 t.cur_size then (do first ← load t.heap 0; ok (some first.expire_time)) else ok none
