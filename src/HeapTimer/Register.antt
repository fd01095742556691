-- ===== src/HeapTimer/Register.antt =====
-- RegisterTimer puts a new timer into a heap that is not full, and leaves all others alone.
use play_frame.Common.{
  Bool-cases, ltb→lt, ltb_false→le, ltb, inl, inr, none, ◌*◌, ℕ, ◌+◌, ◌-◌, ◌^◌, ◌≤◌, ◌<◌, ◌≡◌, ◌≢◌,
  refl, sym, ap, ◌∙◌, List, [], ◌∷◌, ◌++◌, arith, subst, Option, some, Bool, true, false, leb,
  if◌then◌else◌, leb→le,
}
use play_frame.Common.Int.{ℤ, pos, ◌+ℤ◌, ◌≤ℤ◌, int_laws}
use play_frame.Common.Run.{Run, ok, ◌>>=◌, Returns, returns, Returns-bind, Returns-map}
use play_frame.Random.Schrage.{get_rand_nonzero}
use play_frame.TimeValue
use play_frame.TimeValue.{TimeValue}
use play_frame.TimeValue.Arithmetic.{Counts, IsNormal, normalize-IsNormal, normalize-pos}
use play_frame.ShmPool.FreeList.{Chain-update}
use play_frame.HeapTimer.{
  TimerNode, HeapTimer, timer_node_index, make_timer_id, rotate_up, get_parent_pos, is_zero,
  register_timer, grow_heap,
}
use play_frame.HeapTimer.Layout.{slot, Layout, slot-named}
use play_frame.HeapTimer.Settled.{nodes_at, link_at, placed, Settled}
use play_frame.HeapTimer.RotateUp.{rotate_up-Settled}
use play_frame.HeapTimer.Invariant.{HasId, Held, IsValid, timer_at, Settled-all}
use play_frame.HeapTimer.Insert.{
  insert-Layout, insert-node, insert-others, insert-all, IsHeap-Rising,
}
use play_frame.HeapTimer.Ready.{
  grow-fresh, Ready, popped, pop-first, pop-Ready, grow-Ready, grow-timer_at,
}

-- The timer `x` has come to those of `t`, with the node `node`.
pub record Joined (t : HeapTimer) (x : ℕ) (node : TimerNode) (t' : HeapTimer) : Type 0 where
  pub present : timer_at t' x ≡ some node
  pub others : (i : ℕ) → 0 < i → i < t.heap_size → i ≢ x → timer_at t' i ≡ timer_at t i
  pub fresh : (i : ℕ) → t.heap_size ≤ i → i < t'.heap_size → i ≢ x → timer_at t' i ≡ none
  pub count : t'.cur_size ≡ t.cur_size + 1
  pub size : t.heap_size ≤ t'.heap_size
  pub valid : IsValid t'

module _ (t : HeapTimer) (x r : ℕ) (xs : List ℕ) (v : Ready t x r xs) (node : TimerNode)
    (id : node.timer_id ≡ pos (x * 2 ^ 32 + r)) where
  named : timer_node_index node.timer_id ≡ pos x
  named = let s = v.small in rw id (ap pos (omega arith))

  here : slot node ≡ x
  here = slot-named node x named

  abbrev t1 : HeapTimer
  t1 = placed t t.cur_size node

  layout : Layout t.heap_size (t.cur_size + 1) (nodes_at t1) (link_at t1)
  layout =
      insert-Layout t.heap_size t.cur_size (nodes_at t) (link_at t) v.layout x v.free.0 node
        v.free.1 v.low v.high named here

  settled :
      Returns
        (Settled (t.cur_size + 1) t1)
        (rotate_up t node t.cur_size (get_parent_pos t.cur_size))
  settled =
      rotate_up-Settled (t.cur_size + 1) t t.cur_size node
        (record {
          sized = v.sized;
          bound = omega (arith, v.counted);
          inside = omega arith;
          layout = layout;
        })
        (IsHeap-Rising t.cur_size (nodes_at t) node v.ordered)

  all_ids : (p : ℕ) → p < t.cur_size + 1 → HasId t.rand_array.at (nodes_at t1 p)
  all_ids =
      insert-all t.heap_size t.cur_size (nodes_at t) (link_at t) v.layout x v.free.0 node v.free.1
        v.low v.high named here (HasId t.rand_array.at)
        (record { number = r; id = rw here id; known = rw here v.number; small = v.small }) v.ids

  module _ (room : t.cur_size + 3 ≤ t.heap_size) (t' : HeapTimer)
      (s : Settled (t.cur_size + 1) t1 t') where
    abbrev t2 : HeapTimer
    t2 = record t1 {
      heap = t'.heap;
      timer_node_index_array = t'.timer_node_index_array;
      cur_size = t.cur_size + 1;
    }

    held : Held t2 xs
    held = record {
      sized = record {
        heap = s.sized.heap ∙ ap (λ (u : HeapTimer). u.heap_size) s.frame;
        links = s.sized.links ∙ ap (λ (u : HeapTimer). u.heap_size) s.frame;
      };
      rands = v.rands;
      room = omega arith;
      layout = s.layout;
      ordered = s.ordered;
      ids = Settled-all (t.cur_size + 1) t1 t' layout s (HasId t.rand_array.at) all_ids;
      chained = s.chained (t.heap_size - 1) xs t.free_timer_node_index (
          Chain-update (link_at t) (t.heap_size - 1) (slot node) (pos t.cur_size) xs
            t.free_timer_node_index (rw here v.avoids) v.chained);
      distinct = v.distinct;
      counted = omega (arith, v.counted);
      seeded = v.seeded;
    }

    joined : Joined t x node t2
    joined = record {
      present =
          s.nodes x v.low v.high
          ∙ insert-node t.heap_size t.cur_size (nodes_at t) (link_at t) v.layout x v.free.0 node
              v.free.1 v.low v.high named here;
      others = λ i lo hi ne.
          s.nodes i lo hi
          ∙ insert-others t.heap_size t.cur_size (nodes_at t) (link_at t) v.layout x v.free.0 node
              v.free.1 v.low v.high named here i lo hi ne;
      fresh = λ i lo hi ne. absurd (omega arith);
      count = refl;
      size = omega arith;
      valid = (xs, held);
    }

  pub rotate_up-Joined :
      t.cur_size + 3 ≤ t.heap_size
      → Returns
          (λ t'. Joined t x node (record t' { cur_size = t'.cur_size + 1 }))
          (rotate_up t node t.cur_size (get_parent_pos t.cur_size))
  rotate_up-Joined room = Returns-map settled λ t' s.
      subst (λ (u : HeapTimer). Joined t x node (record u { cur_size = u.cur_size + 1 }))
        (sym s.frame) (joined room t' s)

expiry :
    (time : ℤ) (delay : TimeValue)
    → pos 0 ≤ℤ delay.usec
    → Returns
        (λ e. IsNormal e × Counts e (time +ℤ delay.sec) delay.usec)
        (TimeValue.set (time +ℤ delay.sec) (pos 0 +ℤ delay.usec))
unfolding TimeValue.set
expiry time delay h = rw (zero_left delay.usec) (normalize-pos (time +ℤ delay.sec) delay.usec h)
  where
    zero_left : (u : ℤ) → pos 0 +ℤ u ≡ u
    zero_left u = omega int_laws

pub set-whole : (time : ℤ) → TimeValue.set time (pos 0) ≡ ok (record { sec = time; usec = pos 0 })
unfolding TimeValue.set
set-whole time = normalize-IsNormal (record { sec = time; usec = pos 0 }) (omega arith, omega arith)

not_full : (size n : ℕ) → n + 2 ≤ size → leb size n ≡ false
not_full size n h = ground arith

-- A timer that was free now has a node as asked for, which expires `delay` after `time`.
pub record Registered (t : HeapTimer) (interval delay : TimeValue) (cb_obj : Option ℕ)
    (argument : ℕ) (time : ℤ) (r : ℤ × HeapTimer) : Type 0 where
  pub place : ℕ
  pub node : TimerNode
  pub low : 0 < place
  pub high : place < t.heap_size
  pub was_free : timer_at t place ≡ none
  pub id : r.0 ≡ node.timer_id
  pub index : timer_node_index r.0 ≡ pos place
  pub expires : IsNormal node.expire_time × Counts node.expire_time (time +ℤ delay.sec) delay.usec
  pub repeats : node.interval_time ≡ interval
  pub calls : node.cb_obj ≡ cb_obj
  pub hands : node.argument ≡ argument
  pub joined : Joined t place node r.1

-- The last part of RegisterTimer.
abbrev entered : ℤ → TimerNode → HeapTimer → Run (ℤ × HeapTimer)
entered id node u = rotate_up u node u.cur_size (get_parent_pos u.cur_size) >>= λ t3.
    ok (id, record t3 { cur_size = t3.cur_size + 1 })

module _ (t : HeapTimer) (x r : ℕ) (xs : List ℕ) (v : Ready t x r xs) (node : TimerNode)
    (id : node.timer_id ≡ pos (x * 2 ^ 32 + r)) where
  enter :
      (b : Bool)
      → (b ≡ leb t.heap_size (t.cur_size + 2))
      → Returns
          (λ p. (p.0 ≡ node.timer_id) × Joined t x node p.1)
          (entered node.timer_id node (if b then grow_heap t else t))
  unfolding grow_heap
  enter true e =
      Returns-bind
        (rotate_up-Joined (grow_heap t) x r (xs ++ _) (grow-Ready t x r xs v) node id
          (omega (arith, leb→le t.heap_size (t.cur_size + 2) (sym e), v.counted)))
        (λ t' j. returns (
          refl,
          record {
            present = j.present;
            others = λ i lo hi ne. j.others i lo (omega arith) ne ∙ grow-timer_at t x r xs v i hi;
            fresh = λ i lo hi ne. elim (Bool-cases (ltb i (2 * t.heap_size))) [
              | inl h ↦
                  let inside = ltb→lt i (2 * t.heap_size) h in
                  j.others i (omega (arith, v.counted)) inside ne
                  ∙ grow-fresh t x r xs v i lo inside
              | inr h ↦ j.fresh i (ltb_false→le i (2 * t.heap_size) h) hi ne
            ];
            count = j.count;
            size = omega (arith, j.size);
            valid = j.valid;
          },
        ))
  enter false e =
      Returns-bind (rotate_up-Joined t x r xs v node id (ground (arith, e)))
        (λ t' j. returns (refl, j))

-- RegisterTimer of valid timers, with an interval other than 0 and a delay that is not negative in
-- its microseconds, returns a new timer's id, made from an index that was free; its node holds what
-- was asked for and expires `delay` after `time`. Every other timer keeps its node, and the timers
-- are valid again, also where the heap had to grow.
pub register_correct :
    (t : HeapTimer) (interval delay : TimeValue) (cb_obj : Option ℕ) (argument : ℕ) (time : ℤ)
    → IsValid t
    → is_zero interval ≡ false
    → pos 0 ≤ℤ delay.usec
    → Returns
        (Registered t interval delay cb_obj argument time)
        (register_timer t interval delay cb_obj argument time)
unfolding register_timer
register_correct t interval delay cb_obj argument time ([], v) nz h =
    absurd (omega (arith, v.counted, v.room))
register_correct t interval delay cb_obj argument time (x ∷ xs, v) nz h =
    let (r, e, lo, hi) = get_rand_nonzero v.seeded.seed v.seeded.nonzero v.seeded.bound in
    let ready = pop-Ready t x r xs v lo hi in
    let id = make_timer_id x (pos r) in
    rw
      (
        nz,
        not_full t.heap_size t.cur_size v.room,
        pop-first t x r xs v (rw v.seeded.is_seed e),
        set-whole time,
      )
      (Returns-bind (expiry time delay h) λ expire ex.
        let node : TimerNode = record {
          timer_id = id;
          expire_time = expire;
          interval_time = interval;
          argument = argument;
          cb_obj = cb_obj;
        } in
        Returns-map
          (enter (popped t x r) x r xs ready node refl (leb t.heap_size (t.cur_size + 2)) refl)
          (λ p j. record {
            place = x;
            node = node;
            low = ready.low;
            high = ready.high;
            was_free = rw ready.free.1 refl;
            id = j.0;
            index = rw j.0 (ap pos (omega (arith, ready.small)));
            expires = ex;
            repeats = refl;
            calls = refl;
            hands = refl;
            joined = record {
              present = j.1.present;
              others = j.1.others;
              fresh = j.1.fresh;
              count = j.1.count;
              size = j.1.size;
              valid = j.1.valid;
            };
          }))
