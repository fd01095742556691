-- ===== src/HeapTimer/Serve.antt =====
-- One round of TimerPoll, where the callbacks leave the timers alone.
use play_frame.Common.{
  ℕ, ◌<◌, ◌≡◌, ◌≢◌, refl, ap, ◌⊎◌, inl, inr, Bool, true, false, ◌&&◌, not, Option, none, some,
  arith, List, lt→ltb, Bool-cases, [], ◌∷◌,
}
use play_frame.Common.Int.{ℤ, pos, ◌==ℤ◌, ==ℤ-refl}
use play_frame.Common.Run.{Run, ok, Returns, returns, Returns-bind, Returns-map}
use play_frame.Common.Array.{load-ok}
use play_frame.TimeValue.{TimeValue}
use play_frame.TimeValue.Order.{gte}
use play_frame.TimeValue.Arithmetic.{IsNormal}
use play_frame.HeapTimer.{TimerNode, HeapTimer, is_zero}
use play_frame.HeapTimer.Layout.{slot}
use play_frame.HeapTimer.Settled.{nodes_at}
use play_frame.HeapTimer.Invariant.{Held, IsValid, timer_at}
use play_frame.HeapTimer.Remove.{remove_node-Left}
use play_frame.HeapTimer.Repeat.{rotate_down-Changed}
use play_frame.HeapTimer.Due.{IsInterval, expire_time-later}
use play_frame.HeapTimer.Poll.{is_first, call_back, expire_first, renew}

-- What the callbacks return, and what they make of the state outside.
pub record Callbacks (S : Type 0) : Type 0 where
  pub answer : ℕ → ℤ → ℕ → S → ℤ
  pub next : ℕ → ℤ → ℕ → S → S

-- The timer starts again after its callback has returned `ret`.
abbrev pub restarts : TimerNode → ℤ → Bool
restarts node ret = (ret ==ℤ pos 0) && not (is_zero node.interval_time)

-- The node has started again with a time that is not due, or has left.
abbrev pub Fate : TimeValue → HeapTimer → TimerNode × ℤ → Type 0
Fate now t' (node, ret) =
    ((restarts node ret ≡ true)
      × ((e : TimeValue) × (gte now e ≡ false)
          × (timer_at t' (slot node) ≡ some (record node { expire_time = e }))))
    ⊎ ((restarts node ret ≡ false) × (timer_at t' (slot node) ≡ none))

-- `t'` is `t` after the callback of the timer `x` has returned `ret`.
pub record Served (t : HeapTimer) (now : TimeValue) (node : TimerNode) (ret : ℤ) (t' : HeapTimer)
    : Type 0 where
  pub fate : Fate now t' (node, ret)
  pub others : (i : ℕ) → 0 < i → i < t.heap_size → i ≢ slot node → timer_at t' i ≡ timer_at t i
  pub size : t'.heap_size ≡ t.heap_size
  pub valid : IsValid t'

module _ {S : Type 0} (c : Callbacks S) where
  answer_of : TimerNode → Option ℕ → S → ℤ
  answer_of node none s = pos 0
  answer_of node (some f) s = c.answer f node.timer_id node.argument s

  state_of : TimerNode → Option ℕ → S → S
  state_of node none s = s
  state_of node (some f) s = c.next f node.timer_id node.argument s

  -- The callback of the node, 0 and nothing done where there is none.
  pub callback_answer : TimerNode → S → ℤ
  unfolding answer_of
  callback_answer node s = answer_of node node.cb_obj s

  pub callback_state : TimerNode → S → S
  unfolding state_of
  callback_state node s = state_of node node.cb_obj s

  pub callback_answer-some :
      (node : TimerNode) (f : ℕ) (s : S)
      → node.cb_obj ≡ some f
      → callback_answer node s ≡ c.answer f node.timer_id node.argument s
  unfolding callback_answer answer_of
  callback_answer-some node f s e = rw e

  pub callback_state-some :
      (node : TimerNode) (f : ℕ) (s : S)
      → node.cb_obj ≡ some f
      → callback_state node s ≡ c.next f node.timer_id node.argument s
  unfolding callback_state state_of
  callback_state-some node f s e = rw e

  -- The callbacks, called in this order, with what they return.
  pub data Serves : S → List (TimerNode × ℤ) → S → Type 0 where
    done : {s : S} → Serves s [] s
    serve :
        {s s' : S} (node : TimerNode) {calls : List (TimerNode × ℤ)}
        → Serves (callback_state node s) calls s'
        → Serves s ((node, callback_answer node s) ∷ calls) s'

-- The callback objects leave the timers alone.
abbrev pub IsQuiet :
    {S : Type 0} → Callbacks S → (ℕ → ℤ → ℕ → S → HeapTimer → Run (ℤ × S × HeapTimer)) → Type 0
IsQuiet {S} c execute =
    (f : ℕ) (id : ℤ) (argument : ℕ) (s : S) (t : HeapTimer)
    → execute f id argument s t ≡ ok (c.answer f id argument s, c.next f id argument s, t)

-- The part behind the callback.
renew-Served :
    (t : HeapTimer) (fs : List ℕ) (now : TimeValue) (ret : ℤ)
    → Held t fs
    → 0 < t.cur_size
    → IsNormal now
    → IsInterval (nodes_at t 0).interval_time
    → Returns (Served t now (nodes_at t 0) ret) (renew t now (nodes_at t 0) ret)
unfolding renew
renew-Served t fs now ret v more k interval =
    let node = nodes_at t 0 in
    elim (Bool-cases (restarts node ret)) [
      | inl e ↦ rw e (
          Returns-bind (expire_time-later now node.interval_time k interval (nonzero node ret e))
            λ time not_due. Returns-map (rotate_down-Changed t fs v more time) λ t' d. record {
              fate = inl (e, (time, not_due, d.present));
              others = d.others;
              size = d.size;
              valid = d.valid;
            })
      | inr e ↦ rw e (
          Returns-bind (remove_node-Left t fs v 0 more) λ r l. returns (record {
            fate = inr (e, l.1.absent);
            others = l.1.others;
            size = l.1.size;
            valid = l.1.valid;
          }))
    ]
  where
    nonzero :
        (node : TimerNode) (ret : ℤ) → restarts node ret ≡ true → is_zero node.interval_time ≡ false
    nonzero node ret e = ground arith

module _ {S : Type 0} (c : Callbacks S)
    (execute : ℕ → ℤ → ℕ → S → HeapTimer → Run (ℤ × S × HeapTimer)) (q : IsQuiet c execute) where
  quiet_call :
      (node : TimerNode) (f : Option ℕ) (s : S) (t : HeapTimer)
      → call_back execute node f s t ≡ ok (answer_of c node f s, state_of c node f s, t)
  unfolding call_back answer_of state_of
  quiet_call node none s t = refl
  quiet_call node (some f) s t = q f node.timer_id node.argument s t

  first :
      (t : HeapTimer) (fs : List ℕ)
      → Held t fs
      → 0 < t.cur_size
      → is_first t (nodes_at t 0).timer_id ≡ ok true
  unfolding is_first
  first t fs v more =
      rw (lt→ltb 0 t.cur_size more, load-ok t.heap 0 (omega (arith, v.sized.heap, v.room)))
        (ap ok (==ℤ-refl (nodes_at t 0).timer_id))

  pub expire_first-Served :
      (t : HeapTimer) (fs : List ℕ) (now : TimeValue) (s : S)
      → Held t fs
      → 0 < t.cur_size
      → IsNormal now
      → IsInterval (nodes_at t 0).interval_time
      → Returns
          (λ r.
            (r.0 ≡ callback_state c (nodes_at t 0) s)
            × Served t now (nodes_at t 0) (callback_answer c (nodes_at t 0) s) r.1)
          (expire_first execute s t now (nodes_at t 0))
  unfolding expire_first callback_answer callback_state
  expire_first-Served t fs now s v more k interval =
      let node = nodes_at t 0 in
      rw (quiet_call node node.cb_obj s t, first t fs v more)
        (Returns-bind (renew-Served t fs now (answer_of c node node.cb_obj s) v more k interval)
          λ t' d. returns (refl, d))
