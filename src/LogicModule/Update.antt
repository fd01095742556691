-- ===== src/LogicModule/Update.antt =====
-- Update ends the logics whose time is over.
use play_frame.Common.{
  ℕ, ◌<◌, ◌≡◌, refl, sym, ap, ◌∙◌, some, none, arith, Option, inl, inr, true, false, All,
  All-weaken, All-both, Bool-cases,
}
use play_frame.Common.Int.{ℤ, pos, negsuc}
use play_frame.Common.Run.{Returns, returns, Returns-bind}
use play_frame.TimeValue.{TimeValue}
use play_frame.TimeValue.Order.{gte}
use play_frame.TimeValue.Arithmetic.{IsNormal}
use play_frame.HeapTimer.{TimerNode, HeapTimer}
use play_frame.HeapTimer.Layout.{slot}
use play_frame.HeapTimer.Invariant.{timer_at}
use play_frame.HeapTimer.Due.{is_due}
use play_frame.HeapTimer.Serve.{Fate, restarts}
use play_frame.HeapTimer.PollRound.{Polled, IsDue}
use play_frame.HeapTimer.Polled.{timer_poll-Polled}
use play_frame.LogicModule.{LogicData, LogicModule, on_timer, update}
use play_frame.LogicModule.Sound.{Timer, IsSound, Timer-unique, Timer-nonzero}
use play_frame.LogicModule.Calls.{
  deletion, due_node, called, calls-some, calls-kept, calls-gone, calls-answer,
}

-- The logics whose timers were due at `now` are gone, with their timers. No other logic has changed.
pub record Updated {D : Type 0} (m : LogicModule D) (now : TimeValue) (m' : LogicModule D)
    : Type 0 where
  pub expired :
      (id : ℤ) (i : ℕ) (r : Timer m.heap_timer id i)
      → gte now r.node.expire_time ≡ true
      → (m'.logic_data_map id ≡ none) × (timer_at m'.heap_timer i ≡ none)
  pub waiting :
      (id : ℤ) (i : ℕ) (r : Timer m.heap_timer id i)
      → gte now r.node.expire_time ≡ false
      → (m'.logic_data_map id ≡ m.logic_data_map id) × (timer_at m'.heap_timer i ≡ some r.node)
  pub without_timer : m'.logic_data_map (pos 0) ≡ m.logic_data_map (pos 0)
  pub sound : IsSound m'

module _ {D : Type 0} (m : LogicModule D) (v : IsSound m) (now : TimeValue)
    (r : (ℤ → Option (LogicData D)) × HeapTimer)
    (p : Polled (deletion D) m.heap_timer now m.logic_data_map r) where
  abbrev t : HeapTimer
  t = m.heap_timer

  abbrev t' : HeapTimer
  t' = r.1

  abbrev timer_of : (node : TimerNode) → IsDue t now node → Timer t node.timer_id (slot node)
  timer_of node (lo, hi, at, due) = record {
    node = node;
    low = lo;
    high = hi;
    at = at;
    named = refl;
  }

  same_node :
      (id : ℤ) (i : ℕ) (u : Timer t id i) (node : TimerNode)
      → IsDue t now node
      → slot node ≡ i
      → node ≡ u.node
  same_node id i u node (lo, hi, at, due) q =
      let a : timer_at t i ≡ some node = rw (← q) at in let b = u.at in cc

  own : All (λ d. (d.0).cb_obj ≡ some 0) p.calls
  own = All-weaken _ _ p.calls (λ d (lo, hi, at, due). v.own (slot (d.0)) (d.0) lo hi at) p.due

  Fate-gone :
      (node : TimerNode) (ret : ℤ)
      → ret ≡ negsuc 0
      → Fate now t' (node, ret)
      → timer_at t' (slot node) ≡ none
  Fate-gone node ret e (inl (f, rest)) =
      absurd (let g : restarts node ret ≡ false = rw e refl in cc)
  Fate-gone node ret e (inr (f, none_left)) = none_left

  expired :
      (id : ℤ) (i : ℕ) (u : Timer t id i)
      → gte now u.node.expire_time ≡ true
      → (r.0 id ≡ none) × (timer_at t' i ≡ none)
  expired id i u due =
      let e = p.complete i u.low u.high (rw u.at due) in
      let (d, same, (f, ret)) =
        called i p.calls e (All-both _ _ p.calls p.fates (calls-answer p.serves own)) in
      (
        calls-gone id i p.serves own
            (All-weaken _ _ p.calls
              (λ c h q. ap (λ (y : TimerNode). y.timer_id) (same_node id i u (c.0) h q) ∙ u.named)
              p.due)
            e,
        rw (← same) (Fate-gone (d.0) (d.1) ret f),
      )

  waiting :
      (id : ℤ) (i : ℕ) (u : Timer t id i)
      → gte now u.node.expire_time ≡ false
      → (r.0 id ≡ m.logic_data_map id) × (timer_at t' i ≡ some u.node)
  waiting id i u early =
      let not_due : is_due now (timer_at t i) ≡ false = rw u.at early in
      (
        calls-kept id p.serves own (
            All-weaken _ _ p.calls
              (λ c h q.
                let place =
                  Timer-unique t id (slot (c.0)) i v.valid (rw (← q) (timer_of (c.0) h)) u in
                let same = same_node id i u (c.0) h place in
                let late : gte now u.node.expire_time ≡ true = rw (← same) (h.3) in absurd (cc))
              p.due),
        p.others i u.low u.high not_due ∙ u.at,
      )

  without_timer : r.0 (pos 0) ≡ m.logic_data_map (pos 0)
  without_timer = calls-kept (pos 0) p.serves own (
      All-weaken _ _ p.calls
        (λ c h q. Timer-nonzero t (c.0).timer_id (slot (c.0)) v.valid (timer_of (c.0) h) q) p.due)

  -- A timer that is left was there before, and not due.
  left_old :
      (k : ℤ) (i : ℕ) → Timer t' k i → (u : Timer t k i) × (gte now u.node.expire_time ≡ false)
  left_old k i u' =
      let h = u'.high in
      let inside : i < t.heap_size = omega (arith, p.size) in
      elim (Bool-cases (is_due now (timer_at t i))) [
        | inr e ↦
            let at = sym (p.others i u'.low inside e) ∙ u'.at in
            (
              record { node = u'.node; low = u'.low; high = inside; at = at; named = u'.named },
              rw at at e,
            )
        | inl e ↦
            let (node, at, due) = due_node now (timer_at t i) e in
            let u : Timer t node.timer_id i = record {
              node = node;
              low = u'.low;
              high = inside;
              at = at;
              named = refl;
            } in
            let gone = (expired node.timer_id i u due).1 in let present = u'.at in absurd (cc)
      ]

  updated : IsSound (record { heap_timer = t'; logic_data_map = r.0 })
  updated = record {
    valid = p.valid;
    intervals = λ i node lo hi at.
        let (u, e) =
          left_old node.timer_id i
            (record { node = node; low = lo; high = hi; at = at; named = refl }) in
        let b = p.others i lo u.high (rw u.at e) in v.intervals i node lo u.high (sym b ∙ at);
    own = λ i node lo hi at.
        let (u, e) =
          left_old node.timer_id i
            (record { node = node; low = lo; high = hi; at = at; named = refl }) in
        let b = p.others i lo u.high (rw u.at e) in v.own i node lo u.high (sym b ∙ at);
    tracks = record {
      known = λ k d e nz.
          let (i, u) = v.tracks.known k d (calls-some k d p.serves own e) nz in
          elim (Bool-cases (gte now u.node.expire_time)) [
            | inl due ↦ let gone = (expired k i u due).0 in absurd (cc)
            | inr early ↦
                let h = u.high in
                (
                  i,
                  record {
                    node = u.node;
                    low = u.low;
                    high = omega (arith, p.size);
                    at = (waiting k i u early).1;
                    named = u.named;
                  },
                )
          ];
      waiting = λ k i u'.
          let (u, early) = left_old k i u' in
          let (d, e) = v.tracks.waiting k i u in (d, (waiting k i u early).0 ∙ e);
    };
  }

-- Update at a normal time ends: exactly the logics whose timers were due are gone, with their timers,
-- and every other logic and timer is as it was. The logics that wait are again those with a timer.
pub update-Updated :
    {D : Type 0} (m : LogicModule D) (now : TimeValue)
    → IsSound m
    → IsNormal now
    → Returns (Updated m now) (update m now)
unfolding update
update-Updated {D} m now v k =
    Returns-bind
      (timer_poll-Polled (deletion D) now on_timer (λ f id argument map t. refl) k m.heap_timer
        m.logic_data_map v.valid v.intervals)
      λ r p. returns (record {
        expired = expired m v now r p;
        waiting = waiting m v now r p;
        without_timer = without_timer m v now r p;
        sound = updated m v now r p;
      })
