-- ===== src/HeapTimer/Polled.antt =====
-- TimerPoll calls exactly the timers that are due, where the callbacks leave the timers alone.
use play_frame.Common.{
  ℕ, zero, suc, ◌+◌, ◌-◌, ◌<◌, ◌≡◌, refl, false, arith, [], ltb, ltb→lt, ltb_false→le,
}
use play_frame.Common.Int.{ℤ}
use play_frame.Common.Run.{Run, Returns, returns, Returns-if, Returns-bind, Returns-map}
use play_frame.Common.Array.{load-ok}
use play_frame.TimeValue.{TimeValue}
use play_frame.TimeValue.Order.{gte}
use play_frame.TimeValue.Arithmetic.{IsNormal}
use play_frame.HeapTimer.{HeapTimer}
use play_frame.HeapTimer.Layout.{slot}
use play_frame.HeapTimer.Settled.{nodes_at}
use play_frame.HeapTimer.Invariant.{IsValid, timer_at}
use play_frame.HeapTimer.Due.{is_due, due_count, due_count_bound, idle}
use play_frame.HeapTimer.Poll.{timer_poll}
use play_frame.HeapTimer.Serve.{Callbacks, done, callback_state, IsQuiet, expire_first-Served}
use play_frame.HeapTimer.PollRound.{Polled, HasIntervals, at_first, fewer, intervals, before}

module _ {S : Type 0} (c : Callbacks S) (now : TimeValue) where
  -- No timer is due.
  unchanged :
      (t : HeapTimer) (s : S)
      → IsValid t
      → ((i : ℕ) → 0 < i → i < t.heap_size → is_due now (timer_at t i) ≡ false)
      → Polled c t now s (s, t)
  unchanged t s v none_due = record {
    calls = [];
    serves = done;
    sorted = tt;
    once = tt;
    due = tt;
    complete = λ i lo hi h. let n = none_due i lo hi in absurd (cc);
    fates = tt;
    others = λ i lo hi h. refl;
    none_due = none_due;
    size = refl;
    valid = v;
  }

  module _ (execute : ℕ → ℤ → ℕ → S → HeapTimer → Run (ℤ × S × HeapTimer)) (q : IsQuiet c execute)
      (k : IsNormal now) where
    poll-Polled :
        (fuel : ℕ) (t : HeapTimer) (s : S)
        → IsValid t
        → HasIntervals t
        → due_count now (timer_at t) (t.heap_size - 1) < fuel
        → Returns (Polled c t now s) (timer_poll execute fuel s t now)
    unfolding timer_poll
    poll-Polled zero t s v h f = absurd (omega arith)
    poll-Polled (suc fuel) t s (fs, v) h f =
        Returns-if (ltb 0 t.cur_size)
          (λ e.
            let more = ltb→lt 0 t.cur_size e in
            rw (load-ok t.heap 0 (omega (arith, v.sized.heap, v.room))) (
              Returns-if (gte now (nodes_at t 0).expire_time)
                (λ due.
                  Returns-bind
                    (expire_first-Served c execute q t fs now s v more k (
                      h (slot (nodes_at t 0)) (nodes_at t 0) (v.layout.low 0 more)
                        (v.layout.high 0 more) (at_first t fs v more)))
                    λ r d.
                      let less = fewer c now t fs v more due s (r.1) (d.1) in
                      rw d.0 (
                        Returns-map
                          (poll-Polled fuel (r.1) (callback_state c (nodes_at t 0) s) (d.1).valid
                            (intervals c now t fs v more due s (r.1) (d.1) h)
                            (omega (arith, less, f)))
                          λ r' p. before c now t fs v more due s (r.1) (d.1) r' p))
                (λ early. returns (unchanged t s (fs, v) (idle t now fs v λ m. early)))))
          (λ e.
            let z = ltb_false→le 0 t.cur_size e in
            returns (unchanged t s (fs, v) (idle t now fs v λ m. absurd (omega arith))))

    -- TimerPoll of valid timers at a normal time, where the callbacks leave the timers alone and no
    -- interval is negative, ends within as many rounds as there are places. It has called exactly
    -- the timers due, each once, the earliest first. Each of them has started again, with a time
    -- behind `now`, if its callback returned 0 and its interval is not 0, and has left otherwise; all
    -- other timers are as they were, none is due any more, and the timers are valid.
    pub timer_poll-Polled :
        (t : HeapTimer) (s : S)
        → IsValid t
        → HasIntervals t
        → Returns (Polled c t now s) (timer_poll execute (t.heap_size + 1) s t now)
    timer_poll-Polled t s v h =
        poll-Polled (t.heap_size + 1) t s v h
          (omega (arith, due_count_bound now (timer_at t) (t.heap_size - 1)))
