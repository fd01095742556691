-- ===== src/HeapTimer/Tests.antt =====
-- Timers in a small heap, and the theorems applied to them.
use play_frame.Common.{◌+◌, ◌*◌, ◌^◌, arith, ℕ, ◌≡◌, refl, some, none}
use play_frame.Common.Int.{pos, negsuc}
use play_frame.Common.Run.{ok, ◌>>=◌, Returns, Returns-inv}
use play_frame.TimeValue.{TimeValue}
use play_frame.HeapTimer.{
  TimerNode, HeapTimer, init, register_timer, unregister_timer, first_timeout,
}
use play_frame.HeapTimer.Invariant.{IsValid, timer_at}
use play_frame.HeapTimer.Register.{Registered, register_correct}
use play_frame.HeapTimer.Remove.{Left}
use play_frame.HeapTimer.Unregister.{
  unregister_correct, unregister-stale, Same, register-unregister,
}
use play_frame.HeapTimer.Create.{init-IsValid, IsEarliest, first_timeout-IsEarliest}

abbrev second : TimeValue
second = record { sec = pos 1; usec = pos 0 }

abbrev a_while : TimeValue
a_while = record { sec = pos 2; usec = pos 500_000 }

abbrev garbage : ℕ → TimerNode
garbage i = record {
  timer_id = negsuc 0;
  expire_time = second;
  interval_time = second;
  argument = 0;
  cb_obj = none;
}

-- Room for two timers, so that the second makes the heap grow.
abbrev empty : HeapTimer
empty = init 2 (pos 1_400_000_000) garbage

empty-IsValid : IsValid empty
empty-IsValid = (init-IsValid 2 1_400_000_000 garbage (omega arith) (omega arith) (omega arith)).0

empty-none : (i : ℕ) → timer_at empty i ≡ none
empty-none = (init-IsValid 2 1_400_000_000 garbage (omega arith) (omega arith) (omega arith)).1

register_correct_example :
    Returns
      (Registered empty second a_while (some 7) 5 (pos 1_400_000_001))
      (register_timer empty second a_while (some 7) 5 (pos 1_400_000_001))
register_correct_example =
    register_correct empty second a_while (some 7) 5 (pos 1_400_000_001) empty-IsValid refl
      (omega arith)

first_timer :
    Returns
      (Registered empty second a_while (some 7) 5 (pos 1_400_000_001))
      (register_timer empty second a_while (some 7) 5 (pos 1_400_000_001))
first_timer =
    register_correct empty second a_while (some 7) 5 (pos 1_400_000_001) empty-IsValid refl
      (omega arith)

-- The heap with one timer.
abbrev single : HeapTimer
single = (Returns-inv first_timer).0.1

single-IsValid : IsValid single
single-IsValid = (Returns-inv first_timer).2.joined.valid

first_timeout-IsEarliest_example : Returns (IsEarliest single) (first_timeout single)
first_timeout-IsEarliest_example = first_timeout-IsEarliest single single-IsValid

first_node :
    Registered empty second a_while (some 7) 5 (pos 1_400_000_001) (Returns-inv first_timer).0
first_node = (Returns-inv first_timer).2

unregister_correct_example :
    Returns (Left single first_node.place) (unregister_timer single first_node.node.timer_id)
unregister_correct_example =
    unregister_correct single first_node.place first_node.node single-IsValid first_node.low
      (omega (arith, first_node.high, first_node.joined.size)) first_node.joined.present

-- The id of a timer that never was.
unregister-stale_example : unregister_timer empty (pos (1 * 2 ^ 32 + 5)) ≡ ok empty
unfolding init
unregister-stale_example =
    unregister-stale empty 1 5 empty-IsValid (omega arith) (omega arith) (omega arith)
      (λ node e. absurd (let f = empty-none 1 in cc))

register-unregister_example : Returns (Same empty) (
    register_timer empty second a_while (some 7) 5 (pos 1_400_000_001) >>= λ r.
    unregister_timer r.1 r.0)
register-unregister_example =
    register-unregister empty second a_while (some 7) 5 (pos 1_400_000_001) empty-IsValid refl
      (omega arith)
