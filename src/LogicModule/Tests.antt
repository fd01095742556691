-- ===== src/LogicModule/Tests.antt =====
-- A login that starts, takes its first step, and runs out of time.
use play_frame.Common.{ℕ, ◌+◌, ◌≡◌, refl, some, none, arith, List, [], ◌∷◌}
use play_frame.Common.Int.{ℤ, pos, negsuc}
use play_frame.Common.Run.{Run, ok, Returns, returns, Returns-inv}
use play_frame.TimeValue.{TimeValue}
use play_frame.TimeValue.Arithmetic.{IsNormal}
use play_frame.HeapTimer.{TimerNode}
use play_frame.HeapTimer.Poll.{timer_poll}
use play_frame.HeapTimer.Serve.{Callbacks}
use play_frame.HeapTimer.PollRound.{Polled}
use play_frame.HeapTimer.Polled.{timer_poll-Polled}
use play_frame.LogicModule
use play_frame.LogicModule.{
  LogicType, LogicData, LogicModule, logic_yield, create_logic, step_proc, proc, update,
}
use play_frame.LogicModule.Sound.{IsSound}
use play_frame.LogicModule.Create.{Created, create_logic-Created}
use play_frame.LogicModule.Proc.{Proceeded, proc-Proceeded}
use play_frame.LogicModule.Update.{Updated, update-Updated}
use play_frame.LogicModule.Start.{
  Commands, Started, on_logic_multi_step_start, on_logic_multi_step_start-Started,
}
use play_frame.LogicModule.Reach.{Reaches, initial, created, Reaches-IsSound}

abbrev unused : ℕ → TimerNode
unused i = record {
  timer_id = negsuc 0;
  expire_time = record { sec = pos 0; usec = pos 0 };
  interval_time = record { sec = pos 0; usec = pos 0 };
  argument = 0;
  cb_obj = none;
}

abbrev empty : LogicModule ℕ
empty = LogicModule.module_init 2 (pos 1_400_000_000) unused

-- A step notes its number; the first one yields.
abbrev steps : LogicType → ℕ → LogicData ℕ → ℕ → List ℕ → Run (ℤ × LogicData ℕ × List ℕ)
steps type i head msg w = ok (logic_yield, record head { step = pos 1 }, i ∷ w)

abbrev commands : Commands
commands = record { quick_reg_req = pos 11; normal_reg_req = pos 12; login_req = pos 13 }

empty-Reaches : Reaches steps empty
empty-Reaches = initial 2 1_400_000_000 unused (omega arith) (omega arith) (omega arith)

empty-IsSound : IsSound empty
empty-IsSound = Reaches-IsSound steps empty empty-Reaches

first_login :
    Returns
      (Created empty (pos 3) 10 (pos 1_400_000_001) 0)
      (create_logic empty (pos 3) (pos 10) (pos 1_400_000_001) (some 0))
first_login =
    create_logic-Created empty LogicModule.login (pos 3) 10 (pos 1_400_000_001) 0 empty-IsSound refl
      (omega arith)

create_logic-Created_example :
    Returns
      (Created empty (pos 3) 10 (pos 1_400_000_001) 0)
      (create_logic empty (pos 3) (pos 10) (pos 1_400_000_001) (some 0))
create_logic-Created_example =
    create_logic-Created empty LogicModule.login (pos 3) 10 (pos 1_400_000_001) 0 empty-IsSound refl
      (omega arith)

abbrev logged : LogicModule ℕ
logged = (Returns-inv first_login).0.1

abbrev id : ℤ
id = (Returns-inv first_login).0.0

abbrev head : LogicData ℕ
head = record { logic_id = id; logic_type = pos 3; step = pos 0; rest = 0 }

logged-Created : Created empty (pos 3) 10 (pos 1_400_000_001) 0 (id, logged)
logged-Created = (Returns-inv first_login).2

abbrev Noted : ℤ × LogicData ℕ × List ℕ → Type 0
Noted r = (r.0 ≡ logic_yield) × (r.2 ≡ 0 ∷ [])

noted : Returns Noted (step_proc steps LogicModule.login head 7 [])
unfolding step_proc
noted = returns (refl, refl)

proc-Proceeded_example : Returns (Proceeded logged id Noted) (proc steps logged id 7 [])
proc-Proceeded_example =
    proc-Proceeded steps logged id head LogicModule.login 7 [] Noted logged-Created.sound
      logged-Created.started refl noted

abbrev now : TimeValue
now = record { sec = pos 1_400_000_020; usec = pos 500 }

now-IsNormal : IsNormal now
now-IsNormal = (omega arith, omega arith)

update-Updated_example : Returns (Updated logged now) (update logged now)
update-Updated_example = update-Updated logged now logged-Created.sound now-IsNormal

on_logic_multi_step_start-Started_example :
    Returns
      (Started steps commands empty (pos 2) (pos 1_400_000_001) 0 Noted)
      (on_logic_multi_step_start steps commands empty (pos 11) 7 (pos 1_400_000_001) (some 0) [])
on_logic_multi_step_start-Started_example =
    on_logic_multi_step_start-Started steps commands empty LogicModule.quick_reg (pos 11) 7
      (pos 1_400_000_001) 0 [] Noted empty-IsSound refl (λ id. returns (refl, refl))

Reaches-IsSound_example : IsSound logged
Reaches-IsSound_example = Reaches-IsSound steps logged (
    created (pos 3) (pos 10) (pos 1_400_000_001) (some 0) empty-Reaches (Returns-inv first_login).1)

-- Callbacks that count and ask for another call.
abbrev counting : Callbacks ℕ
counting = record { answer = λ f id argument s. pos 0; next = λ f id argument s. s + 1 }

timer_poll-Polled_example : Returns (Polled counting logged.heap_timer now 0) (
    timer_poll
      (λ f id argument s t. ok (pos 0, s + 1, t))
      (logged.heap_timer.heap_size + 1)
      0
      logged.heap_timer
      now)
timer_poll-Polled_example =
    timer_poll-Polled counting now (λ f id argument s t. ok (pos 0, s + 1, t))
      (λ f id argument s t. refl) now-IsNormal logged.heap_timer 0 logged-Created.sound.valid
      logged-Created.sound.intervals
