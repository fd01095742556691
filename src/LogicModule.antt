-- ===== src/LogicModule.antt =====
-- src/gamesvr/logic_module/logic_module.h and logic_module.cpp, with logic/logic_base.h: the logics
-- of the game server, which run in steps and wait for answers in between, each with a timer that ends
-- it. A `void*` of a logic is its entry in the map, and the map a function. The step functions are
-- the argument `steps`, on the data `D` behind the head, a message with its arguments `M`, and the
-- rest `W` of the server; they reach neither the map nor the timers.
pub mod Sound
pub mod Create
pub mod Ended
pub mod Proc
pub mod Calls
pub mod Update
pub mod Start
pub mod Reach
mod Tests
use play_frame.Common.{ℕ, Bool, ◌||◌, not, Option, none, some, if◌then◌else◌, ◌==◌, ◌+◌}
use play_frame.Common.Int.{ℤ, pos, negsuc, ltb_ℤ, leb_ℤ, ◌==ℤ◌}
use play_frame.Common.Run.{Run, ok, ◌>>=◌}
use play_frame.Common.Array.{index}
use play_frame.TimeValue
use play_frame.TimeValue.{TimeValue}
use play_frame.HeapTimer
use play_frame.HeapTimer.{TimerNode, HeapTimer, register_timer, unregister_timer}
use play_frame.HeapTimer.Poll.{timer_poll}

abbrev pub logic_failed : ℤ
logic_failed = negsuc 0

abbrev pub logic_yield : ℤ
logic_yield = pos 0

pub data LogicType : Type 0 where
  normal_reg quick_reg login update_player : LogicType

-- LogicDataHead, and what stands behind it.
pub record LogicData (D : Type 0) : Type 0 where
  pub logic_id : ℤ
  pub logic_type : ℤ
  pub step : ℤ
  pub rest : D

pub record LogicModule (D : Type 0) : Type 0 where
  pub heap_timer : HeapTimer
  pub logic_data_map : ℤ → Option (LogicData D)

-- The keys of `logic_type_map` and of `logic_data_size_map`, as ModuleInit fills them.
abbrev pub find_logic : ℤ → Option LogicType
find_logic (negsuc n) = none
find_logic (pos n) =
    if n == 1
    then some normal_reg
    else if n == 2
    then some quick_reg
    else if n == 3
    then some login
    else if n == 4
    then some update_player
    else none

-- `logic_func_vec_.size()`, as the constructors of the logics fill it.
abbrev pub func_count : LogicType → ℕ
func_count login = 3
func_count normal_reg = 2
func_count quick_reg = 2
func_count update_player = 2

-- `insert` of a map does nothing where the key is taken.
abbrev pub keep_old {ℓ} : {A : Type ℓ} → Option A → A → Option A
keep_old none v = some v
keep_old (some old) v = some old

-- The timer of a logic, which is the id of the logic; a logic that does not wait has the id 0. The
-- module itself is the callback object 0.
unfoldable pub start_timer : HeapTimer → ℤ → ℤ → Run (ℤ × HeapTimer)
start_timer t task_delay_secs time =
    if ltb_ℤ (pos 0) task_delay_secs
    then (do
      delay ← TimeValue.set task_delay_secs (pos 0)
      register_timer t delay delay (some 0) 0 time)
    else ok (pos 0, t)

module _ {D : Type 0} where
  -- `insert`, `erase`, and a change of the object that an entry points to.
  abbrev pub insert : (ℤ → Option (LogicData D)) → ℤ → LogicData D → ℤ → Option (LogicData D)
  insert map id head k = if k ==ℤ id then keep_old (map id) head else map k

  abbrev pub erase : (ℤ → Option (LogicData D)) → ℤ → ℤ → Option (LogicData D)
  erase map id k = if k ==ℤ id then none else map k

  abbrev pub write : (ℤ → Option (LogicData D)) → ℤ → LogicData D → ℤ → Option (LogicData D)
  write map id head k = if k ==ℤ id then some head else map k

  -- DeleteLogicData and GetLogicData.
  abbrev pub delete_logic_data : LogicModule D → ℤ → LogicModule D
  delete_logic_data m logic_id = record m { logic_data_map = erase m.logic_data_map logic_id }

  abbrev pub get_logic_data : LogicModule D → ℤ → Option (LogicData D)
  get_logic_data m logic_id = m.logic_data_map logic_id

  -- CreateLogic at the time `time`. `memory` is what `malloc` gives, with its uninitialised bytes.
  create_known : LogicModule D → ℤ → ℤ → ℤ → Option D → Run (ℤ × LogicModule D)
  unfolding start_timer
  create_known m logic_type task_delay_secs time none = ok (negsuc 0, m)
  create_known m logic_type task_delay_secs time (some rest) = do
    (logic_id, t) ← start_timer m.heap_timer task_delay_secs time
    let head : LogicData D = record {
      logic_id = logic_id;
      logic_type = logic_type;
      step = pos 0;
      rest = rest;
    }
    ok (logic_id, record { heap_timer = t; logic_data_map = insert m.logic_data_map logic_id head })

  create_found : Option LogicType → LogicModule D → ℤ → ℤ → ℤ → Option D → Run (ℤ × LogicModule D)
  unfolding create_known
  create_found none m logic_type task_delay_secs time memory = ok (negsuc 0, m)
  create_found (some _) m logic_type task_delay_secs time memory =
      create_known m logic_type task_delay_secs time memory

  unfoldable pub create_logic : LogicModule D → ℤ → ℤ → ℤ → Option D → Run (ℤ × LogicModule D)
  unfolding create_found
  create_logic m logic_type task_delay_secs time memory =
      create_found (find_logic logic_type) m logic_type task_delay_secs time memory

  -- ModuleInit, with the size from the configuration. The maps of the types are `find_logic` and
  -- `func_count`.
  unfoldable pub module_init : ℕ → ℤ → (ℕ → TimerNode) → LogicModule D
  module_init logic_timer_init_size time garbage = record {
    heap_timer = HeapTimer.init logic_timer_init_size time garbage;
    logic_data_map = λ id. none;
  }

  -- OnTimer, as the timers call it: it returns -1.
  abbrev pub on_timer :
      ℕ
      → ℤ
      → ℕ
      → (ℤ → Option (LogicData D))
      → HeapTimer
      → Run (ℤ × (ℤ → Option (LogicData D)) × HeapTimer)
  on_timer cb_obj logic_id argument map t = ok (negsuc 0, erase map logic_id, t)

  -- Update at the time `now`, with as many rounds as there are places for timers, and one.
  unfoldable pub update : LogicModule D → TimeValue → Run (LogicModule D)
  update m now = do
    (map, t) ← timer_poll on_timer ((m.heap_timer).heap_size + 1) m.logic_data_map m.heap_timer now
    ok (record { heap_timer = t; logic_data_map = map })

  -- The end of Proc: a logic that does not yield is deleted, and its timer too.
  unfoldable pub finish : LogicModule D → ℤ → ℤ → Run (LogicModule D)
  finish m logic_id ret = if ret ==ℤ logic_yield then ok m else do
    let m' = delete_logic_data m logic_id
    if logic_id ==ℤ pos 0
        then ok m'
        else do t ← unregister_timer m'.heap_timer logic_id; ok (record m' { heap_timer = t })

  module _ {M W : Type 0}
      (steps : LogicType → ℕ → LogicData D → M → W → Run (ℤ × LogicData D × W)) where
    -- LogicBase::Proc.
    unfoldable pub step_proc : LogicType → LogicData D → M → W → Run (ℤ × LogicData D × W)
    step_proc type head msg w =
        if ltb_ℤ head.step (pos 0) || leb_ℤ (pos (func_count type)) head.step
        then ok (logic_failed, head, w)
        else do i ← index head.step; steps type i head msg w

    proc_type : Option LogicType → LogicModule D → ℤ → LogicData D → M → W → Run (LogicModule D × W)
    unfolding step_proc finish
    proc_type none m logic_id head msg w = ok (m, w)
    proc_type (some type) m logic_id head msg w = do
      (ret, head', w') ← step_proc type head msg w
      m' ← finish (record m { logic_data_map = write m.logic_data_map logic_id head' }) logic_id ret
      ok (m', w')

    proc_data : Option (LogicData D) → LogicModule D → ℤ → M → W → Run (LogicModule D × W)
    unfolding proc_type
    proc_data none m logic_id msg w = ok (m, w)
    proc_data (some head) m logic_id msg w =
        proc_type (find_logic head.logic_type) m logic_id head msg w

    -- Proc.
    unfoldable pub proc : LogicModule D → ℤ → M → W → Run (LogicModule D × W)
    unfolding proc_data
    proc m logic_id msg w = proc_data (get_logic_data m logic_id) m logic_id msg w
