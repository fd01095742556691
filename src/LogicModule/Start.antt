-- ===== src/LogicModule/Start.antt =====
-- The handlers of src/gamesvr/msg_module/msg_module.cpp that start and resume logics. The numbers of
-- the commands are those of the generated protocol; `W` is the rest of the server.
use play_frame.Common.{◌≡◌, refl, some, Option, if◌then◌else◌, ℕ, arith}
use play_frame.Common.Int.{ℤ, pos, negsuc, leb_ℤ, ◌==ℤ◌}
use play_frame.Common.Run.{Run, ok, ◌>>=◌, Returns, returns, Returns-bind}
use play_frame.LogicModule
use play_frame.LogicModule.{
  LogicType, LogicData, LogicModule, find_logic, step_proc, proc, create_logic, insert,
}
use play_frame.LogicModule.Sound.{IsSound}
use play_frame.LogicModule.Create.{Created, create_logic-Created}
use play_frame.LogicModule.Proc.{Proceeded, proc-Proceeded}

pub record Commands : Type 0 where
  pub quick_reg_req : ℤ
  pub normal_reg_req : ℤ
  pub login_req : ℤ

-- `cmd_logic_type_map_[cmd]`, as ModuleInit fills it: 0 for a key that is not there.
abbrev pub cmd_logic_type : Commands → ℤ → ℤ
cmd_logic_type c cmd =
    if cmd ==ℤ c.quick_reg_req
    then pos 2
    else if cmd ==ℤ c.normal_reg_req
    then pos 1
    else if cmd ==ℤ c.login_req
    then pos 3
    else pos 0

module _ {D M W : Type 0} (steps : LogicType → ℕ → LogicData D → M → W → Run (ℤ × LogicData D × W))
    (c : Commands) where
  -- OnLogicOneStepStart and OnLogicMultiStepStart differ in the delay. `memory` is what `malloc`
  -- gives.
  start : ℤ → LogicModule D → ℤ → M → ℤ → Option D → W → Run (ℤ × LogicModule D × W)
  start delay m cmd msg time memory w = do
    (logic_id, m') ← create_logic m (cmd_logic_type c cmd) delay time memory
    if leb_ℤ logic_id (pos 0)
        then ok (negsuc 0, m', w)
        else do (m'', w') ← proc steps m' logic_id msg w; ok (pos 0, m'', w')

  unfoldable pub on_logic_one_step_start :
      LogicModule D → ℤ → M → ℤ → Option D → W → Run (ℤ × LogicModule D × W)
  unfolding start
  on_logic_one_step_start m cmd msg time memory w = start (pos 0) m cmd msg time memory w

  unfoldable pub on_logic_multi_step_start :
      LogicModule D → ℤ → M → ℤ → Option D → W → Run (ℤ × LogicModule D × W)
  unfolding start
  on_logic_multi_step_start m cmd msg time memory w = start (pos 10) m cmd msg time memory w

  -- OnLogicMultiStepResume: the sequence number of the answer is the id.
  unfoldable pub on_logic_multi_step_resume :
      LogicModule D → ℤ → M → W → Run (ℤ × LogicModule D × W)
  on_logic_multi_step_resume m seq msg w = do (m', w') ← proc steps m seq msg w; ok (pos 0, m', w')

  -- The first step is in range for every type.
  step_proc-first :
      (type : LogicType) (head : LogicData D) (msg : M) (w : W)
      → head.step ≡ pos 0
      → step_proc steps type head msg w ≡ steps type 0 head msg w
  unfolding step_proc
  step_proc-first LogicModule.normal_reg head msg w e = rw e refl
  step_proc-first LogicModule.quick_reg head msg w e = rw e refl
  step_proc-first LogicModule.login head msg w e = rw e refl
  step_proc-first LogicModule.update_player head msg w e = rw e refl

  -- The new logic, and its first step.
  pub record Started (m : LogicModule D) (logic_type : ℤ) (time : ℤ) (rest : D)
      (Post : ℤ × LogicData D × W → Type 0) (r : ℤ × LogicModule D × W) : Type 1 where
    pub ret : r.0 ≡ pos 0
    pub logic_id : ℤ
    pub between : LogicModule D
    pub created : Created m logic_type 10 time rest (logic_id, between)
    pub proceeded : Proceeded between logic_id Post (r.1, r.2)

  -- OnLogicMultiStepStart for a command of a logic, with memory, and where the first step returns:
  -- it returns 0. A logic with an id that was free has run its first step; it waits on with a timer of
  -- ten seconds if that step has yielded, and has ended with its timer otherwise.
  pub on_logic_multi_step_start-Started :
      (m : LogicModule D) (type : LogicType) (cmd : ℤ) (msg : M) (time : ℤ) (rest : D) (w : W)
      (Post : ℤ × LogicData D × W → Type 0)
      → IsSound m
      → find_logic (cmd_logic_type c cmd) ≡ some type
      → ((id : ℤ)
          → Returns Post (
              steps type 0
                (record {
                  logic_id = id;
                  logic_type = cmd_logic_type c cmd;
                  step = pos 0;
                  rest = rest;
                })
                msg
                w))
      → Returns
          (Started m (cmd_logic_type c cmd) time rest Post)
          (on_logic_multi_step_start m cmd msg time (some rest) w)
  unfolding on_logic_multi_step_start start
  on_logic_multi_step_start-Started m type cmd msg time rest w Post v found step =
      Returns-bind
        (create_logic-Created m type (cmd_logic_type c cmd) 10 time rest v found (omega arith))
        λ r g.
          let known : Returns Post (step_proc steps type (first (r.0)) msg w) =
            rw (step_proc-first type (first (r.0)) msg w refl) (step (r.0)) in
          rw g.positive (
            Returns-bind
              (proc-Proceeded steps (r.1) (r.0) (first (r.0)) type msg w Post g.sound g.started
                found known)
              λ r' p.
                returns (record {
                  ret = refl;
                  logic_id = r.0;
                  between = r.1;
                  created = g;
                  proceeded = p;
                }))
    where
      first : ℤ → LogicData D
      first id = record {
        logic_id = id;
        logic_type = cmd_logic_type c cmd;
        step = pos 0;
        rest = rest;
      }
