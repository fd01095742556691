-- ===== src/LogicModule/Proc.antt =====
-- Proc runs one step of a logic, which then waits on or ends.
use play_frame.Common.{◌≡◌, ◌≢◌, refl, ◌∙◌, some, inl, inr, ◌⊎◌, true, Bool-cases, ℕ}
use play_frame.Common.Int.{ℤ, ◌==ℤ◌, ==ℤ→eq}
use play_frame.Common.Run.{Run, ok, Returns, returns, Returns-bind, Returns-map}
use play_frame.LogicModule.{
  LogicType, LogicData, LogicModule, find_logic, logic_yield, write, finish, step_proc, proc,
  proc_data, proc_type,
}
use play_frame.LogicModule.Sound.{IsSound, ne→==ℤ}
use play_frame.LogicModule.Ended.{
  Waits, Ended, write-Waits, write-IsSound, write-here, finish-Ended,
}

-- One step has returned `p`: the logic `id` waits on with the data of the step if it has yielded, and
-- has ended otherwise.
pub record Proceeded {D W : Type 0} (m : LogicModule D) (id : ℤ)
    (Post : ℤ × LogicData D × W → Type 0) (r : LogicModule D × W) : Type 0 where
  pub ret : ℤ
  pub head : LogicData D
  pub step : Post (ret, head, r.1)
  pub fate :
      ((ret ≡ logic_yield) × Waits m id head (r.0)) ⊎ ((ret ≢ logic_yield) × Ended m id (r.0))

pub Proceeded-IsSound :
    {D W : Type 0} (m : LogicModule D) (id : ℤ) (Post : ℤ × LogicData D × W → Type 0)
    (r : LogicModule D × W)
    → Proceeded m id Post r
    → IsSound (r.0)
Proceeded-IsSound m id Post r p = elim p.fate [
  | inl (e, waits) ↦ waits.sound
  | inr (e, ended) ↦ ended.sound
]

module _ {D : Type 0} (m : LogicModule D) (v : IsSound m) (id : ℤ) (head old : LogicData D)
    (at : m.logic_data_map id ≡ some old) where
  abbrev written : LogicModule D
  written = record m { logic_data_map = write m.logic_data_map id head }

  Ended-written : (m' : LogicModule D) → Ended written id m' → Ended m id m'
  Ended-written m' e = record {
    gone = e.gone;
    others = λ k ne. e.others k ne ∙ rw (ne→==ℤ k id ne);
    no_timer = e.no_timer;
    timers = e.timers;
    sound = e.sound;
  }

  finish-fate :
      (ret : ℤ)
      → Returns
          (λ m'. ((ret ≡ logic_yield) × Waits m id head m') ⊎ ((ret ≢ logic_yield) × Ended m id m'))
          (finish written id ret)
  unfolding finish
  finish-fate ret = elim (Bool-cases (ret ==ℤ logic_yield)) [
    | inl e ↦ rw e (returns (inl (==ℤ→eq ret logic_yield e, write-Waits m v id head old at)))
    | inr e ↦
        Returns-map
          (finish-Ended written (write-IsSound m v id head old at) id head ret
            (write-here m v id head) e)
          λ m' d. inr (
            λ q. let f : (ret ==ℤ logic_yield) ≡ true = rw q refl in absurd (cc),
            Ended-written m' d,
          )
  ]

module _ {D M W : Type 0}
    (steps : LogicType → ℕ → LogicData D → M → W → Run (ℤ × LogicData D × W)) where
  -- Proc of a logic of a known type, whose step returns: the logic waits on, with the data that the
  -- step has left, if the step has yielded. Otherwise it has ended, and its timer too. No other logic
  -- has changed, and the logics that wait are again those with a timer.
  pub proc-Proceeded :
      (m : LogicModule D) (id : ℤ) (head : LogicData D) (type : LogicType) (msg : M) (w : W)
      (Post : ℤ × LogicData D × W → Type 0)
      → IsSound m
      → m.logic_data_map id ≡ some head
      → find_logic head.logic_type ≡ some type
      → Returns Post (step_proc steps type head msg w)
      → Returns (Proceeded m id Post) (proc steps m id msg w)
  unfolding proc proc_data proc_type
  proc-Proceeded m id head type msg w Post v at known step =
      rw (at, known)
        (Returns-bind step λ r p.
          Returns-bind (finish-fate m v id (r.1) head at (r.0))
            λ m' f. returns (record { ret = r.0; head = r.1; step = p; fate = f }))

  -- Proc for a logic that has ended changes nothing: an answer that comes late is dropped.
  pub proc_late :
      (m m' : LogicModule D) (id : ℤ) (msg : M) (w : W)
      → Ended m id m'
      → proc steps m' id msg w ≡ ok (m', w)
  unfolding proc proc_data
  proc_late m m' id msg w e = rw e.gone
