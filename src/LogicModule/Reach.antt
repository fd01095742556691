-- ===== src/LogicModule/Reach.antt =====
-- The states that the logics come to by any sequence of calls.
use play_frame.Common.{
  ℕ, ◌<◌, ◌≡◌, refl, some, none, inl, inr, Option, Option-cases, ◌⊎◌, Bool-cases, ltb, ltb→lt,
  false, arith,
}
use play_frame.Common.Int.{ℤ, pos, ltb_ℤ, negsuc}
use play_frame.Common.Run.{Run, ok, Returns, returns, Returns-map, Returns-ok, ok-bind}
use play_frame.Random.{modulus}
use play_frame.TimeValue.{TimeValue}
use play_frame.TimeValue.Arithmetic.{IsNormal}
use play_frame.HeapTimer.{TimerNode}
use play_frame.HeapTimer.Create.{init-IsValid}
use play_frame.LogicModule.{
  LogicType, LogicData, LogicModule, find_logic, insert, module_init, create_logic, create_found,
  create_known, start_timer, step_proc, proc, proc_data, proc_type, update,
}
use play_frame.LogicModule.Sound.{IsSound, Timer-nonzero, same_key}
use play_frame.LogicModule.Create.{create_logic-Created}
use play_frame.LogicModule.Proc.{Proceeded-IsSound, proc-Proceeded}
use play_frame.LogicModule.Update.{update-Updated}

delay_cases : (delay : ℤ) → (ltb_ℤ (pos 0) delay ≡ false) ⊎ ((n : ℕ) × (delay ≡ pos n) × (0 < n))
delay_cases (negsuc n) = inl (ground arith)
delay_cases (pos n) = elim (Bool-cases (ltb 0 n)) [
  | inl e ↦ inr (n, refl, ltb→lt 0 n e)
  | inr e ↦ inl (ground arith)
]

module _ {D : Type 0} where
  -- ModuleInit makes sound logics, of which there are none.
  module_init-IsSound :
      (size time : ℕ) (garbage : ℕ → TimerNode)
      → 0 < size
      → 0 < time
      → time < modulus
      → IsSound (module_init {D = D} size (pos time) garbage)
  unfolding module_init
  module_init-IsSound size time garbage room lo hi =
      let (valid, empty) = init-IsValid size time garbage room lo hi in
      record {
        valid = valid;
        intervals = λ i x l h e. let f = empty i in absurd (cc);
        own = λ i x l h e. let f = empty i in absurd (cc);
        tracks = record {
          known = λ id head e nz. absurd (cc);
          waiting = λ id i u. let f = empty i in let at = u.at in absurd (cc);
        };
      }

  -- A logic without a timer.
  insert-zero :
      (m : LogicModule D) (head : LogicData D)
      → IsSound m
      → IsSound (record m { logic_data_map = insert m.logic_data_map (pos 0) head })
  insert-zero m head v = record {
    valid = v.valid;
    intervals = v.intervals;
    own = v.own;
    tracks = record {
      known = λ k d e nz. elim (same_key k (pos 0)) [
        | inl ne ↦ v.tracks.known k d (rw ne at e) nz
        | inr z ↦ absurd (nz z)
      ];
      waiting = λ k i u. elim (same_key k (pos 0)) [
        | inl ne ↦ let (d, e) = v.tracks.waiting k i u in (d, rw ne e)
        | inr z ↦ absurd (Timer-nonzero m.heap_timer k i v.valid u z)
      ];
    };
  }

  -- CreateLogic keeps the logics sound, whatever it is given.
  create_logic-IsSound :
      (m : LogicModule D) (logic_type delay time : ℤ) (memory : Option D)
      → IsSound m
      → Returns (λ r. IsSound (r.1)) (create_logic m logic_type delay time memory)
  unfolding create_logic create_found create_known start_timer
  create_logic-IsSound m logic_type delay time none v =
      elim (Option-cases (find_logic logic_type)) [
        | inl e ↦ rw e (returns v)
        | inr (type, e) ↦ rw e (returns v)
      ]
  create_logic-IsSound m logic_type delay time (some rest) v =
      elim (Option-cases (find_logic logic_type)) [
        | inl e ↦ rw e (returns v)
        | inr (type, e) ↦ elim (delay_cases delay) [
          | inl z ↦ rw (e, z) (returns (insert-zero m _ v))
          | inr (n, same, lo) ↦ rw same (
              Returns-map (create_logic-Created m type logic_type n time rest v e lo)
                λ r g. g.sound)
        ]
      ]

module _ {D M W : Type 0}
    (steps : LogicType → ℕ → LogicData D → M → W → Run (ℤ × LogicData D × W)) where
  -- Proc keeps the logics sound where it returns.
  proc-IsSound :
      (m : LogicModule D) (id : ℤ) (msg : M) (w : W) (r : LogicModule D × W)
      → IsSound m
      → proc steps m id msg w ≡ ok r
      → IsSound (r.0)
  unfolding proc proc_data proc_type
  proc-IsSound m id msg w r v e = elim (Option-cases (m.logic_data_map id)) [
    | inl at ↦ Returns-ok r (same (rw at refl)) e
    | inr (head, at) ↦ elim (Option-cases (find_logic head.logic_type)) [
      | inl known ↦ Returns-ok r (same (rw (at, known) refl)) e
      | inr (type, known) ↦
          let (p, stepped) = ok-bind (step_proc steps type head msg w) _ r (rw (at, known) at e) in
          Returns-ok r
            (Returns-map
              (proc-Proceeded steps m id head type msg w (λ q. Unit) v at known
                (rw stepped (returns tt)))
              (λ q g. Proceeded-IsSound m id (λ u. Unit) q g))
            e
    ]
  ]
    where
      same :
          proc steps m id msg w ≡ ok (m, w) → Returns (λ q. IsSound (q.0)) (proc steps m id msg w)
      same q = rw q (returns v)

  -- The states that any sequence of calls comes to, the first made by ModuleInit.
  pub data Reaches : LogicModule D → Type 0 where
    initial :
        (size time : ℕ) (garbage : ℕ → TimerNode)
        → 0 < size
        → 0 < time
        → time < modulus
        → Reaches (module_init size (pos time) garbage)
    created :
        {m : LogicModule D} (logic_type delay time : ℤ) (memory : Option D) {r : ℤ × LogicModule D}
        → Reaches m
        → create_logic m logic_type delay time memory ≡ ok r
        → Reaches (r.1)
    proceeded :
        {m : LogicModule D} (id : ℤ) (msg : M) (w : W) {r : LogicModule D × W}
        → Reaches m
        → proc steps m id msg w ≡ ok r
        → Reaches (r.0)
    updated :
        {m m' : LogicModule D} (now : TimeValue)
        → Reaches m
        → IsNormal now
        → update m now ≡ ok m'
        → Reaches m'

  -- However the logics are created, run and timed out, whatever the steps do: those that wait are
  -- exactly those with a timer.
  pub Reaches-IsSound : (m : LogicModule D) → Reaches m → IsSound m
  Reaches-IsSound m (initial size time garbage room lo hi) =
      module_init-IsSound size time garbage room lo hi
  Reaches-IsSound m (created {m = old} logic_type delay time memory {r} before e) =
      Returns-ok r
        (create_logic-IsSound old logic_type delay time memory (Reaches-IsSound old before)) e
  Reaches-IsSound m (proceeded {m = old} id msg w {r} before e) =
      proc-IsSound old id msg w r (Reaches-IsSound old before) e
  Reaches-IsSound m (updated {m = old} now before k e) =
      (Returns-ok m (update-Updated old now (Reaches-IsSound old before) k) e).sound
