-- ===== src/LogicModule/Create.antt =====
-- CreateLogic starts a logic with a timer of its own.
use play_frame.Common.{
  ℕ, ◌<◌, ◌≡◌, ◌≢◌, refl, sym, ap, ◌∙◌, some, none, arith, Option-cases, inl, inr, ltb, eq_cases,
  Bool-cases, ltb→lt, ltb_false→le, ◌⊎◌, true, false,
}
use play_frame.Common.Int.{ℤ, pos, ◌+ℤ◌, ==ℤ-refl, pos-injective, ltb_ℤ, leb_ℤ}
use play_frame.Common.Run.{Returns, returns, Returns-bind}
use play_frame.TimeValue.{TimeValue}
use play_frame.TimeValue.Arithmetic.{IsNormal, Counts}
use play_frame.HeapTimer.{TimerNode, HeapTimer, timer_node_index, is_zero}
use play_frame.HeapTimer.Invariant.{timer_at}
use play_frame.HeapTimer.PollRound.{HasIntervals}
use play_frame.HeapTimer.Register.{Registered, register_correct, set-whole}
use play_frame.LogicModule.{
  LogicType, LogicData, LogicModule, find_logic, insert, start_timer, create_logic, create_known,
}
use play_frame.LogicModule.Sound.{
  Timer, Tracks, IsOwn, IsSound, Timer-index, Timer-nonzero, Timer-positive, same_key, ne→==ℤ,
}

-- The logic `r.0` is new, at its first step, and has a timer that expires `delay` seconds after
-- `time`. No other logic has changed.
pub record Created {D : Type 0} (m : LogicModule D) (logic_type : ℤ) (delay : ℕ) (time : ℤ)
    (rest : D) (r : ℤ × LogicModule D) : Type 0 where
  pub positive : leb_ℤ (r.0) (pos 0) ≡ false
  pub was_free : m.logic_data_map (r.0) ≡ none
  pub started :
      (r.1).logic_data_map (r.0)
      ≡ some (record { logic_id = r.0; logic_type = logic_type; step = pos 0; rest = rest })
  pub others : (k : ℤ) → k ≢ r.0 → (r.1).logic_data_map k ≡ m.logic_data_map k
  pub place : ℕ
  pub timer : Timer (r.1).heap_timer (r.0) place
  pub expires :
      IsNormal timer.node.expire_time × Counts timer.node.expire_time (time +ℤ pos delay) (pos 0)
  pub sound : IsSound (r.1)

abbrev whole : ℕ → TimeValue
whole delay = record { sec = pos delay; usec = pos 0 }

module _ {D : Type 0} (m : LogicModule D) (v : IsSound m) (logic_type : ℤ) (delay : ℕ) (time : ℤ)
    (rest : D) (r : ℤ × HeapTimer)
    (g : Registered m.heap_timer (whole delay) (whole delay) (some 0) 0 time r) where
  abbrev t : HeapTimer
  t = m.heap_timer

  abbrev t' : HeapTimer
  t' = r.1

  abbrev id : ℤ
  id = r.0

  abbrev head : LogicData D
  head = record { logic_id = id; logic_type = logic_type; step = pos 0; rest = rest }

  abbrev created : LogicModule D
  created = record { heap_timer = t'; logic_data_map = insert m.logic_data_map id head }

  timer : Timer t' id g.place
  timer = record {
    node = g.node;
    low = g.low;
    high = omega (arith, g.high, g.joined.size);
    at = g.joined.present;
    named = sym g.id;
  }

  -- A timer from before has another index and another id.
  other_index : (k : ℤ) (i : ℕ) → Timer t k i → i ≢ g.place
  other_index k i u e = let f : timer_at t i ≡ none = rw e g.was_free in let a = u.at in absurd (cc)

  other_id : (k : ℤ) (i : ℕ) → Timer t k i → k ≢ id
  other_id k i u e =
      other_index k i u
        (pos-injective (sym (Timer-index t k i v.valid u).0 ∙ ap timer_node_index e ∙ g.index))

  -- A timer is the new one or one from before.
  old_or_new :
      (i : ℕ) (node : TimerNode)
      → 0 < i
      → i < t'.heap_size
      → timer_at t' i ≡ some node
      → (i ≡ g.place) ⊎ ((i < t.heap_size) × (timer_at t i ≡ some node))
  old_or_new i node lo hi at = elim (eq_cases i g.place) [
    | inl e ↦ inl e
    | inr ne ↦ elim (Bool-cases (ltb i t.heap_size)) [
      | inl h ↦
          let inside = ltb→lt i t.heap_size h in
          inr (inside, sym (g.joined.others i lo inside ne) ∙ at)
      | inr h ↦ let f = g.joined.fresh i (ltb_false→le i t.heap_size h) hi ne in absurd (cc)
    ]
  ]

  nonzero : id ≢ pos 0
  nonzero = Timer-nonzero t' id g.place g.joined.valid timer

  was_free : m.logic_data_map id ≡ none
  was_free = elim (Option-cases (m.logic_data_map id)) [
    | inl e ↦ e
    | inr (d, e) ↦ let (i, u) = v.tracks.known id d e nonzero in absurd (other_id id i u refl)
  ]

  here : created.logic_data_map id ≡ some head
  here = rw (==ℤ-refl id, was_free)

  elsewhere : (k : ℤ) → k ≢ id → created.logic_data_map k ≡ m.logic_data_map k
  elsewhere k ne = rw (ne→==ℤ k id ne)

  intervals : HasIntervals t'
  intervals i node lo hi at = elim (old_or_new i node lo hi at) [
    | inr (inside, old) ↦ v.intervals i node lo inside old
    | inl e ↦
        let p = g.joined.present in
        let a : timer_at t' g.place ≡ some node = rw (← e) at in
        let same : node ≡ g.node = cc in rw (same, g.repeats) (omega arith, omega arith)
  ]

  own : IsOwn t'
  own i node lo hi at = elim (old_or_new i node lo hi at) [
    | inr (inside, old) ↦ v.own i node lo inside old
    | inl e ↦
        let p = g.joined.present in
        let a : timer_at t' g.place ≡ some node = rw (← e) at in
        let same : node ≡ g.node = cc in rw (same, g.calls) refl
  ]

  tracks : Tracks t' created.logic_data_map
  tracks = record {
    known = λ k d e nz. elim (same_key k id) [
      | inr same ↦ (g.place, rw same timer)
      | inl ne ↦
          let e' : m.logic_data_map k ≡ some d = rw ne at e in
          let (i, u) = v.tracks.known k d e' nz in
          let h = u.high in
          (
            i,
            record {
              node = u.node;
              low = u.low;
              high = omega (arith, g.joined.size);
              at = g.joined.others i u.low u.high (other_index k i u) ∙ u.at;
              named = u.named;
            },
          )
    ];
    waiting = λ k i u. elim (old_or_new i u.node u.low u.high u.at) [
      | inl e ↦
          let a : timer_at t' g.place ≡ some u.node = rw (← e) u.at in
          let p = g.joined.present in
          let same_node : u.node ≡ g.node = cc in
          let same : k ≡ id =
            sym u.named ∙ ap (λ (y : TimerNode). y.timer_id) same_node ∙ sym g.id in
          (head, rw same here)
      | inr (inside, old) ↦
          let before : Timer t k i = record {
            node = u.node;
            low = u.low;
            high = inside;
            at = old;
            named = u.named;
          } in
          let (d, at) = v.tracks.waiting k i before in (d, elsewhere k (other_id k i before) ∙ at)
    ];
  }

  all_Created : Created m logic_type delay time rest (id, created)
  unfolding timer
  all_Created = record {
    positive = Timer-positive t' id g.place g.joined.valid timer;
    was_free = was_free;
    started = here;
    others = elsewhere;
    place = g.place;
    timer = timer;
    expires = g.expires;
    sound = record { valid = g.joined.valid; intervals = intervals; own = own; tracks = tracks };
  }

-- CreateLogic with a known type, a delay of at least one second and memory starts a logic with an id
-- that was free: it is at step 0 and has a timer that expires after the delay. No other logic has
-- changed, and the logics that wait are again those with a timer.
pub create_logic-Created :
    {D : Type 0} (m : LogicModule D) (type : LogicType) (logic_type : ℤ) (delay : ℕ) (time : ℤ)
    (rest : D)
    → IsSound m
    → find_logic logic_type ≡ some type
    → 0 < delay
    → Returns
        (Created m logic_type delay time rest)
        (create_logic m logic_type (pos delay) time (some rest))
unfolding create_logic create_known start_timer
create_logic-Created m type logic_type delay time rest v found some_time =
    let positive : ltb_ℤ (pos 0) (pos delay) ≡ true = ground arith in
    let nonzero : is_zero (whole delay) ≡ false = ground arith in
    rw (found, positive, set-whole (pos delay))
      (Returns-bind
        (register_correct m.heap_timer (whole delay) (whole delay) (some 0) 0 time v.valid nonzero
          (omega arith))
        λ r g. returns (all_Created m v logic_type delay time rest r g))
