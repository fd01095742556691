-- ===== src/HeapTimer/PollRound.antt =====
-- What TimerPoll is to do, where the callbacks leave the timers alone, and that one round before a
-- poll does not change this.
use play_frame.Common.{
  ℕ, suc, ◌-◌, ◌<◌, ◌≡◌, ◌≢◌, refl, sym, ap, ◌∙◌, inl, inr, Bool, true, false, ◌==◌, ◌||◌, some,
  arith, List, [], ◌∷◌, All, All-weaken, map, Distinct, eq_cases, ==_iff, ne→==, subst,
}
use play_frame.Common.Int.{ℤ}
use play_frame.TimeValue.{TimeValue}
use play_frame.TimeValue.Order.{Le, gte}
use play_frame.HeapTimer.{TimerNode, HeapTimer}
use play_frame.HeapTimer.Layout.{slot, entry}
use play_frame.HeapTimer.Order.{root_first}
use play_frame.HeapTimer.Settled.{nodes_at, link_at}
use play_frame.HeapTimer.Invariant.{Held, IsValid, timer_at, entry-some}
use play_frame.HeapTimer.Due.{is_due, due_count, due_count-less, IsInterval}
use play_frame.HeapTimer.Serve.{
  Callbacks, Fate, Served, Serves, serve, callback_answer, callback_state,
}

-- The calls are in the order of the times.
abbrev pub IsSorted : List (TimerNode × ℤ) → Type 0
IsSorted [] = Unit
IsSorted (c ∷ calls) = All (λ d. Le (c.0).expire_time (d.0).expire_time) calls × IsSorted calls

-- The timer `i` is called.
abbrev pub is_called : ℕ → List (TimerNode × ℤ) → Bool
is_called i [] = false
is_called i (c ∷ calls) = (slot (c.0) == i) || is_called i calls

-- The node is that of a timer of `t` that is due.
abbrev pub IsDue : HeapTimer → TimeValue → TimerNode → Type 0
IsDue t now node =
    (0 < slot node)
    × (slot node < t.heap_size)
    × (timer_at t (slot node) ≡ some node)
    × (gte now node.expire_time ≡ true)

-- Exactly the timers due have been called, each once and with its node, the earliest first; each
-- has then started again or left, and no other timer has changed.
pub record Polled {S : Type 0} (c : Callbacks S) (t : HeapTimer) (now : TimeValue) (s : S)
    (r : S × HeapTimer) : Type 0 where
  pub calls : List (TimerNode × ℤ)
  pub serves : Serves c s calls (r.0)
  pub sorted : IsSorted calls
  pub once : Distinct (map (λ (d : TimerNode × ℤ). slot (d.0)) calls)
  pub due : All (λ d. IsDue t now (d.0)) calls
  pub complete :
      (i : ℕ)
      → 0 < i
      → i < t.heap_size
      → is_due now (timer_at t i) ≡ true
      → is_called i calls ≡ true
  pub fates : All (Fate now (r.1)) calls
  pub others :
      (i : ℕ)
      → 0 < i
      → i < t.heap_size
      → is_due now (timer_at t i) ≡ false
      → timer_at (r.1) i ≡ timer_at t i
  pub none_due : (i : ℕ) → 0 < i → i < t.heap_size → is_due now (timer_at (r.1) i) ≡ false
  pub size : (r.1).heap_size ≡ t.heap_size
  pub valid : IsValid (r.1)

-- Every interval is 0 or more.
abbrev pub HasIntervals : HeapTimer → Type 0
HasIntervals t =
    (i : ℕ) (x : TimerNode)
    → 0 < i
    → i < t.heap_size
    → timer_at t i ≡ some x
    → IsInterval x.interval_time

Fate-not_due :
    (now : TimeValue) (t' : HeapTimer) (node : TimerNode) (ret : ℤ)
    → Fate now t' (node, ret)
    → is_due now (timer_at t' (slot node)) ≡ false
Fate-not_due now t' node ret (inl (e, (time, not_due, at))) = rw at not_due
Fate-not_due now t' node ret (inr (e, gone)) = rw gone refl

Fate-kept :
    (now : TimeValue) (t t' : HeapTimer) (node : TimerNode) (ret : ℤ)
    → timer_at t' (slot node) ≡ timer_at t (slot node)
    → Fate now t (node, ret)
    → Fate now t' (node, ret)
Fate-kept now t t' node ret same (inl (e, (time, not_due, at))) =
    inl (e, (time, not_due, same ∙ at))
Fate-kept now t t' node ret same (inr (e, gone)) = inr (e, same ∙ gone)

Fate-IsInterval :
    (now : TimeValue) (t' : HeapTimer) (node : TimerNode) (ret : ℤ) (y : TimerNode)
    → Fate now t' (node, ret)
    → IsInterval node.interval_time
    → timer_at t' (slot node) ≡ some y
    → IsInterval y.interval_time
Fate-IsInterval now t' node ret y (inl (e, (time, not_due, at))) h same =
    let q : record node { expire_time = time } ≡ y = cc in
    subst (λ (z : TimerNode). IsInterval z.interval_time) q h
Fate-IsInterval now t' node ret y (inr (e, gone)) h same = absurd (cc)

All-slots :
    (x : ℕ) (calls : List (TimerNode × ℤ))
    → All (λ d. slot (d.0) ≢ x) calls
    → All (λ y. y ≢ x) (map (λ (d : TimerNode × ℤ). slot (d.0)) calls)
All-slots x [] all = tt
All-slots x (d ∷ calls) (p, all) = (p, All-slots x calls all)

module _ (t : HeapTimer) (fs : List ℕ) (v : Held t fs) (more : 0 < t.cur_size) where
  abbrev node : TimerNode
  node = nodes_at t 0

  abbrev x : ℕ
  x = slot node

  pub at_first : timer_at t x ≡ some node
  at_first = ap (entry (nodes_at t)) (v.layout.linked 0 more)

  -- The first node is the earliest.
  earliest :
      (i : ℕ) (y : TimerNode)
      → 0 < i
      → i < t.heap_size
      → timer_at t i ≡ some y
      → Le node.expire_time y.expire_time
  earliest i y lo hi e =
      let (q, l, same) = entry-some (nodes_at t) (link_at t i) y e in
      let inside = (v.layout.back i q lo hi l).0 in
      rw (← same) (root_first t.cur_size (nodes_at t) q v.ordered inside)

module _ {S : Type 0} (c : Callbacks S) (now : TimeValue) where
  module _ (t : HeapTimer) (fs : List ℕ) (v : Held t fs) (more : 0 < t.cur_size)
      (due : gte now (nodes_at t 0).expire_time ≡ true) (s : S) (t1 : HeapTimer)
      (d : Served t now (nodes_at t 0) (callback_answer c (nodes_at t 0) s) t1) where
    first_gone : is_due now (timer_at t1 (slot (nodes_at t 0))) ≡ false
    first_gone = Fate-not_due now t1 (nodes_at t 0) (callback_answer c (nodes_at t 0) s) d.fate

    -- A timer that is due now was due before, and is another one.
    was-IsDue :
        (y : TimerNode)
        → IsDue t1 now y
        → IsDue t now y
          × (slot y ≢ slot (nodes_at t 0))
          × Le (nodes_at t 0).expire_time y.expire_time
    was-IsDue y (lo, hi, at, h) =
        let ne : slot y ≢ slot (nodes_at t 0) = λ q.
          let g : is_due now (timer_at t1 (slot y)) ≡ false = rw q first_gone in
          let g' : gte now y.expire_time ≡ false = rw at at g in absurd (cc) in
        let hi' : slot y < t.heap_size = omega (arith, d.size) in
        let at' = sym (d.others (slot y) lo hi' ne) ∙ at in
        ((lo, hi', at', h), ne, earliest t fs v more (slot y) y lo hi' at')

    pub fewer :
        due_count now (timer_at t) (t.heap_size - 1)
        ≡ suc (due_count now (timer_at t1) (t1.heap_size - 1))
    fewer = rw d.size (
        due_count-less now (timer_at t) (timer_at t1) (t.heap_size - 1) (slot (nodes_at t 0))
          (v.layout.low 0 more) (omega (arith, v.layout.high 0 more))
          (rw (at_first t fs v more) due) first_gone
          λ i lo hi ne. d.others i lo (omega (arith, v.layout.high 0 more)) ne)

    pub intervals : HasIntervals t → HasIntervals t1
    intervals h i y lo hi e = elim (eq_cases i (slot (nodes_at t 0))) [
      | inr ne ↦
          let inside : i < t.heap_size = omega (arith, d.size) in
          h i y lo inside (sym (d.others i lo inside ne) ∙ e)
      | inl q ↦
          Fate-IsInterval now t1 (nodes_at t 0) (callback_answer c (nodes_at t 0) s) y d.fate
            (h (slot (nodes_at t 0)) (nodes_at t 0) (v.layout.low 0 more) (v.layout.high 0 more)
              (at_first t fs v more))
            (rw (← q) e)
    ]

    -- The rest of the poll, with this round before it.
    pub before :
        (r : S × HeapTimer)
        → Polled c t1 now (callback_state c (nodes_at t 0) s) r
        → Polled c t now s r
    before r p = record {
      calls = (nodes_at t 0, callback_answer c (nodes_at t 0) s) ∷ p.calls;
      serves = serve (nodes_at t 0) p.serves;
      sorted = (All-weaken _ _ p.calls (λ y h. (was-IsDue (y.0) h).2) p.due, p.sorted);
      once = (
        All-slots (slot (nodes_at t 0)) p.calls
            (All-weaken _ _ p.calls (λ y h. (was-IsDue (y.0) h).1) p.due),
        p.once,
      );
      due = (
        (v.layout.low 0 more, v.layout.high 0 more, at_first t fs v more, due),
        All-weaken _ _ p.calls (λ y h. (was-IsDue (y.0) h).0) p.due,
      );
      complete = λ i lo hi h. elim (eq_cases (slot (nodes_at t 0)) i) [
        | inl q ↦ rw ((==_iff (slot (nodes_at t 0)) i).1 q) refl
        | inr ne ↦
            rw (ne→== (slot (nodes_at t 0)) i ne)
              (p.complete i lo (omega (arith, d.size)) (rw (d.others i lo hi (λ q. ne (sym q))) h))
      ];
      fates = (
        Fate-kept now t1 (r.1) (nodes_at t 0) (callback_answer c (nodes_at t 0) s)
            (p.others (slot (nodes_at t 0)) (v.layout.low 0 more)
              (omega (arith, d.size, v.layout.high 0 more)) first_gone)
            d.fate,
        p.fates,
      );
      others = λ i lo hi h.
          let ne : i ≢ slot (nodes_at t 0) = λ q.
            let g : is_due now (timer_at t i) ≡ true = rw (q, at_first t fs v more) due in
            absurd (cc) in
          let same : timer_at t1 i ≡ timer_at t i = d.others i lo hi ne in
          p.others i lo (omega (arith, d.size)) (rw same h) ∙ same;
      none_due = λ i lo hi. p.none_due i lo (omega (arith, d.size));
      size = p.size ∙ d.size;
      valid = p.valid;
    }
