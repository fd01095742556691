-- ===== src/HeapTimer/Due.antt =====
-- The timers whose time has come, and how many they are.
use play_frame.Common.{
  ℕ, zero, suc, ◌+◌, ◌<◌, ◌≤◌, ◌≡◌, ◌≢◌, refl, sym, ap, inl, inr, Bool, true, false, Option, none,
  some, arith, eq_cases, Bool-cases, Option-cases, if◌then◌else◌, ◌&&◌, List,
}
use play_frame.Common.Int.{ℤ, pos, negsuc, ◌≤ℤ◌, ◌==ℤ◌, ◌+ℤ◌, int_laws, +ℤ_parts}
use play_frame.Common.Run.{Returns, Returns-map}
use play_frame.TimeValue
use play_frame.TimeValue.{TimeValue}
use play_frame.TimeValue.Order.{Le, gte, gte→Le, Le→gte, Le-trans, Le-cases}
use play_frame.TimeValue.Arithmetic.{IsNormal, Counts, normalize-pos}
use play_frame.HeapTimer.{TimerNode, HeapTimer, expire_time, is_zero}
use play_frame.HeapTimer.Order.{root_first}
use play_frame.HeapTimer.Settled.{nodes_at, link_at}
use play_frame.HeapTimer.Invariant.{Held, timer_at, entry-some}

abbrev pub is_due : TimeValue → Option TimerNode → Bool
is_due now none = false
is_due now (some x) = gte now x.expire_time

-- How many of the timers 1 to `n` are due.
abbrev pub due_count : TimeValue → (ℕ → Option TimerNode) → ℕ → ℕ
due_count now f zero = 0
due_count now f (suc n) =
    let rest = due_count now f n in if is_due now (f (suc n)) then suc rest else rest

pub due_count_bound : (now : TimeValue) (f : ℕ → Option TimerNode) (n : ℕ) → due_count now f n ≤ n
due_count_bound now f zero = omega arith
due_count_bound now f (suc n) = elim (Bool-cases (is_due now (f (suc n)))) [
  | inl e ↦ rw e (omega (arith, due_count_bound now f n))
  | inr e ↦ rw e (omega (arith, due_count_bound now f n))
]

module _ (now : TimeValue) (f g : ℕ → Option TimerNode) where
  due_count-same :
      (n : ℕ) → ((i : ℕ) → 0 < i → i ≤ n → g i ≡ f i) → due_count now g n ≡ due_count now f n
  due_count-same zero same = refl
  due_count-same (suc n) same = rw (
    same (suc n) (omega arith) (omega arith),
    due_count-same n λ i lo hi. same i lo (omega arith),
  )

  -- One timer less is due.
  pub due_count-less :
      (n x : ℕ)
      → 0 < x
      → x ≤ n
      → is_due now (f x) ≡ true
      → is_due now (g x) ≡ false
      → ((i : ℕ) → 0 < i → i ≤ n → i ≢ x → g i ≡ f i)
      → due_count now f n ≡ suc (due_count now g n)
  due_count-less zero x lo hi was is same = absurd (omega arith)
  due_count-less (suc n) x lo hi was is same = elim (eq_cases (suc n) x) [
    | inl e ↦
        rw (e, was, is)
          (ap suc (sym (due_count-same n λ i l h. same i l (omega arith) (omega arith))))
    | inr ne ↦
        let rest = due_count-less n x lo (omega arith) was is λ i l h. same i l (omega arith) in
        rw (same (suc n) (omega arith) (omega arith) ne)
          (elim (Bool-cases (is_due now (f (suc n)))) [
            | inl e ↦ rw e (ap suc rest)
            | inr e ↦ rw e rest
          ])
  ]

module _ (now e : TimeValue) (s u : ℕ) (k : IsNormal now) (positive : 0 < s + u)
    (c : Counts e (now.sec +ℤ pos s) (now.usec +ℤ pos u)) where
  not_early : IsNormal e → Le e now → gte now e ≡ false
  not_early n h = elim (Le-cases e now h) [
    | inl a ↦ absurd (omega (arith, +ℤ_parts now.sec (pos s), +ℤ_parts now.usec (pos u)))
    | inr (a, b) ↦ absurd (omega (arith, +ℤ_parts now.sec (pos s), +ℤ_parts now.usec (pos u)))
  ]

  -- An interval behind `now` is not due.
  later : IsNormal e → gte now e ≡ false
  later n = elim (Bool-cases (gte now e)) [ inl f ↦ not_early n (gte→Le now e f) | inr f ↦ f ]

-- Both parts are 0 or more.
abbrev pub IsInterval : TimeValue → Type 0
IsInterval i = (pos 0 ≤ℤ i.sec) × (pos 0 ≤ℤ i.usec)

sum-later :
    (now : TimeValue) (s u : ℤ)
    → IsNormal now
    → pos 0 ≤ℤ s
    → pos 0 ≤ℤ u
    → ((s ==ℤ pos 0) && (u ==ℤ pos 0)) ≡ false
    → Returns (λ e. gte now e ≡ false) (TimeValue.set (now.sec +ℤ s) (now.usec +ℤ u))
unfolding TimeValue.set
sum-later now (pos s) (pos u) k a b nz =
    Returns-map (normalize-pos (now.sec +ℤ pos s) (now.usec +ℤ pos u) (omega int_laws))
      λ e h. later now e s u k (ground arith) h.1 h.0
sum-later now (negsuc s) u k a b nz = absurd (omega arith)
sum-later now (pos s) (negsuc u) k a b nz = absurd (omega arith)

pub expire_time-later :
    (now interval : TimeValue)
    → IsNormal now
    → IsInterval interval
    → is_zero interval ≡ false
    → Returns (λ e. gte now e ≡ false) (expire_time now interval)
expire_time-later now interval k i nz = sum-later now interval.sec interval.usec k i.0 i.1 nz

module _ (t : HeapTimer) (now : TimeValue) where
  -- Without a timer, or with a first one that is not due, no timer is due.
  pub idle :
      (fs : List ℕ) (v : Held t fs)
      → ((0 < t.cur_size) → gte now (nodes_at t 0).expire_time ≡ false)
      → (i : ℕ) → 0 < i
      → i < t.heap_size
      → is_due now (timer_at t i) ≡ false
  idle fs v first i lo hi = elim (Option-cases (timer_at t i)) [
    | inl e ↦ rw e refl
    | inr (y, e) ↦
        let (q, l, same) = entry-some (nodes_at t) (link_at t i) y e in
        let inside = (v.layout.back i q lo hi l).0 in
        let before = root_first t.cur_size (nodes_at t) q v.ordered inside in
        rw e (elim (Bool-cases (gte now y.expire_time)) [
          | inr f ↦ f
          | inl f ↦
              let early = Le-trans _ y.expire_time _ (rw same at before) (gte→Le now _ f) in
              let due = Le→gte now (nodes_at t 0).expire_time early in
              let not_due = first (omega arith) in absurd (cc)
        ])
  ]
