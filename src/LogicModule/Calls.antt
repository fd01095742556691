-- ===== src/LogicModule/Calls.antt =====
-- What the calls of OnTimer, one after another, do to the logics.
use play_frame.Common.{
  ℕ, ◌≡◌, ◌≢◌, refl, sym, ap, ◌∙◌, some, none, Option, inl, inr, true, List, [], ◌∷◌, All,
  Option-cases, Bool-cases, ◌==◌, ==_iff,
}
use play_frame.Common.Int.{ℤ, negsuc, ◌==ℤ◌, ==ℤ-refl}
use play_frame.TimeValue.{TimeValue}
use play_frame.TimeValue.Order.{gte}
use play_frame.HeapTimer.{TimerNode}
use play_frame.HeapTimer.Layout.{slot}
use play_frame.HeapTimer.Due.{is_due}
use play_frame.HeapTimer.Serve.{
  Callbacks, Serves, done, serve, callback_answer-some, callback_state-some,
}
use play_frame.HeapTimer.PollRound.{is_called}
use play_frame.LogicModule.{LogicData, erase}
use play_frame.LogicModule.Sound.{ne→==ℤ}

-- What OnTimer does.
abbrev pub deletion : (D : Type 0) → Callbacks (ℤ → Option (LogicData D))
deletion D = record {
  answer = λ f id argument map. negsuc 0;
  next = λ f id argument map. erase map id;
}

pub due_node :
    (now : TimeValue) (o : Option TimerNode)
    → is_due now o ≡ true
    → (node : TimerNode) × (o ≡ some node) × (gte now node.expire_time ≡ true)
due_node now none e = absurd (cc)
due_node now (some node) e = (node, refl, e)

-- A call of the list with the index `i`.
pub called :
    {P : TimerNode × ℤ → Type 0} (i : ℕ) (calls : List (TimerNode × ℤ))
    → is_called i calls ≡ true
    → All P calls
    → (d : TimerNode × ℤ) × (slot (d.0) ≡ i) × P d
called i [] e all = absurd (cc)
called i (d ∷ calls) e (p, all) = elim (Bool-cases (slot (d.0) == i)) [
  | inl f ↦ (d, (==_iff (slot (d.0)) i).0 f, p)
  | inr f ↦ called i calls (rw f at e) all
]

module _ {D : Type 0} where
  erase-some :
      (map : ℤ → Option (LogicData D)) (id k : ℤ) (head : LogicData D)
      → erase map id k ≡ some head
      → map k ≡ some head
  erase-some map id k head e = elim (Bool-cases (k ==ℤ id)) [
    | inl f ↦ absurd (let g : erase map id k ≡ none = rw f in cc)
    | inr f ↦ rw f at e
  ]

  -- What the calls have left was there before.
  pub calls-some :
      {s s' : ℤ → Option (LogicData D)} {calls : List (TimerNode × ℤ)} (k : ℤ) (head : LogicData D)
      → Serves (deletion D) s calls s'
      → All (λ d. (d.0).cb_obj ≡ some 0) calls
      → s' k ≡ some head
      → s k ≡ some head
  calls-some k head done own e = e
  calls-some {s} k head (serve node rest) (own, all) e = erase-some s node.timer_id k head (
      sym (
        ap (λ (map : ℤ → Option (LogicData D)). map k)
          (callback_state-some (deletion D) node 0 s own))
      ∙ calls-some k head rest all e)

  -- A logic that is not called is left.
  pub calls-kept :
      {s s' : ℤ → Option (LogicData D)} {calls : List (TimerNode × ℤ)} (k : ℤ)
      → Serves (deletion D) s calls s'
      → All (λ d. (d.0).cb_obj ≡ some 0) calls
      → All (λ d. (d.0).timer_id ≢ k) calls
      → s' k ≡ s k
  calls-kept k done own ne = refl
  calls-kept {s} k (serve node rest) (own, all) (ne, others) =
      calls-kept k rest all others
      ∙ ap (λ (map : ℤ → Option (LogicData D)). map k)
          (callback_state-some (deletion D) node 0 s own)
      ∙ rw (ne→==ℤ k node.timer_id (λ q. ne (sym q)))

  calls-none :
      {s s' : ℤ → Option (LogicData D)} {calls : List (TimerNode × ℤ)} (k : ℤ)
      → Serves (deletion D) s calls s'
      → All (λ d. (d.0).cb_obj ≡ some 0) calls
      → s k ≡ none
      → s' k ≡ none
  calls-none {s} {s'} k r own e = elim (Option-cases (s' k)) [
    | inl f ↦ f
    | inr (head, f) ↦ let g = calls-some k head r own f in absurd (cc)
  ]

  -- A logic that is called is gone.
  pub calls-gone :
      {s s' : ℤ → Option (LogicData D)} {calls : List (TimerNode × ℤ)} (k : ℤ) (i : ℕ)
      → Serves (deletion D) s calls s'
      → All (λ d. (d.0).cb_obj ≡ some 0) calls
      → All (λ d. slot (d.0) ≡ i → (d.0).timer_id ≡ k) calls
      → is_called i calls ≡ true
      → s' k ≡ none
  calls-gone k i done own ids e = absurd (cc)
  calls-gone {s} k i (serve node rest) (own, all) (id, ids) e = elim (Bool-cases (slot node == i)) [
    | inr f ↦ calls-gone k i rest all ids (rw f at e)
    | inl f ↦
        let same = id ((==_iff (slot node) i).0 f) in
        calls-none k rest all (
          ap (λ (map : ℤ → Option (LogicData D)). map k)
            (callback_state-some (deletion D) node 0 s own)
          ∙ rw same (rw (==ℤ-refl k)))
  ]

  -- Every callback returns -1.
  pub calls-answer :
      {s s' : ℤ → Option (LogicData D)} {calls : List (TimerNode × ℤ)}
      → Serves (deletion D) s calls s'
      → All (λ d. (d.0).cb_obj ≡ some 0) calls
      → All (λ d. d.1 ≡ negsuc 0) calls
  calls-answer done own = tt
  calls-answer {s} (serve node rest) (own, all) =
      (callback_answer-some (deletion D) node 0 s own, calls-answer rest all)
