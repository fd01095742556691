-- ===== src/LogicModule/Ended.antt =====
-- What is left once a logic has waited on or ended.
use play_frame.Common.{
  ℕ, ◌<◌, ◌≡◌, ◌≢◌, refl, sym, ap, ◌∙◌, some, none, arith, Option, inl, inr, true, false, subst,
}
use play_frame.Common.Int.{ℤ, pos, ==ℤ-refl, ◌==ℤ◌}
use play_frame.Common.Run.{Returns, returns, Returns-bind}
use play_frame.HeapTimer.{TimerNode, HeapTimer, unregister_timer}
use play_frame.HeapTimer.Invariant.{timer_at}
use play_frame.HeapTimer.Remove.{Left}
use play_frame.HeapTimer.Unregister.{unregister_correct}
use play_frame.LogicModule.{
  LogicData, LogicModule, logic_yield, erase, write, delete_logic_data, finish,
}
use play_frame.LogicModule.Sound.{Timer, IsSound, Timer-unique, Timer-nonzero, same_key, ne→==ℤ}

-- The logic `id` waits on with its data and timer.
pub record Waits {D : Type 0} (m : LogicModule D) (id : ℤ) (head : LogicData D) (m' : LogicModule D)
    : Type 0 where
  pub kept : m'.logic_data_map id ≡ some head
  pub others : (k : ℤ) → k ≢ id → m'.logic_data_map k ≡ m.logic_data_map k
  pub timers : m'.heap_timer ≡ m.heap_timer
  pub sound : IsSound m'

-- The logic `id` has ended, and its timer with it. No other logic has changed.
pub record Ended {D : Type 0} (m : LogicModule D) (id : ℤ) (m' : LogicModule D) : Type 0 where
  pub gone : m'.logic_data_map id ≡ none
  pub others : (k : ℤ) → k ≢ id → m'.logic_data_map k ≡ m.logic_data_map k
  pub no_timer : (i : ℕ) → ¬ Timer m'.heap_timer id i
  pub timers :
      (k : ℤ) (i : ℕ)
      → k ≢ id
      → (r : Timer m.heap_timer k i) → timer_at m'.heap_timer i ≡ some r.node
  pub sound : IsSound m'

module _ {D : Type 0} (m : LogicModule D) (v : IsSound m) (id : ℤ) where
  pub write-here : (head : LogicData D) → write m.logic_data_map id head id ≡ some head
  write-here head = rw (==ℤ-refl id)

  -- Other data of a logic do not matter.
  pub write-IsSound :
      (head old : LogicData D)
      → m.logic_data_map id ≡ some old
      → IsSound (record m { logic_data_map = write m.logic_data_map id head })
  write-IsSound head old at = record {
    valid = v.valid;
    intervals = v.intervals;
    own = v.own;
    tracks = record {
      known = λ k d e nz. elim (same_key k id) [
        | inl ne ↦ v.tracks.known k d (rw ne at e) nz
        | inr same ↦ rw same (v.tracks.known id old at (rw same at nz))
      ];
      waiting = λ k i u. elim (same_key k id) [
        | inl ne ↦ let (d, e) = v.tracks.waiting k i u in (d, rw ne e)
        | inr same ↦ (head, rw same (write-here head))
      ];
    };
  }

  pub write-Waits :
      (head old : LogicData D)
      → m.logic_data_map id ≡ some old
      → Waits m id head (record m { logic_data_map = write m.logic_data_map id head })
  write-Waits head old at = record {
    kept = write-here head;
    others = λ k ne. rw (ne→==ℤ k id ne);
    timers = refl;
    sound = write-IsSound head old at;
  }

  abbrev erased : ℤ → Option (LogicData D)
  erased = erase m.logic_data_map id

  erased-other : (k : ℤ) → k ≢ id → erased k ≡ m.logic_data_map k
  erased-other k ne = rw (ne→==ℤ k id ne)

  erased-here : erased id ≡ none
  erased-here = rw (==ℤ-refl id)

  -- The logic with the id 0 has no timer.
  zero-Ended : id ≡ pos 0 → Ended m id (delete_logic_data m id)
  zero-Ended z = record {
    gone = erased-here;
    others = erased-other;
    no_timer = λ i u. Timer-nonzero m.heap_timer id i v.valid u z;
    timers = λ k i ne u. u.at;
    sound = record {
      valid = v.valid;
      intervals = v.intervals;
      own = v.own;
      tracks = record {
        known = λ k d e nz. v.tracks.known k d (sym (erased-other k (λ q. nz (q ∙ z))) ∙ e) nz;
        waiting = λ k i u.
            let (d, e) = v.tracks.waiting k i u in
            (d, erased-other k (λ q. Timer-nonzero m.heap_timer k i v.valid u (q ∙ z)) ∙ e);
      };
    };
  }

  module _ (x : ℕ) (r : Timer m.heap_timer id x) (t' : HeapTimer) (l : Left m.heap_timer x t') where
    abbrev left : LogicModule D
    left = record { heap_timer = t'; logic_data_map = erased }

    -- A timer that is left is one of the others.
    left_old : (k : ℤ) (i : ℕ) → Timer t' k i → Timer m.heap_timer k i × (k ≢ id)
    left_old k i u =
        let ne : i ≢ x = λ q.
          let a = l.absent in let b : timer_at t' x ≡ some u.node = rw (← q) u.at in absurd (cc) in
        let h = u.high in
        let inside : i < m.heap_timer.heap_size = omega (arith, l.size) in
        let old : Timer m.heap_timer k i = record {
          node = u.node;
          low = u.low;
          high = inside;
          at = sym (l.others i u.low inside ne) ∙ u.at;
          named = u.named;
        } in
        (old, λ q. ne (Timer-unique m.heap_timer id i x v.valid (rw (← q) old) r))

    other_place : (k : ℤ) (i : ℕ) → k ≢ id → Timer m.heap_timer k i → i ≢ x
    other_place k i ne u q =
        let a = r.at in
        let b : timer_at m.heap_timer x ≡ some u.node = rw (← q) u.at in
        let same : u.node ≡ r.node = cc in
        ne (sym u.named ∙ ap (λ (y : TimerNode). y.timer_id) same ∙ r.named)

    left-Ended : Ended m id left
    unfolding left_old
    left-Ended = record {
      gone = erased-here;
      others = erased-other;
      no_timer = λ i u. (left_old id i u).1 refl;
      timers = λ k i ne u. l.others i u.low u.high (other_place k i ne u) ∙ u.at;
      sound = record {
        valid = l.valid;
        intervals = λ i node lo hi at.
            let u =
              left_old node.timer_id i
                (record { node = node; low = lo; high = hi; at = at; named = refl }) in
            v.intervals i (u.0).node lo (u.0).high (u.0).at;
        own = λ i node lo hi at.
            let u =
              left_old node.timer_id i
                (record { node = node; low = lo; high = hi; at = at; named = refl }) in
            v.own i (u.0).node lo (u.0).high (u.0).at;
        tracks = record {
          known = λ k d e nz. elim (same_key k id) [
            | inr same ↦ absurd (let g : erased k ≡ none = rw same erased-here in cc)
            | inl ne ↦
                let (i, u) = v.tracks.known k d (rw ne at e) nz in
                let apart : k ≢ id =
                  λ q. let f : (k ==ℤ id) ≡ true = rw q (==ℤ-refl id) in absurd (cc) in
                let h = u.high in
                (
                  i,
                  record {
                    node = u.node;
                    low = u.low;
                    high = omega (arith, l.size);
                    at = l.others i u.low u.high (other_place k i apart u) ∙ u.at;
                    named = u.named;
                  },
                )
          ];
          waiting = λ k i u.
              let (old, ne) = left_old k i u in
              let (d, e) = v.tracks.waiting k i old in (d, erased-other k ne ∙ e);
        };
      };
    }

  -- The end of Proc.
  pub finish-Ended :
      (head : LogicData D) (ret : ℤ)
      → m.logic_data_map id ≡ some head
      → (ret ==ℤ logic_yield) ≡ false
      → Returns (Ended m id) (finish m id ret)
  unfolding finish
  finish-Ended head ret at e = rw e (elim (same_key id (pos 0)) [
    | inr z ↦ let f : (id ==ℤ pos 0) ≡ true = rw z refl in rw f (returns (zero-Ended z))
    | inl ne ↦ rw ne (
        let nz : id ≢ pos 0 = λ z. let f : (id ==ℤ pos 0) ≡ true = rw z refl in absurd (cc) in
        let (x, r) = v.tracks.known id head at nz in
        Returns-bind
          (subst (λ (z : ℤ). Returns (Left m.heap_timer x) (unregister_timer m.heap_timer z))
            r.named (unregister_correct m.heap_timer x r.node v.valid r.low r.high r.at))
          λ t' l. returns (left-Ended x r t' l))
  ])
