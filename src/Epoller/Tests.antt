-- ===== src/Epoller/Tests.antt =====
-- A kernel that does what it is asked, and four descriptors.
use play_frame.Common.{
  ℕ, ◌≡◌, refl, none, some, inl, inr, arith, true, false, ◌==◌, if◌then◌else◌, Bool-cases,
}
use play_frame.Common.Int.{ℤ, pos, negsuc}
use play_frame.Common.Run.{ok, fault, Returns}
use play_frame.Common.Array.{update}
use play_frame.Epoller.{
  Mask, Op, Epoller, EpollEvent, event_none, event_read, no_event, add_event, dispatch,
}
use play_frame.Epoller.Sync.{wanted, Kernel, InSync, Added, add_event-Added}
use play_frame.Epoller.Dispatch.{dispatch-null}

obedient : Op → ℤ → Mask → (ℕ → Mask) → ℤ × (ℕ → Mask)
obedient op (pos fd) mask w = (pos 0, update w fd (wanted op mask))
obedient op (negsuc fd) mask w = (negsuc 0, w)

obedient-Kernel : Kernel obedient (λ w. w)
unfolding obedient
obedient-Kernel = record {
  effect = λ op fd mask w. inr (refl, λ i. refl);
  removes = λ op fd mask w busy change. refl;
}

abbrev idle : Epoller ℕ ℕ
idle = record { max_events_size = 4; file_events = record { size = 4; at = λ i. no_event } }

idle-InSync : InSync obedient (λ w. w) idle (λ i. event_none)
idle-InSync = record {
  sized = refl;
  agree = λ i less. refl;
  ready = λ i less. record { reader = λ e. absurd (cc); writer = λ e. absurd (cc) };
}

add_event-Added_example :
    Returns
      (Added obedient (λ w. w) idle 3 event_read 10 none)
      (add_event obedient idle (pos 3) event_read 10 none (λ i. event_none))
add_event-Added_example =
    add_event-Added obedient (λ w. w) obedient-Kernel idle (λ i. event_none) idle-InSync 3
      event_read 10 none (omega arith)

-- The descriptor 3 is watched for reading.
abbrev reading : Epoller ℕ ℕ
reading = record {
  max_events_size = 4;
  file_events = record {
    size = 4;
    at = λ i.
        if i == 3 then record no_event { mask = event_read; read_proc = some 10 } else no_event;
  };
}

reading-InSync : InSync obedient (λ w. w) reading (λ i. if i == 3 then event_read else event_none)
reading-InSync = record {
  sized = refl;
  agree = λ i less. elim (Bool-cases (i == 3)) [ inl e ↦ rw e | inr e ↦ rw e ];
  ready = λ i less. elim (Bool-cases (i == 3)) [
    | inl e ↦ rw e (record { reader = λ t. (10, refl); writer = λ t. absurd (cc) })
    | inr e ↦ rw e (record { reader = λ t. absurd (cc); writer = λ t. absurd (cc) })
  ];
}

-- The other side of the descriptor 3 hangs up.
abbrev hang_up : EpollEvent
hang_up = record { fd = 3; in_ = false; out = false; err = false; hup = true }

dispatch-null_example : dispatch (λ s. s) (λ p fd d s. ok s) hang_up reading ≡ fault
dispatch-null_example =
    dispatch-null (λ s. s) (λ p fd d s. ok s) reading hang_up (omega arith) refl refl refl
