-- ===== src/Epoller/Dispatch.antt =====
-- EPOLLERR and EPOLLHUP, which the kernel reports of every descriptor, go to the function for writing.
use play_frame.Common.{ℕ, ◌<◌, ◌≡◌, Bool, true, false, ◌||◌, Option, Bool-cases, inl, inr, none}
use play_frame.Common.Run.{Run, fault}
use play_frame.Common.Array.{load-ok}
use play_frame.Epoller.{Epoller, EpollEvent, dispatch}

or_last : (a b c : Bool) → (a || b || c) ≡ true → a ≡ false → b ≡ false → c ≡ true
or_last true b c h a' b' = absurd (cc)
or_last false true c h a' b' = absurd (cc)
or_last false false c h a' b' = h

-- When the kernel reports an error, a hang-up or room for writing, and nothing to read, of a
-- descriptor with no function for writing, Loop calls through a null pointer.
pub dispatch-null :
    {P D S : Type 0} (epoller_of : S → Epoller P D) (call : P → ℕ → Option D → S → Run S) (s : S)
    (e : EpollEvent)
    → e.fd < (epoller_of s).file_events.size
    → ((epoller_of s).file_events.at e.fd).write_proc ≡ none
    → e.in_ ≡ false
    → (e.out || e.err || e.hup) ≡ true
    → dispatch epoller_of call e s ≡ fault
unfolding dispatch
dispatch-null epoller_of call s e inside unset quiet trouble =
    let there = load-ok (epoller_of s).file_events e.fd inside in
    rw quiet (elim (Bool-cases e.out) [
      | inl o ↦ rw (o, there, unset)
      | inr o ↦ rw o (elim (Bool-cases e.err) [
        | inl r ↦ rw (r, there, unset)
        | inr r ↦
            let h : e.hup ≡ true = or_last e.out e.err e.hup trouble o r in
            rw r (rw (h, there, unset))
      ])
    ])
