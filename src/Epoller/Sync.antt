-- ===== src/Epoller/Sync.antt =====
-- The masks mirror what the kernel watches, and the functions of watched events are set.
use play_frame.Common.{
  ℕ, ◌<◌, ◌≡◌, ◌≢◌, refl, sym, ap, ◌∙◌, Bool, true, false, ◌||◌, ◌&&◌, not, Option, some, ◌⊎◌, inl,
  inr, arith, eq_cases, Bool-cases, if◌then◌else◌,
}
use play_frame.Common.Int.{ℤ, pos, negsuc, leb_ℤ}
use play_frame.Common.Run.{Returns, returns}
use play_frame.Common.Array.{update, update_self, update_other, load-ok, store-ok, set}
use play_frame.Epoller.{
  Mask, Op, ctl_add, ctl_mod, ctl_del, Epoller, FileEvent, event_none, is_none, join, without,
  with_event, add_event, del_event,
}

-- The mask that a successful `epoll_ctl` leaves.
abbrev pub wanted : Op → Mask → Mask
wanted ctl_add mask = mask
wanted ctl_mod mask = mask
wanted ctl_del mask = event_none

-- `epoll_ctl`: it fails and changes nothing, or it returns 0 and does what is asked. It does not fail
-- to change or to remove what is watched.
pub record Kernel {W : Type 0} (epoll_ctl : Op → ℤ → Mask → W → ℤ × W) (watched : W → ℕ → Mask)
    : Type 0 where
  pub effect :
      (op : Op) (fd : ℕ) (mask : Mask) (w : W)
      → (((epoll_ctl op (pos fd) mask w).0 ≡ negsuc 0)
          × ((i : ℕ) → watched ((epoll_ctl op (pos fd) mask w).1) i ≡ watched w i))
        ⊎ (((epoll_ctl op (pos fd) mask w).0 ≡ pos 0)
            × ((i : ℕ)
                → watched ((epoll_ctl op (pos fd) mask w).1) i
                  ≡ update (watched w) fd (wanted op mask) i))
  pub removes :
      (op : Op) (fd : ℕ) (mask : Mask) (w : W)
      → is_none (watched w fd) ≡ false
      → op ≢ ctl_add
      → (epoll_ctl op (pos fd) mask w).0 ≡ pos 0

or_comm : (a b : Bool) → (a || b) ≡ (b || a)
or_comm true true = refl
or_comm true false = refl
or_comm false true = refl
or_comm false false = refl

or_left : (a b : Bool) → (a || b) ≡ true → b ≡ false → a ≡ true
or_left true b h f = refl
or_left false true h f = cc
or_left false false h f = cc

and_left : (a b : Bool) → (a && b) ≡ true → a ≡ true
and_left true b h = refl
and_left false true h = cc
and_left false false h = cc

both_false : (a b : Bool) → not (a || b) ≡ true → (a ≡ false) × (b ≡ false)
both_false false false h = (refl, refl)
both_false false true h = absurd (cc)
both_false true b h = absurd (cc)

is_none-event_none : (a : Mask) → is_none a ≡ true → a ≡ event_none
is_none-event_none a h = let (r, w) = both_false a.readable a.writable h in cc

wanted-change : (b : Bool) (m : Mask) → wanted (if b then ctl_add else ctl_mod) m ≡ m
wanted-change true m = refl
wanted-change false m = refl

wanted-rest : (m : Mask) → wanted (if is_none m then ctl_del else ctl_mod) m ≡ m
wanted-rest m = elim (Bool-cases (is_none m)) [
  | inl e ↦ rw e (sym (is_none-event_none m e))
  | inr e ↦ rw e
]

not_add : (b : Bool) → (if b then ctl_del else ctl_mod) ≢ ctl_add
not_add true h = cc
not_add false h = cc

idle-without : (a mask : Mask) → is_none a ≡ true → a ≡ without a mask
idle-without a mask h = rw (is_none-event_none a h)

join_comm : (a b : Mask) → join a b ≡ join b a
join_comm a b = let p = or_comm a.readable b.readable in let q = or_comm a.writable b.writable in cc

module _ {P D : Type 0} where
  pub record IsReady (fe : FileEvent P D) : Type 0 where
    pub reader : fe.mask.readable ≡ true → (p : P) × (fe.read_proc ≡ some p)
    pub writer : fe.mask.writable ≡ true → (p : P) × (fe.write_proc ≡ some p)

  module _ {W : Type 0} (epoll_ctl : Op → ℤ → Mask → W → ℤ × W) (watched : W → ℕ → Mask) where
    -- The table and the kernel agree, and no event is watched without a function.
    pub record InSync (e : Epoller P D) (w : W) : Type 0 where
      pub sized : e.file_events.size ≡ e.max_events_size
      pub agree : (i : ℕ) → i < e.max_events_size → watched w i ≡ (e.file_events.at i).mask
      pub ready : (i : ℕ) → i < e.max_events_size → IsReady (e.file_events.at i)

    abbrev pub entry : Epoller P D → ℕ → FileEvent P D
    entry e fd = e.file_events.at fd

    -- One entry written, and the kernel told of it.
    module _ (e : Epoller P D) (w w' : W) (sync : InSync e w) (fd : ℕ) (fe : FileEvent P D) where
      set-InSync :
          IsReady fe
          → ((i : ℕ) → watched w' i ≡ update (watched w) fd fe.mask i)
          → InSync (record e { file_events = set e.file_events fd fe }) w'
      set-InSync ready told = record {
        sized = sync.sized;
        agree = λ i less. told i ∙ elim (eq_cases fd i) [
          | inl q ↦ rw q (
              update_self (watched w) i fe.mask
              ∙ sym (ap (λ (f : FileEvent P D). f.mask) (update_self e.file_events.at i fe)))
          | inr ne ↦
              update_other (watched w) fd i fe.mask ne
              ∙ sync.agree i less
              ∙ sym (ap (λ (f : FileEvent P D). f.mask) (update_other e.file_events.at fd i fe ne))
        ];
        ready = λ i less. elim (eq_cases fd i) [
          | inl q ↦ rw (q, update_self e.file_events.at i fe) ready
          | inr ne ↦ rw (update_other e.file_events.at fd i fe ne) (sync.ready i less)
        ];
      }

    -- After AddEvent: the mask has grown and the function is set, or nothing has changed.
    pub record Added (e : Epoller P D) (fd : ℕ) (mask : Mask) (proc : P) (client_data : Option D)
        (r : ℤ × Epoller P D × W) : Type 0 where
      pub sync : InSync (r.1) (r.2)
      pub outcome :
          ((r.0 ≡ pos 0) × (entry (r.1) fd ≡ with_event (entry e fd) mask proc client_data))
          ⊎ ((r.0 ≡ negsuc 0) × (r.1 ≡ e))
      pub others : (i : ℕ) → fd ≢ i → entry (r.1) i ≡ entry e i

    with_event-IsReady :
        (fe : FileEvent P D) (mask : Mask) (proc : P) (client_data : Option D)
        → IsReady fe
        → IsReady (with_event fe mask proc client_data)
    with_event-IsReady fe mask proc client_data r = record {
      reader = λ t. elim (Bool-cases mask.readable) [
        | inl y ↦ (proc, rw y)
        | inr n ↦ rw n (r.reader (or_left fe.mask.readable mask.readable t n))
      ];
      writer = λ t. elim (Bool-cases mask.writable) [
        | inl y ↦ (proc, rw y)
        | inr n ↦ rw n (r.writer (or_left fe.mask.writable mask.writable t n))
      ];
    }

    module _ (kernel : Kernel epoll_ctl watched) (e : Epoller P D) (w : W) (sync : InSync e w)
        (fd : ℕ) where
      -- The table mirrors what the kernel watches. AddEvent of a descriptor within the table keeps
      -- that: it returns 0 with the bits and the function added, or -1 with the table as it was,
      -- and leaves all other descriptors alone.
      pub add_event-Added :
          (mask : Mask) (proc : P) (client_data : Option D)
          → fd < e.max_events_size
          → Returns
              (Added e fd mask proc client_data)
              (add_event epoll_ctl e (pos fd) mask proc client_data w)
      unfolding add_event
      add_event-Added mask proc client_data inside =
          let there : fd < e.file_events.size = omega (arith, sync.sized) in
          let fe = entry e fd in
          let op = if is_none fe.mask then ctl_add else ctl_mod in
          let low : leb_ℤ (pos e.max_events_size) (pos fd) ≡ false = ground arith in
          rw (low, load-ok e.file_events fd there)
            (elim (kernel.effect op fd (join mask fe.mask) w) [
              | inl (failed, same) ↦ rw failed (
                  returns (record {
                    sync = record {
                      sized = sync.sized;
                      agree = λ i less. same i ∙ sync.agree i less;
                      ready = sync.ready;
                    };
                    outcome = inr (refl, refl);
                    others = λ i ne. refl;
                  }))
              | inr (done, told) ↦
                  let new = with_event fe mask proc client_data in
                  rw (done, store-ok e.file_events fd new there)
                    (returns (record {
                      sync =
                          set-InSync e w _ sync fd new
                            (with_event-IsReady fe mask proc client_data (sync.ready fd inside))
                            (λ i.
                              told i
                              ∙ ap (λ (m : Mask). update (watched w) fd m i)
                                  (wanted-change (is_none fe.mask) (join mask fe.mask)
                                    ∙ join_comm mask fe.mask));
                      outcome = inl (refl, update_self e.file_events.at fd new);
                      others = λ i ne. update_other e.file_events.at fd i new ne;
                    }))
            ])

      -- DelEvent of a descriptor within a table that mirrors the kernel takes out exactly the bits
      -- asked for, here and in the kernel, and leaves all other descriptors alone.
      pub del_event-Deleted :
          (mask : Mask)
          → fd < e.max_events_size
          → Returns
              (λ r.
                InSync (r.0) (r.1)
                × ((entry (r.0) fd).mask ≡ without (entry e fd).mask mask)
                × ((i : ℕ) → fd ≢ i → entry (r.0) i ≡ entry e i))
              (del_event epoll_ctl e (pos fd) mask w)
      unfolding del_event
      del_event-Deleted mask inside =
          let there : fd < e.file_events.size = omega (arith, sync.sized) in
          let fe = entry e fd in
          let low : leb_ℤ (pos e.max_events_size) (pos fd) ≡ false = ground arith in
          let rest = without fe.mask mask in
          let op = if is_none rest then ctl_del else ctl_mod in
          rw (low, load-ok e.file_events fd there)
            (elim (Bool-cases (is_none fe.mask)) [
              | inl idle ↦ rw idle (returns (sync, idle-without fe.mask mask idle, λ i ne. refl))
              | inr busy ↦
                  let new = record fe { mask = rest } in
                  let r = sync.ready fd inside in
                  let ready : IsReady new = record {
                    reader = λ t. r.reader (and_left fe.mask.readable (not mask.readable) t);
                    writer = λ t. r.writer (and_left fe.mask.writable (not mask.writable) t);
                  } in
                  let watching : is_none (watched w fd) ≡ false =
                    ap (λ (m : Mask). is_none m) (sync.agree fd inside) ∙ busy in
                  let done = kernel.removes op fd rest w watching (not_add (is_none rest)) in
                  rw (busy, store-ok e.file_events fd new there)
                    (elim (kernel.effect op fd rest w) [
                      | inl (failed, same) ↦ absurd (cc)
                      | inr (_, told) ↦ returns (
                        set-InSync e w _ sync fd new ready (λ i.
                            told i
                            ∙ ap (λ (m : Mask). update (watched w) fd m i) (wanted-rest rest)),
                        ap (λ (f : FileEvent P D). f.mask) (update_self e.file_events.at fd new),
                        λ i ne. update_other e.file_events.at fd i new ne,
                      )
                    ])
            ])
