-- ===== src/Epoller.antt =====
-- src/common/frame/epoller.h and epoller.cpp: the events that are watched, and the functions to call.
-- A mask is its two bits. `P` are the functions a `FileProc*` points to, `D` what `client_data` points
-- to, `W` is the state of the system, and the kernel's `epoll_ctl` and `epoll_wait` are arguments.
pub mod Sync
pub mod Dispatch
mod Tests
use play_frame.Common.{
  ℕ, ◌+◌, Bool, true, false, ◌&&◌, ◌||◌, not, Option, none, some, List, [], ◌∷◌, if◌then◌else◌,
}
use play_frame.Common.Int.{ℤ, pos, negsuc, ◌==ℤ◌, leb_ℤ}
use play_frame.Common.Run.{Run, ok, fault, ◌>>=◌}
use play_frame.Common.Array.{Array, index, load, store}

-- EVENT_READ and EVENT_WRITE, and, for the kernel, EPOLLIN and EPOLLOUT.
pub record Mask : Type 0 where
  pub readable : Bool
  pub writable : Bool

abbrev pub event_none : Mask
event_none = record { readable = false; writable = false }

abbrev pub event_read : Mask
event_read = record { readable = true; writable = false }

abbrev pub event_write : Mask
event_write = record { readable = false; writable = true }

abbrev pub event_both : Mask
event_both = record { readable = true; writable = true }

abbrev pub is_none : Mask → Bool
is_none m = not (m.readable || m.writable)

-- `a | b` and `a & ~b`.
abbrev pub join : Mask → Mask → Mask
join a b = record { readable = a.readable || b.readable; writable = a.writable || b.writable }

abbrev pub without : Mask → Mask → Mask
without a b = record {
  readable = a.readable && not b.readable;
  writable = a.writable && not b.writable;
}

pub data Op : Type 0 where
  ctl_add ctl_mod ctl_del : Op

pub record FileEvent (P D : Type 0) : Type 0 where
  pub mask : Mask
  pub read_proc : Option P
  pub write_proc : Option P
  pub client_data : Option D

pub record Epoller (P D : Type 0) : Type 0 where
  pub max_events_size : ℕ
  pub file_events : Array (FileEvent P D)

-- What `epoll_wait` reports of one descriptor.
pub record EpollEvent : Type 0 where
  pub fd : ℕ
  pub in_ : Bool
  pub out : Bool
  pub err : Bool
  pub hup : Bool

module _ {P D : Type 0} where
  abbrev pub no_event : FileEvent P D
  no_event = record { mask = event_none; read_proc = none; write_proc = none; client_data = none }

  -- Epoller::Init; `malloc` and `epoll_create` succeed.
  unfoldable pub init : ℕ → Epoller P D
  init max_events_size = record {
    max_events_size = max_events_size;
    file_events = record { size = max_events_size; at = λ i. no_event };
  }

  abbrev pub with_event : FileEvent P D → Mask → P → Option D → FileEvent P D
  with_event fe mask proc client_data = record {
    mask = join fe.mask mask;
    read_proc = if mask.readable then some proc else fe.read_proc;
    write_proc = if mask.writable then some proc else fe.write_proc;
    client_data = client_data;
  }

  module _ {W : Type 0} (epoll_ctl : Op → ℤ → Mask → W → ℤ × W) where
    unfoldable pub add_event : Epoller P D → ℤ → Mask → P → Option D → W → Run (ℤ × Epoller P D × W)
    add_event e fd mask proc client_data w =
        if leb_ℤ (pos e.max_events_size) fd then ok (negsuc 0, e, w) else do
          i ← index fd
          fe ← load e.file_events i
          let (ret, w') =
              epoll_ctl (if is_none fe.mask then ctl_add else ctl_mod) fd (join mask fe.mask) w
          if ret ==ℤ negsuc 0 then ok (negsuc 0, e, w') else do
            events ← store e.file_events i (with_event fe mask proc client_data)
            ok (pos 0, record e { file_events = events }, w')

    unfoldable pub del_event : Epoller P D → ℤ → Mask → W → Run (Epoller P D × W)
    del_event e fd mask w = if leb_ℤ (pos e.max_events_size) fd then ok (e, w) else do
      i ← index fd
      fe ← load e.file_events i
      if is_none fe.mask then ok (e, w) else do
        let rest = without fe.mask mask
        events ← store e.file_events i (record fe { mask = rest })
        let (ret, w') = epoll_ctl (if is_none rest then ctl_del else ctl_mod) fd rest w
        ok (record e { file_events = events }, w')

    unfoldable pub clear_event : Epoller P D → ℤ → W → Run (Epoller P D × W)
    clear_event e fd w = del_event e fd event_both w

  module _ {ℓ} {S : Type ℓ} (epoller_of : S → Epoller P D)
      (call : P → ℕ → Option D → S → Run S) where
    -- A call through a function pointer, which may be null.
    call_proc : Option P → ℕ → Option D → S → Run S
    call_proc none fd client_data s = fault
    call_proc (some proc) fd client_data s = call proc fd client_data s

    -- `fe` points into the array: each call reads it again.
    call_read : ℕ → S → Run S
    unfolding call_proc
    call_read fd s = do
      fe ← load (epoller_of s).file_events fd
      call_proc fe.read_proc fd fe.client_data s

    call_write : ℕ → S → Run S
    unfolding call_proc
    call_write fd s = do
      fe ← load (epoller_of s).file_events fd
      call_proc fe.write_proc fd fe.client_data s

    -- One round of the `for` of Loop.
    unfoldable pub dispatch : EpollEvent → S → Run S
    unfolding call_read call_write
    dispatch e s = do
      s1 ← if e.in_ then call_read e.fd s else ok s
      s2 ← if e.out then call_write e.fd s1 else ok s1
      s3 ← if e.err then call_write e.fd s2 else ok s2
      if e.hup then call_write e.fd s3 else ok s3

    -- The rounds, for the events that `epoll_wait` has filled in.
    pub dispatch_all : List EpollEvent → S → Run S
    dispatch_all [] s = ok s
    dispatch_all (e ∷ events) s = dispatch e s >>= dispatch_all events

    -- Loop.
    unfoldable pub loop : (S → List EpollEvent × S) → S → Run S
    loop epoll_wait s = let (events, s') = epoll_wait s in dispatch_all events s'
