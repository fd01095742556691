-- ===== src/EventModule/Tests.antt =====
-- A client on socket 7, whose two messages arrive in three pieces, and a network without errors.
use play_frame.Common.{
  ℕ, zero, suc, ◌+◌, ◌≡◌, refl, sym, ap, ◌∙◌, some, none, List, [], ◌∷◌, ◌++◌, length, arith, inl,
  ◌⊎◌, true, false,
}
use play_frame.Common.Int.{ℤ, pos, negsuc}
use play_frame.Common.Run.{fault, Returns}
use play_frame.Common.Array.{Array, load}
use play_frame.Common.Buffer.{window, window-cong}
use play_frame.ShmPool.Sample.{pool_with}
use play_frame.ShmPool.Memory.{Knows}
use play_frame.ShmPool.{find}
use play_frame.Connection.{Connection, blank_buf}
use play_frame.Connection.Bytes
use play_frame.Connection.Bytes.{unsent, proto_len}
use play_frame.ConnMgr.Sample.{client, clients, Knows-client, get_conn-client, clients-IsSound}
use play_frame.ConnMgr.{get_conn, get_cur_conn_map_size}
use play_frame.Epoller
use play_frame.Epoller.{Op, Mask}
use play_frame.EventModule.{
  epoller_ptr, Os, Server, do_tcp_accept, do_tcp_write, zmq_read_loop, read_loop,
}
use play_frame.EventModule.Forward.{Packets, packets, Accepts, at_conn}
use play_frame.EventModule.Stream.{Delivers, reads, reads-packets}
use play_frame.EventModule.Accept.{Accepted, do_tcp_accept-Accepted}
use play_frame.EventModule.Wire.{Sends, outgoing, take_all, do_tcp_write-outgoing}
use play_frame.EventModule.Answer.{proc_data, zmq_read_loop-outgoing}
use play_frame.EventModule.Faults.{read_loop-short, do_tcp_write-null}

record Outside : Type 0 where
  arriving : List (List ℕ)
  log : Packets
  wire : List ℕ

abbrev entry_of : List ℕ → ℕ → ℕ
entry_of [] i = 0
entry_of (x ∷ xs) zero = x
entry_of (x ∷ xs) (suc i) = entry_of xs i

abbrev buffer_of : List ℕ → Array ℕ
buffer_of xs = record { size = length xs; at = entry_of xs }

window-entry_of : (xs : List ℕ) → window (entry_of xs) 0 (length xs) ≡ xs
window-entry_of [] = refl
window-entry_of (x ∷ xs) =
    ap (λ (l : List ℕ). x ∷ l)
      (window-cong (entry_of (x ∷ xs)) (entry_of xs) 1 0 (length xs) (λ i less.
          let e : 1 + i ≡ suc i = omega arith in
          let e' : 0 + i ≡ i = omega arith in ap (entry_of (x ∷ xs)) e ∙ sym (ap (entry_of xs) e'))
        ∙ window-entry_of xs)

abbrev next_piece : List (List ℕ) → Outside → ℤ × Array ℕ × Outside
next_piece [] w = (negsuc 0, blank_buf, w)
next_piece (piece ∷ pieces) w =
    (pos (length piece), buffer_of piece, record w { arriving = pieces })

-- The game server sends three bytes, 0, to the client.
abbrev net : Os Outside
net = record {
  max_connection = 3;
  accept = λ fd w. (pos 8, w);
  set_non_block = λ fd w. (true, w);
  recv = λ fd w. next_piece w.arriving w;
  send = λ fd bytes w. (pos (length bytes), record w { wire = w.wire ++ bytes });
  would_block = λ w. false;
  close = λ fd w. w;
  zmq_send = λ d m w. (pos 0, record w { log = w.log ++ (d, m) ∷ [] });
  zmq_recv = λ w. (pos 15, proc_data 7 (pos 1), blank_buf, w);
  epoll_ctl = λ op fd m w. (pos 0, w);
  epoll_wait = λ w. ([], w);
}

net-Accepts : Accepts net (λ w. w.log) (λ w. w.arriving)
net-Accepts = record {
  result = λ d m w. (0, refl);
  logged = λ d m w. refl;
  untouched = λ d m w. refl;
}

net-Delivers : Delivers net (λ w. w.log) (λ w. w.arriving) (pos 7)
net-Delivers = record {
  accepts = net-Accepts;
  count = λ w piece pieces e. rw e;
  holds = λ w piece pieces e. rw e (omega arith, window-entry_of piece);
  rest = λ w piece pieces e. rw e (refl, refl);
}

net-Sends : Sends net (pos 7) (λ w. w.wire)
net-Sends = record {
  effect = λ bytes w. inl (
    length bytes,
    refl,
    omega arith,
    ap (λ (l : List ℕ). w.wire ++ l) (sym (take_all (length bytes) bytes (omega arith))),
  );
  quiet = λ op i mask w. refl;
}

abbrev outside : Outside
outside = record {
  arriving = (0 ∷ []) ∷ (5 ∷ 1 ∷ 2 ∷ 3 ∷ 0 ∷ 6 ∷ []) ∷ (4 ∷ 5 ∷ 6 ∷ 7 ∷ []) ∷ [];
  log = [];
  wire = [];
}

abbrev server : Server Outside
server = record {
  conn_mgr = clients;
  epoller = record {
    max_events_size = 16;
    file_events = record { size = 16; at = λ i. Epoller.no_event };
  };
  world = outside;
}

-- A connection with these buffers.
abbrev with_bytes : List ℕ → List ℕ → Connection
with_bytes got waiting = record client {
  recv_buf = record { size = 10240; at = entry_of got };
  recv_buf_size = length got;
  send_buf = record { size = 10240; at = entry_of waiting };
  send_buf_size = length waiting;
}

abbrev busy_server : List ℕ → List ℕ → Server Outside
busy_server got waiting = record server {
  conn_mgr = record clients { conn_pool = pool_with (with_bytes got waiting) };
}

client-IsValid : Bytes.IsValid client
client-IsValid = record {
  recv_sized = refl;
  send_sized = refl;
  recv_fits = omega arith;
  send_fits = omega arith;
}

reads-packets_example :
    Returns
      (λ s'.
        (s'.world.log ≡ packets client (pos 7) ((1 ∷ 2 ∷ 3 ∷ []) ∷ (4 ∷ 5 ∷ 6 ∷ 7 ∷ []) ∷ []))
        × ((at_conn s' 2).recv_buf_size ≡ 0))
      (reads net (λ w. w.log) (λ w. w.arriving) (pos 7) (λ n. some epoller_ptr) 3 server)
reads-packets_example =
    reads-packets net (λ w. w.log) (λ w. w.arriving) (pos 7) (λ n. some epoller_ptr) net-Delivers 6
      (omega arith) server 2 ((1 ∷ 2 ∷ 3 ∷ []) ∷ (4 ∷ 5 ∷ 6 ∷ 7 ∷ []) ∷ []) get_conn-client
      Knows-client client-IsValid refl
      (
        record { low = omega arith; high = omega arith },
        (record { low = omega arith; high = omega arith }, tt),
      )
      (omega arith) refl
      (
        record { some_bytes = omega arith; fits = omega arith },
        (
          record { some_bytes = omega arith; fits = omega arith },
          (record { some_bytes = omega arith; fits = omega arith }, tt),
        ),
      )

fresh_socket : get_conn clients (pos 8) ≡ none
unfolding get_conn
fresh_socket = refl

do_tcp_accept-Accepted_example :
    Returns
      (λ s'. ((get_cur_conn_map_size clients ≡ 3) × (s' ≡ server)) ⊎ Accepted server (pos 8) s')
      (do_tcp_accept net server (pos 5) (some epoller_ptr))
do_tcp_accept-Accepted_example =
    do_tcp_accept-Accepted net server (pos 5) 8 clients-IsSound refl refl refl fresh_socket
      (λ w. refl)

Knows-busy : Knows (pool_with (with_bytes (0 ∷ 0 ∷ 9 ∷ 9 ∷ 9 ∷ []) (1 ∷ 2 ∷ []))) 2
unfolding find load
Knows-busy = refl

busy-IsValid : Bytes.IsValid (with_bytes (0 ∷ 0 ∷ 9 ∷ 9 ∷ 9 ∷ []) (1 ∷ 2 ∷ []))
busy-IsValid = record {
  recv_sized = refl;
  send_sized = refl;
  recv_fits = omega arith;
  send_fits = omega arith;
}

abbrev busy : Server Outside
busy = busy_server (0 ∷ 0 ∷ 9 ∷ 9 ∷ 9 ∷ []) (1 ∷ 2 ∷ [])

get_conn-busy : get_conn busy.conn_mgr (pos 7) ≡ some 2
unfolding get_conn
get_conn-busy = refl

do_tcp_write-outgoing_example :
    Returns
      (λ s'. outgoing (λ w. w.wire) s' 2 ≡ 1 ∷ 2 ∷ [])
      (do_tcp_write net busy (pos 7) (some epoller_ptr))
do_tcp_write-outgoing_example =
    do_tcp_write-outgoing net 7 (λ w. w.wire) net-Sends busy 2 2 get_conn-busy Knows-busy
      busy-IsValid refl refl

zmq_read_loop-outgoing_example :
    Returns
      (λ s'. outgoing (λ w. w.wire) s' 2 ≡ 1 ∷ 2 ∷ 0 ∷ 5 ∷ 0 ∷ 0 ∷ 0 ∷ [])
      (zmq_read_loop net busy)
zmq_read_loop-outgoing_example =
    zmq_read_loop-outgoing net 7 (λ w. w.wire) net-Sends busy 2 3 5 (pos 1) blank_buf outside refl
      refl refl (omega arith) get_conn-busy Knows-busy busy-IsValid refl (omega arith) refl

read_loop-short_example : read_loop net 6 busy 2 (pos 7) none ≡ fault
read_loop-short_example =
    read_loop-short net busy 2 (pos 7) Knows-busy busy-IsValid 5 none (omega arith) (omega arith)

do_tcp_write-null_example : do_tcp_write net busy (pos 7) none ≡ fault
do_tcp_write-null_example =
    do_tcp_write-null net busy 2 (pos 7) Knows-busy busy-IsValid get_conn-busy refl
