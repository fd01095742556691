-- ===== src/Connection/Bytes.antt =====
-- The buffers as queues of bytes.
use play_frame.Common.{
  ℕ, ◌+◌, ◌-◌, ◌*◌, ◌≤◌, ◌≡◌, ◌∙◌, List, drop, arith, le→ltb, false, leb, ltb, if◌then◌else◌, sym,
}
use play_frame.Common.Int.{pos}
use play_frame.Common.Run.{ok}
use play_frame.Common.Array.{Array, load-ok}
use play_frame.Common.Buffer.{window, memcpy-ok, copied, copied-front, drop-window}
use play_frame.Connection.{
  Connection, add_recv_data, get_recv_proto_len, is_recv_proto_ready, remove_recv_proto,
  add_send_data, remove_send_data,
}

-- The arrays have their size, and the counts stay within it.
pub record IsValid (c : Connection) : Type 0 where
  pub recv_sized : c.recv_buf.size ≡ 10240
  pub send_sized : c.send_buf.size ≡ 10240
  pub recv_fits : c.recv_buf_size ≤ 10240
  pub send_fits : c.send_buf_size ≤ 10240

abbrev pub received : Connection → List ℕ
received c = window c.recv_buf.at 0 c.recv_buf_size

abbrev pub unsent : Connection → List ℕ
unsent c = window c.send_buf.at 0 c.send_buf_size

-- The state after `bytes` have come in.
abbrev pub received_more : Connection → Array ℕ → ℕ → ℕ → Connection
received_more c buf from n = record c {
  recv_buf = record c.recv_buf { at = copied c.recv_buf.at c.recv_buf_size buf.at from n };
  recv_buf_size = c.recv_buf_size + n;
}

abbrev pub unsent_more : Connection → Array ℕ → ℕ → ℕ → Connection
unsent_more c buf from n = record c {
  send_buf = record c.send_buf { at = copied c.send_buf.at c.send_buf_size buf.at from n };
  send_buf_size = c.send_buf_size + n;
}

abbrev pub removed : Connection → ℕ → Connection
removed c n = record c {
  recv_buf = record c.recv_buf {
    at = copied c.recv_buf.at 0 c.recv_buf.at n (c.recv_buf_size - n);
  };
  recv_buf_size = c.recv_buf_size - n;
}

abbrev pub unsent_less : Connection → ℕ → Connection
unsent_less c n = record c {
  send_buf = record c.send_buf {
    at = copied c.send_buf.at 0 c.send_buf.at n (c.send_buf_size - n);
  };
  send_buf_size = c.send_buf_size - n;
}

module _ (c : Connection) (v : IsValid c) where
  module _ (buf : Array ℕ) (from n : ℕ) (there : from + n ≤ buf.size) where
    pub add_recv_data-ok :
        c.recv_buf_size + n ≤ 10240
        → add_recv_data c buf from n ≡ ok (pos 0, received_more c buf from n)
    unfolding add_recv_data
    add_recv_data-ok fits = rw (
      le→ltb 10240 (c.recv_buf_size + n) fits,
      memcpy-ok c.recv_buf c.recv_buf_size buf from n (omega (arith, v.recv_sized)) there,
    )

    pub add_send_data-ok :
        c.send_buf_size + n ≤ 10240
        → add_send_data c buf from n ≡ ok (pos 0, unsent_more c buf from n)
    unfolding add_send_data
    add_send_data-ok fits = rw (
      le→ltb 10240 (c.send_buf_size + n) fits,
      memcpy-ok c.send_buf c.send_buf_size buf from n (omega (arith, v.send_sized)) there,
    )

    pub received_more-IsValid : c.recv_buf_size + n ≤ 10240 → IsValid (received_more c buf from n)
    received_more-IsValid fits = record {
      recv_sized = v.recv_sized;
      send_sized = v.send_sized;
      recv_fits = fits;
      send_fits = v.send_fits;
    }

    pub unsent_more-IsValid : c.send_buf_size + n ≤ 10240 → IsValid (unsent_more c buf from n)
    unsent_more-IsValid fits = record {
      recv_sized = v.recv_sized;
      send_sized = v.send_sized;
      recv_fits = v.recv_fits;
      send_fits = fits;
    }

  -- The two bytes in front.
  abbrev pub proto_len : ℕ
  proto_len = c.recv_buf.at 0 * 256 + c.recv_buf.at 1

  pub get_recv_proto_len-ok : get_recv_proto_len c ≡ ok proto_len
  unfolding get_recv_proto_len
  get_recv_proto_len-ok = rw (
    load-ok c.recv_buf 0 (omega (arith, v.recv_sized)),
    load-ok c.recv_buf 1 (omega (arith, v.recv_sized)),
  )

  pub ready-ok :
      is_recv_proto_ready c
      ≡ ok (if ltb 4 c.recv_buf_size then leb proto_len c.recv_buf_size else false)
  unfolding is_recv_proto_ready
  ready-ok = rw get_recv_proto_len-ok (ground arith)

  pub remove_recv_proto-ok :
      proto_len ≤ c.recv_buf_size → remove_recv_proto c ≡ ok (removed c proto_len)
  unfolding remove_recv_proto
  remove_recv_proto-ok le = rw (
    get_recv_proto_len-ok,
    le→ltb c.recv_buf_size proto_len le,
    memcpy-ok c.recv_buf 0 c.recv_buf proto_len (c.recv_buf_size - proto_len)
        (omega (arith, v.recv_sized, v.recv_fits)) (omega (arith, v.recv_sized, v.recv_fits)),
  )

  pub remove_send_data-ok :
      (n : ℕ) → n ≤ c.send_buf_size → remove_send_data c n ≡ ok (unsent_less c n)
  unfolding remove_send_data
  remove_send_data-ok n le = rw (
    le→ltb c.send_buf_size n le,
    memcpy-ok c.send_buf 0 c.send_buf n (c.send_buf_size - n)
        (omega (arith, v.send_sized, v.send_fits)) (omega (arith, v.send_sized, v.send_fits)),
  )

  pub removed-IsValid : (n : ℕ) → IsValid (removed c n)
  removed-IsValid n = record {
    recv_sized = v.recv_sized;
    send_sized = v.send_sized;
    recv_fits = omega (arith, v.recv_fits);
    send_fits = v.send_fits;
  }

  pub unsent_less-IsValid : (n : ℕ) → IsValid (unsent_less c n)
  unsent_less-IsValid n = record {
    recv_sized = v.recv_sized;
    send_sized = v.send_sized;
    recv_fits = v.recv_fits;
    send_fits = omega (arith, v.send_fits);
  }

pub received-removed :
    (c : Connection) (n : ℕ) → n ≤ c.recv_buf_size → received (removed c n) ≡ drop n (received c)
received-removed c n le =
    copied-front c.recv_buf.at c.recv_buf.at n (c.recv_buf_size - n)
    ∙ sym (drop-window c.recv_buf.at 0 c.recv_buf_size n n le (omega arith))

pub unsent-less :
    (c : Connection) (n : ℕ) → n ≤ c.send_buf_size → unsent (unsent_less c n) ≡ drop n (unsent c)
unsent-less c n le =
    copied-front c.send_buf.at c.send_buf.at n (c.send_buf_size - n)
    ∙ sym (drop-window c.send_buf.at 0 c.send_buf_size n n le (omega arith))
