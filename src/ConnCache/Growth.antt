-- ===== src/ConnCache/Growth.antt =====
-- The buffers grow until the bytes fit, and keep what they hold.
use play_frame.Common.{
  ℕ, zero, suc, ◌+◌, ◌-◌, ◌*◌, ◌≤◌, ◌<◌, ◌≡◌, refl, ap, ◌∙◌, List, ◌++◌, arith, ltb, ◌==◌, ltb→lt,
  ltb_false→le,
}
use play_frame.Common.Run.{Returns, returns, Returns-if, Returns-bind, Returns-map}
use play_frame.Common.Array.{Array}
use play_frame.Common.Buffer.{window, memcpy-ok, copied-append, copied-front}
use play_frame.ConnCache.{ConnCache, expand_buf, expand, reserve, add_send_data, add_recv_data}

-- The counts stay within the capacities.
pub record IsValid (c : ConnCache) : Type 0 where
  pub send_fits : c.send_buf_size ≤ c.send_buf.size
  pub recv_fits : c.recv_buf_size ≤ c.recv_buf.size

abbrev pub unsent : ConnCache → List ℕ
unsent c = window c.send_buf.at 0 c.send_buf_size

abbrev pub received : ConnCache → List ℕ
received c = window c.recv_buf.at 0 c.recv_buf_size

-- The same bytes, in buffers that are no smaller.
pub record Kept (c c' : ConnCache) : Type 0 where
  pub valid : IsValid c'
  pub send_size : c'.send_buf_size ≡ c.send_buf_size
  pub recv_size : c'.recv_buf_size ≡ c.recv_buf_size
  pub send : unsent c' ≡ unsent c
  pub recv : received c' ≡ received c

Kept-trans : (a b c : ConnCache) → Kept a b → Kept b c → Kept a c
Kept-trans a b c p q = record {
  valid = q.valid;
  send_size = q.send_size ∙ p.send_size;
  recv_size = q.recv_size ∙ p.recv_size;
  send = q.send ∙ p.send;
  recv = q.recv ∙ p.recv;
}

module _ (garbage : ℕ → ℕ) where
  expand_buf-window :
      (buf : Array ℕ) (n : ℕ)
      → n ≤ buf.size
      → Returns
          (λ b. (window b.at 0 n ≡ window buf.at 0 n) × (buf.size < b.size))
          (expand_buf garbage buf n)
  unfolding expand_buf
  expand_buf-window buf n fits =
      Returns-if (buf.size == 0)
        (λ empty.
          let nothing : n ≡ 0 = ground (arith, fits) in
          let less : buf.size < 102400 = ground arith in returns (rw nothing, less))
        (λ some_room.
          let new : Array ℕ = record { size = buf.size * 2; at = garbage } in
          let less : buf.size < buf.size * 2 = ground arith in
          rw (memcpy-ok new 0 buf 0 n (omega arith) (omega arith))
            (returns (copied-front garbage buf.at 0 n, less)))

  expand-Kept :
      (c : ConnCache)
      → IsValid c
      → Returns
          (λ d.
            Kept c d × (c.send_buf.size < d.send_buf.size) × (c.recv_buf.size < d.recv_buf.size))
          (expand garbage c)
  unfolding expand
  expand-Kept c v =
      Returns-bind (expand_buf-window c.send_buf c.send_buf_size v.send_fits) λ s (same_s, more_s).
        Returns-bind (expand_buf-window c.recv_buf c.recv_buf_size v.recv_fits)
          λ r (same_r, more_r). returns (
            record {
              valid = record {
                send_fits = omega (arith, v.send_fits, more_s);
                recv_fits = omega (arith, v.recv_fits, more_r);
              };
              send_size = refl;
              recv_size = refl;
              send = same_s;
              recv = same_r;
            },
            more_s,
            more_r,
          )

  send_grows :
      (c : ConnCache)
      → IsValid c
      → Returns (λ d. Kept c d × (c.send_buf.size < d.send_buf.size)) (expand garbage c)
  send_grows c v = Returns-map (expand-Kept c v) λ d (kept, s, r). (kept, s)

  recv_grows :
      (c : ConnCache)
      → IsValid c
      → Returns (λ d. Kept c d × (c.recv_buf.size < d.recv_buf.size)) (expand garbage c)
  recv_grows c v = Returns-map (expand-Kept c v) λ d (kept, s, r). (kept, r)

  -- A capacity that `expand` enlarges.
  reserve-Kept :
      (capacity : ConnCache → ℕ)
      → ((c : ConnCache)
          → IsValid c
          → Returns (λ d. Kept c d × (capacity c < capacity d)) (expand garbage c))
      → (need k : ℕ) (c : ConnCache) → IsValid c
      → need - capacity c < k
      → Returns (λ d. Kept c d × (need ≤ capacity d)) (reserve garbage capacity need k c)
  unfolding reserve
  reserve-Kept capacity grows need zero c v fuel = absurd (omega arith)
  reserve-Kept capacity grows need (suc k) c v fuel =
      Returns-if (ltb (capacity c) need)
        (λ more. Returns-bind (grows c v) λ d (kept, larger).
          Returns-map
            (reserve-Kept capacity grows need k d kept.valid
              (let lacking = ltb→lt (capacity c) need more in omega arith))
            λ e (kept', enough). (Kept-trans c d e kept kept', enough))
        (λ enough. returns (
          record { valid = v; send_size = refl; recv_size = refl; send = refl; recv = refl },
          ltb_false→le (capacity c) need enough,
        ))

-- Room is made as needed: on a cache whose counts stay within its capacities, AddRecvData of
-- `n` bytes always ends, with the bytes behind those that wait to be read; the other buffer keeps
-- its bytes, and the counts stay within the capacities.
pub add_recv_data-received :
    (garbage : ℕ → ℕ) (c : ConnCache) (buf : Array ℕ) (n : ℕ)
    → IsValid c
    → n ≤ buf.size
    → Returns
        (λ d. IsValid d × (received d ≡ received c ++ window buf.at 0 n) × (unsent d ≡ unsent c))
        (add_recv_data garbage c buf n)
unfolding add_recv_data
add_recv_data-received garbage c buf n v there =
    Returns-bind
      (reserve-Kept garbage (λ d. d.recv_buf.size) (recv_grows garbage) (c.recv_buf_size + n)
        (c.recv_buf_size + n + 1) c v (omega arith))
      λ d (kept, room).
        let fits : d.recv_buf_size + n ≤ d.recv_buf.size = omega (arith, kept.recv_size) in
        let w = kept.valid in
        rw (memcpy-ok d.recv_buf d.recv_buf_size buf 0 n fits (omega arith)) (
          returns (
            record { send_fits = w.send_fits; recv_fits = fits },
            copied-append d.recv_buf.at buf.at d.recv_buf_size 0 n
                ∙ ap (λ (l : List ℕ). l ++ window buf.at 0 n) kept.recv,
            kept.send,
          ))

-- AddSendData of `n` bytes always ends, too, with the bytes behind those that wait to be sent.
pub add_send_data-unsent :
    (garbage : ℕ → ℕ) (c : ConnCache) (buf : Array ℕ) (n : ℕ)
    → IsValid c
    → n ≤ buf.size
    → Returns
        (λ d. IsValid d × (unsent d ≡ unsent c ++ window buf.at 0 n) × (received d ≡ received c))
        (add_send_data garbage c buf n)
unfolding add_send_data
add_send_data-unsent garbage c buf n v there =
    Returns-bind
      (reserve-Kept garbage (λ d. d.send_buf.size) (send_grows garbage) (c.send_buf_size + n)
        (c.send_buf_size + n + 1) c v (omega arith))
      λ d (kept, room).
        let fits : d.send_buf_size + n ≤ d.send_buf.size = omega (arith, kept.send_size) in
        let w = kept.valid in
        rw (memcpy-ok d.send_buf d.send_buf_size buf 0 n fits (omega arith)) (
          returns (
            record { send_fits = fits; recv_fits = w.recv_fits },
            copied-append d.send_buf.at buf.at d.send_buf_size 0 n
                ∙ ap (λ (l : List ℕ). l ++ window buf.at 0 n) kept.send,
            kept.recv,
          ))
