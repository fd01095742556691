-- ===== src/ConnCache/Proto.antt =====
-- A package in front of what the client has received.
use play_frame.Common.{
  ℕ, ◌+◌, ◌-◌, ◌*◌, ◌≤◌, ◌≡◌, refl, sym, ap, ◌∙◌, List, ◌++◌, drop, length, arith, true, ltb, leb,
  ◌&&◌, le→ltb,
}
use play_frame.Common.Run.{ok, Returns, returns}
use play_frame.Common.Array.{load-ok}
use play_frame.Common.Buffer.{memcpy-ok, copied-front, drop-window, drop-append}
use play_frame.Connection.Frames.{framed}
use play_frame.Connection.Package.{Front, window-Front}
use play_frame.ConnCache.{
  ConnCache, get_recv_proto_len, is_recv_proto_ready, skip_recv_data, skip_recv_proto,
}
use play_frame.ConnCache.Growth.{IsValid, received, unsent}

-- With a whole package of a message of 1 to 65533 bytes in front, as the servers send it, the cache
-- is ready and tells its length, and SkipRecvProto takes exactly this package away.
pub skip_recv_proto-received :
    (c : ConnCache) (m rest : List ℕ)
    → IsValid c
    → 1 ≤ length m
    → length m ≤ 65533
    → received c ≡ framed m ++ rest
    → (is_recv_proto_ready c ≡ ok true)
      × (get_recv_proto_len c ≡ ok (length m + 2))
      × Returns (λ d. IsValid d × (received d ≡ rest) × (unsent d ≡ unsent c)) (skip_recv_proto c)
unfolding is_recv_proto_ready get_recv_proto_len skip_recv_proto skip_recv_data
skip_recv_proto-received c m rest v low high front =
    let f : Front c.recv_buf.at c.recv_buf_size m rest =
      window-Front c.recv_buf.at c.recv_buf_size m rest front in
    let inside = f.fits in
    let room = v.recv_fits in
    let a = load-ok c.recv_buf 0 (omega arith) in
    let b = load-ok c.recv_buf 1 (omega arith) in
    let len : c.recv_buf.at 0 * 256 + c.recv_buf.at 1 ≡ length m + 2 =
      omega (arith, f.high, f.low) in
    let n = c.recv_buf_size - (length m + 2) in
    let ready : (ltb 2 c.recv_buf_size && leb (length m + 2) c.recv_buf_size) ≡ true =
      ground arith in
    (
      rw (a, b, len, ready),
      rw (a, b, len),
      rw
          (
            a,
            b,
            len,
            le→ltb c.recv_buf_size (length m + 2) inside,
            memcpy-ok c.recv_buf 0 c.recv_buf (length m + 2) n (omega arith) (omega arith),
          )
          (returns (
            record { send_fits = v.send_fits; recv_fits = omega arith },
            copied-front c.recv_buf.at c.recv_buf.at (length m + 2) n
                ∙ sym (
                    drop-window c.recv_buf.at 0 c.recv_buf_size (length m + 2) (length m + 2) inside
                      (omega arith))
                ∙ ap (drop (length m + 2)) front
                ∙ ap (λ (k : ℕ). drop k (framed m ++ rest)) {y = length (framed m)} (omega arith)
                ∙ drop-append (framed m) rest,
            refl,
          )),
    )
