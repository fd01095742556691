-- ===== src/Connection/Package.antt =====
-- The package in front of the receive buffer.
use play_frame.Common.{
  ℕ, zero, suc, ◌+◌, ◌*◌, ◌/◌, ◌%◌, ◌≤◌, ◌<◌, ◌≡◌, refl, ap, ◌∙◌, List, ◌++◌, drop, length,
  length-append, arith, true, false, ltb, inl, inr, Bool-cases,
}
use play_frame.Common.Run.{ok}
use play_frame.Common.Buffer.{window, length-window, window-prefix, drop-append}
use play_frame.Connection.{Connection, is_recv_proto_ready}
use play_frame.Connection.Bytes.{IsValid, received, removed, proto_len, ready-ok, received-removed}
use play_frame.Connection.Frames.{IsMessage, framed, NotReady, announced}

announced-window : (f : ℕ → ℕ) (n : ℕ) → 2 ≤ n → announced (window f 0 n) ≡ f 0 * 256 + f 1
announced-window f zero le = absurd (omega arith)
announced-window f (suc zero) le = absurd (omega arith)
announced-window f (suc (suc n)) le = refl

-- The two bytes in front are the length of the package of `m`, which is all there.
pub record Front (f : ℕ → ℕ) (size : ℕ) (m rest : List ℕ) : Type 0 where
  pub fits : length m + 2 ≤ size
  pub high : f 0 ≡ (length m + 2) / 256
  pub low : f 1 ≡ (length m + 2) % 256
  pub message : window f 2 (length m) ≡ m

pub window-Front :
    (f : ℕ → ℕ) (size : ℕ) (m rest : List ℕ)
    → window f 0 size ≡ framed m ++ rest
    → Front f size m rest
window-Front f zero m rest e = absurd (cc)
window-Front f (suc zero) m rest e = absurd (cc)
window-Front f (suc (suc n)) m rest e =
    let tail : window f 2 n ≡ m ++ rest = cc in
    let size = length-window f 2 n in
    let whole = ap length tail in
    let parts = length-append m rest in
    record {
      fits = omega (arith, size, whole, parts);
      high = cc;
      low = cc;
      message = window-prefix f 2 n m rest tail;
    }

module _ (c : Connection) (v : IsValid c) where
  pub waiting-NotReady : NotReady (received c) → is_recv_proto_ready c ≡ ok false
  waiting-NotReady (inl short) =
      let n = length-window c.recv_buf.at 0 c.recv_buf_size in
      ready-ok c v ∙ ground (arith, short, n)
  waiting-NotReady (inr less) =
      let n = length-window c.recv_buf.at 0 c.recv_buf_size in
      elim (Bool-cases (ltb 4 c.recv_buf_size)) [
        | inl t ↦
            let a = announced-window c.recv_buf.at c.recv_buf_size (ground arith) in
            ready-ok c v ∙ ground (arith, less, n, a)
        | inr f ↦ ready-ok c v ∙ rw f
      ]

  module _ (m rest : List ℕ) (i : IsMessage m) (front : received c ≡ framed m ++ rest) where
    received-Front : Front c.recv_buf.at c.recv_buf_size m rest
    received-Front = window-Front c.recv_buf.at c.recv_buf_size m rest front

    pub package-len : proto_len c v ≡ length m + 2
    package-len = let f = received-Front in omega (arith, f.high, f.low)

    pub package-le : proto_len c v ≤ c.recv_buf_size
    package-le = let f = received-Front in omega (arith, package-len, f.fits)

    pub package-ready : is_recv_proto_ready c ≡ ok true
    package-ready =
        let le = package-le in
        let e = package-len in
        let low = i.low in
        let more : 4 < c.recv_buf_size = omega arith in ready-ok c v ∙ ground arith

    pub package-message : window c.recv_buf.at 2 (length m) ≡ m
    package-message = received-Front.message

    pub package-rest : received (removed c (length m + 2)) ≡ rest
    package-rest =
        received-removed c (length m + 2) (let f = received-Front in f.fits)
        ∙ ap (drop (length m + 2)) front
        ∙ ap (λ (k : ℕ). drop k (framed m ++ rest)) {y = length (framed m)} (omega arith)
        ∙ drop-append (framed m) rest
