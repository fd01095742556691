-- ===== src/Utils/Hash.antt =====
-- Fnv64aHash is the 64-bit FNV-1a hash: its shifts multiply by the prime.
use Prim.Native.Nat.{bit_xor}
use play_frame.Common.{
  ℕ, zero, suc, ◌+◌, ◌*◌, ◌%◌, ◌^◌, ◌≤◌, ◌≡◌, refl, List, [], ◌∷◌, arith, ap, ◌∙◌,
}
use play_frame.Common.Run.{ok}
use play_frame.Common.Array.{Array, load-ok}
use play_frame.Utils.{fnv_shifts, fnv_loop, fnv64a_hash}

-- The hash as its authors define it.
abbrev pub fnv_prime : ℕ → List ℕ → ℕ
fnv_prime hash [] = hash
fnv_prime hash (byte ∷ bytes) = fnv_prime (bit_xor hash byte * 1099511628211 % 2 ^ 64) bytes

abbrev pub fnv_1a : List ℕ → ℕ
fnv_1a bytes = fnv_prime 14695981039346656037 bytes

-- The `n` bytes from `i` on.
abbrev pub bytes_from : Array ℕ → ℕ → ℕ → List ℕ
bytes_from buf zero i = []
bytes_from buf (suc n) i = buf.at i ∷ bytes_from buf n (i + 1)

shifts_prime : (x : ℕ) → fnv_shifts x ≡ x * 1099511628211 % 2 ^ 64
shifts_prime x = omega arith

fnv_loop-prime :
    (n i : ℕ) (buf : Array ℕ) (h : ℕ)
    → i + n ≤ buf.size
    → fnv_loop n i buf h ≡ ok (fnv_prime h (bytes_from buf n i))
unfolding fnv_loop
fnv_loop-prime zero i buf h le = refl
fnv_loop-prime (suc n) i buf h le = rw (load-ok buf i (omega arith)) (
    fnv_loop-prime n (i + 1) buf (fnv_shifts (bit_xor h (buf.at i))) (omega arith)
    ∙ ap (λ g. ok (fnv_prime g (bytes_from buf n (i + 1)))) (shifts_prime _))

-- Of a length within the buffer, Fnv64aHash returns the FNV-1a hash of the bytes.
pub fnv64a_hash-fnv_1a :
    (buf : Array ℕ) (len : ℕ)
    → len ≤ buf.size
    → fnv64a_hash buf len ≡ ok (fnv_1a (bytes_from buf len 0))
unfolding fnv64a_hash
fnv64a_hash-fnv_1a buf len h = fnv_loop-prime len 0 buf 14695981039346656037 (omega arith)
