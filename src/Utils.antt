-- ===== src/Utils.antt =====
-- src/common/frame/utils.h and utils.cpp: the hash, and the tests of account names and
-- passwords. Bytes are numbers below 256; a `char` in a name is a
-- signed number, and a string an array of them.
pub mod Checks
pub mod Hash
mod Tests
use Prim.Native.Nat.{bit_xor}
use play_frame.Common.{ℕ, zero, suc, ◌+◌, ◌-◌, ◌*◌, ◌%◌, ◌^◌, Bool, ◌&&◌, ◌||◌, if◌then◌else◌}
use play_frame.Common.Int.{ℤ, pos, negsuc, ltb_ℤ}
use play_frame.Common.Run.{Run, ok, ◌>>=◌}
use play_frame.Common.Array.{Array, load}

-- One round of the `while` of Fnv64aHash, after the byte has been mixed in.
abbrev pub fnv_shifts : ℕ → ℕ
fnv_shifts hval =
    (hval
      + (hval * 2 ^ 1 % 2 ^ 64
          + hval * 2 ^ 4 % 2 ^ 64
          + hval * 2 ^ 5 % 2 ^ 64
          + hval * 2 ^ 7 % 2 ^ 64
          + hval * 2 ^ 8 % 2 ^ 64
          + hval * 2 ^ 40 % 2 ^ 64)
        % 2 ^ 64)
    % 2 ^ 64

-- The `while`, with the rounds left, the position of `bp` and `hval`.
fnv_loop : ℕ → ℕ → Array ℕ → ℕ → Run ℕ
fnv_loop zero bp buf hval = ok hval
fnv_loop (suc n) bp buf hval = do
  byte ← load buf bp
  fnv_loop n (bp + 1) buf (fnv_shifts (bit_xor hval byte))

-- Fnv64aHash.
unfoldable pub fnv64a_hash : Array ℕ → ℕ → Run ℕ
unfolding fnv_loop
fnv64a_hash buf len = fnv_loop len 0 buf 0xcbf29ce484222325

-- `c < 'A' || (c > 'Z' && c < 'a') || c > 'z'`
abbrev pub not_letter : ℤ → Bool
not_letter c = ltb_ℤ c (pos 65) || (ltb_ℤ (pos 90) c && ltb_ℤ c (pos 97)) || ltb_ℤ (pos 122) c

-- `c < '0' || (c > '9' && c < 'A') || (c > 'Z' && c < 'a') || c > 'z'`
abbrev pub not_alnum : ℤ → Bool
not_alnum c =
    ltb_ℤ c (pos 48)
    || (ltb_ℤ (pos 57) c && ltb_ℤ c (pos 65))
    || (ltb_ℤ (pos 90) c && ltb_ℤ c (pos 97))
    || ltb_ℤ (pos 122) c

-- The `for` of both, with the rounds left, `i`, and what it returns at a wrong character.
check_chars : ℕ → ℕ → Array ℤ → ℤ → Run ℤ
check_chars zero i text wrong = ok (pos 0)
check_chars (suc n) i text wrong =
    let rest = check_chars n (i + 1) text wrong in
    load text i >>= λ c. if not_alnum c then ok wrong else rest

-- CheckAccount.
unfoldable pub check_account : Array ℤ → ℤ → Run ℤ
unfolding check_chars
check_account account (negsuc len) = ok (negsuc 0)
check_account account (pos len) =
    if ltb_ℤ (pos len) (pos 6) || ltb_ℤ (pos 32) (pos len) then ok (negsuc 0) else (do
      c ← load account 0
      if not_letter c then ok (negsuc 1) else check_chars (len - 1) 1 account (negsuc 2))

-- CheckPassword.
unfoldable pub check_password : Array ℤ → ℤ → Run ℤ
unfolding check_chars
check_password password (negsuc len) = ok (negsuc 0)
check_password password (pos len) =
    if ltb_ℤ (pos len) (pos 4) || ltb_ℤ (pos 16) (pos len)
    then ok (negsuc 0)
    else check_chars len 0 password (negsuc 1)
