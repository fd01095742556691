-- ===== src/Utils/Checks.antt =====
-- What the tests of account names and passwords accept, and which code they return.
use play_frame.Common.{
  ℕ, zero, suc, ◌+◌, ◌-◌, ◌≤◌, ◌<◌, ◌≡◌, refl, ◌⊎◌, inl, inr, true, false, ◌||◌, arith, eq_cases,
}
use play_frame.Common.Int.{ℤ, pos, negsuc, ◌≤ℤ◌, ltb_ℤ}
use play_frame.Common.Run.{Returns, returns, Returns-map, Returns-if}
use play_frame.Common.Array.{Array, load-ok}
use play_frame.Utils.{not_letter, not_alnum, check_chars, check_account, check_password}

abbrev pub IsWithin : ℤ → ℕ → ℕ → Type 0
IsWithin c low high = (pos low ≤ℤ c) × (c ≤ℤ pos high)

abbrev pub IsLetter : ℤ → Type 0
IsLetter c = IsWithin c 65 90 ⊎ IsWithin c 97 122

abbrev pub IsAlnum : ℤ → Type 0
IsAlnum c = IsWithin c 48 57 ⊎ IsLetter c

letter : (c : ℤ) → not_letter c ≡ false → IsLetter c
letter (pos c) h = ground arith
letter (negsuc c) h = ground arith

alnum : (c : ℤ) → not_alnum c ≡ false → IsAlnum c
alnum (pos c) h = ground arith
alnum (negsuc c) h = ground arith

no_letter : (c : ℤ) → not_letter c ≡ true → IsLetter c → ⊥
no_letter (pos c) h l = ground arith
no_letter (negsuc c) h l = ground arith

no_alnum : (c : ℤ) → not_alnum c ≡ true → IsAlnum c → ⊥
no_alnum (pos c) h l = ground arith
no_alnum (negsuc c) h l = ground arith

module _ (text : Array ℤ) (wrong : ℤ) where
  -- The characters from `i` to `last` are right, or one of them is not.
  abbrev pub Scanned : ℕ → ℕ → ℤ → Type 0
  Scanned i last r =
      ((r ≡ pos 0) × ((j : ℕ) → i ≤ j → j < last → IsAlnum (text.at j)))
      ⊎ ((r ≡ wrong) × ((j : ℕ) × (i ≤ j) × (j < last) × ¬ IsAlnum (text.at j)))

  check_chars-Scanned :
      (n i : ℕ) → i + n ≤ text.size → Returns (Scanned i (i + n)) (check_chars n i text wrong)
  unfolding check_chars
  check_chars-Scanned zero i h = returns (inl (refl, λ j lo hi. absurd (omega arith)))
  check_chars-Scanned (suc n) i h = rw (load-ok text i (omega arith)) (
      Returns-if (not_alnum (text.at i))
        (λ bad. returns (inr (refl, (i, omega arith, omega arith, no_alnum (text.at i) bad))))
        (λ good. Returns-map (check_chars-Scanned n (i + 1) (omega arith)) λ r s. elim s [
          | inl (e, all) ↦ inl (
            e,
            λ j lo hi. elim (eq_cases j i) [
              | inl q ↦ rw q (alnum (text.at i) good)
              | inr ne ↦ all j (omega arith) (omega arith)
            ],
          )
          | inr (e, (j, lo, hi, bad)) ↦ inr (e, (j, omega arith, omega arith, bad))
        ]))

-- Six to 32 characters, a letter and then letters and digits.
pub record IsAccount (account : Array ℤ) (len : ℕ) : Type 0 where
  pub shortest : 6 ≤ len
  pub longest : len ≤ 32
  pub first : IsLetter (account.at 0)
  pub others : (j : ℕ) → 1 ≤ j → j < len → IsAlnum (account.at j)

-- Four to 16 letters and digits.
pub record IsPassword (password : Array ℤ) (len : ℕ) : Type 0 where
  pub shortest : 4 ≤ len
  pub longest : len ≤ 16
  pub all : (j : ℕ) → 0 ≤ j → j < len → IsAlnum (password.at j)

-- The result of CheckAccount, with its reason.
abbrev pub AccountVerdict : Array ℤ → ℕ → ℤ → Type 0
AccountVerdict account len r =
    ((r ≡ pos 0) × IsAccount account len)
    ⊎ ((r ≡ negsuc 0) × ((len < 6) ⊎ (32 < len)))
    ⊎ ((r ≡ negsuc 1) × ¬ IsLetter (account.at 0))
    ⊎ ((r ≡ negsuc 2) × ((j : ℕ) × (1 ≤ j) × (j < len) × ¬ IsAlnum (account.at j)))

-- The result of CheckPassword, with its reason.
abbrev pub PasswordVerdict : Array ℤ → ℕ → ℤ → Type 0
PasswordVerdict password len r =
    ((r ≡ pos 0) × IsPassword password len)
    ⊎ ((r ≡ negsuc 0) × ((len < 4) ⊎ (16 < len)))
    ⊎ ((r ≡ negsuc 1) × ((j : ℕ) × (0 ≤ j) × (j < len) × ¬ IsAlnum (password.at j)))

-- With a length within the array, CheckAccount returns 0 for an account name as it should be, -1
-- for a wrong length, -2 for a first character that is no letter, and -3 where a later one is
-- neither a letter nor a digit.
pub check_account_correct :
    (account : Array ℤ) (len : ℕ)
    → len ≤ account.size
    → Returns (AccountVerdict account len) (check_account account (pos len))
unfolding check_account
check_account_correct account len h =
    Returns-if (ltb_ℤ (pos len) (pos 6) || ltb_ℤ (pos 32) (pos len))
      (λ out. returns (inr (inl (refl, ground (arith, out)))))
      (λ within.
        let low : 6 ≤ len = ground (arith, within) in
        let high : len ≤ 32 = ground (arith, within) in
        rw (load-ok account 0 (omega arith)) (
          Returns-if (not_letter (account.at 0))
            (λ bad. returns (inr (inr (inl (refl, no_letter (account.at 0) bad)))))
            (λ good.
              Returns-map (check_chars-Scanned account (negsuc 2) (len - 1) 1 (omega arith)) λ r s.
                elim s [
                  | inl (e, all) ↦ inl (
                    e,
                    record {
                      shortest = low;
                      longest = high;
                      first = letter (account.at 0) good;
                      others = λ j lo hi. all j lo (omega arith);
                    },
                  )
                  | inr (e, (j, lo, hi, bad)) ↦ inr (inr (inr (e, (j, lo, omega arith, bad))))
                ])))

-- With a length within the array, CheckPassword returns 0 for a password as it should be, -1 for a
-- wrong length, and -2 where a character is neither a letter nor a digit.
pub check_password_correct :
    (password : Array ℤ) (len : ℕ)
    → len ≤ password.size
    → Returns (PasswordVerdict password len) (check_password password (pos len))
unfolding check_password
check_password_correct password len h =
    Returns-if (ltb_ℤ (pos len) (pos 4) || ltb_ℤ (pos 16) (pos len))
      (λ out. returns (inr (inl (refl, ground (arith, out)))))
      (λ within.
        let low : 4 ≤ len = ground (arith, within) in
        let high : len ≤ 16 = ground (arith, within) in
        Returns-map (check_chars-Scanned password (negsuc 1) len 0 (omega arith)) λ r s. elim s [
          | inl (e, all) ↦ inl (
            e,
            record { shortest = low; longest = high; all = λ j lo hi. all j lo (omega arith) },
          )
          | inr (e, (j, lo, hi, bad)) ↦ inr (inr (e, (j, lo, omega arith, bad)))
        ])
