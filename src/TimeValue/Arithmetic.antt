-- ===== src/TimeValue/Arithmetic.antt =====
-- Sums and differences of times, in microseconds.
use play_frame.Common.{ℕ, ◌+◌, ◌*◌, ◌<◌, ◌≡◌, true, arith, ◌/◌, ◌↔◌}
use play_frame.Common.Int.{
  ℤ, pos, negsuc, pos_part, neg_part, ◌+ℤ◌, ◌-ℤ◌, ◌*ℤ◌, ◌≤ℤ◌, ◌<ℤ◌, leb_ℤ, quot, rem, int_laws,
  +ℤ_parts,
}
use play_frame.Common.Run.{ok, check_failed, ◌>>=◌, Returns, returns}
use play_frame.TimeValue.Order.{eqb_ltb}
use play_frame.TimeValue.{TimeValue, carry, borrow, normalize, plus, minus, gt}

-- `a` lies as many microseconds after the epoch as `s` seconds and `u` microseconds: an equation
-- between the positive and the negative parts.
abbrev pub Counts : TimeValue → ℤ → ℤ → Type 0
Counts a s u =
    1_000_000 * pos_part a.sec + pos_part a.usec + 1_000_000 * neg_part s + neg_part u
    ≡ 1_000_000 * neg_part a.sec + neg_part a.usec + 1_000_000 * pos_part s + pos_part u

-- The microseconds stay within one second.
abbrev pub IsNormal : TimeValue → Type 0
IsNormal a = (pos 0 ≤ℤ a.usec) × (a.usec <ℤ pos 1_000_000)

check_test : (u : ℤ) → leb_ℤ (pos 0) (u *ℤ pos 1_000_000 +ℤ u) ≡ leb_ℤ (pos 0) u
unfolding ◌+ℤ◌ ◌*ℤ◌
check_test (pos n) = ground arith
check_test (negsuc n) = ground arith

leb_zero : (n : ℕ) → leb_ℤ (pos 0) (pos n) ≡ true
leb_zero n = ground arith

module _ (s : ℤ) (n : ℕ) where
  abbrev at : TimeValue
  at = record { sec = s; usec = pos n }

  carry_correct : IsNormal (carry at) × Counts (carry at) s (pos n)
  unfolding carry quot rem
  carry_correct = ground (arith, +ℤ_parts s (pos (n / 1_000_000)))

borrow-IsNormal : (a : TimeValue) → IsNormal a → borrow a ≡ a
unfolding borrow
borrow-IsNormal a h = ground arith

pub normalize-pos :
    (s u : ℤ)
    → pos 0 ≤ℤ u
    → Returns (λ b. IsNormal b × Counts b s u) (normalize (record { sec = s; usec = u }))
unfolding normalize
normalize-pos s (negsuc n) h = absurd (omega arith)
normalize-pos s (pos n) h =
    let c = carry_correct s n in
    rw (check_test (pos n), leb_zero n, borrow-IsNormal (carry (at s n)) c.0) (returns c)

-- With microseconds from 0 on, `normalize` gives the same moment, within one second.
pub normalize_correct :
    (a : TimeValue)
    → pos 0 ≤ℤ a.usec
    → Returns (λ b. IsNormal b × Counts b a.sec a.usec) (normalize a)
normalize_correct a h = normalize-pos a.sec a.usec h

-- A negative number of microseconds stops the program at the CHECK.
pub normalize-negative : (a : TimeValue) → a.usec <ℤ pos 0 → normalize a ≡ check_failed
unfolding normalize
normalize-negative a h = ground (arith, check_test a.usec)

-- The sum of two times within one second each is the sum of the moments, within one second.
pub plus_correct :
    (a b : TimeValue)
    → IsNormal a
    → IsNormal b
    → Returns (λ c. IsNormal c × Counts c (a.sec +ℤ b.sec) (a.usec +ℤ b.usec)) (plus a b)
unfolding plus
plus_correct a b h k = normalize-pos (a.sec +ℤ b.sec) (a.usec +ℤ b.usec) (omega int_laws)

pub normalize-IsNormal : (a : TimeValue) → IsNormal a → normalize a ≡ ok a
unfolding normalize carry borrow
normalize-IsNormal a h = ground (arith, check_test a.usec)

cancel : (x y : ℤ) → x -ℤ y +ℤ y ≡ x
cancel x y = omega int_laws

-- For times within one second each, adding the subtrahend to a difference without a borrow gives
-- back the minuend.
pub minus-plus :
    (a b : TimeValue)
    → IsNormal a
    → IsNormal b
    → b.usec ≤ℤ a.usec
    → (minus a b >>= λ c. plus c b) ≡ ok a
unfolding plus minus
minus-plus a b h k le =
    rw
      (normalize-IsNormal (record { sec = a.sec -ℤ b.sec; usec = a.usec -ℤ b.usec })
        (omega int_laws))
      (rw (cancel a.sec b.sec, cancel a.usec b.usec) (normalize-IsNormal a h))

-- A difference that needs a borrow stops the program, also where the minuend is the later time.
pub minus-borrow : (a b : TimeValue) → a.usec <ℤ b.usec → minus a b ≡ check_failed
unfolding minus
minus-borrow a b h = normalize-negative _ (omega int_laws)

-- `>` compares the moments of two times within one second each.
pub gt_correct :
    (a b : TimeValue)
    → IsNormal a
    → IsNormal b
    → (gt a b ≡ true) ↔ (
        1_000_000 * pos_part b.sec + pos_part b.usec + 1_000_000 * neg_part a.sec + neg_part a.usec
        < 1_000_000 * neg_part b.sec
          + neg_part b.usec
          + 1_000_000 * pos_part a.sec
          + pos_part a.usec)
unfolding gt
gt_correct a b h k =
    (λ e. ground (arith, eqb_ltb a.sec b.sec), λ e. ground (arith, eqb_ltb a.sec b.sec))
