-- ===== src/TimeValue.antt =====
-- src/common/frame/time_value.h and time_value.cpp: seconds and microseconds. `time_t` is an
-- integer without bounds here; the clock, the cycle counter and the printed names are not modelled.
pub mod Order
pub mod Arithmetic
use play_frame.Common.{Bool, ◌&&◌, ◌||◌, if◌then◌else◌, ℕ}
use play_frame.Common.Int.{ℤ, pos, neg, ◌+ℤ◌, ◌-ℤ◌, ◌*ℤ◌, ltb_ℤ, leb_ℤ, ◌==ℤ◌, quot, rem}
use play_frame.Common.Run.{Run, ok, ◌>>=◌, ◌>>◌, check}

pub record TimeValue : Type 0 where
  pub sec : ℤ
  pub usec : ℤ

abbrev pub one_second_in_usecs : ℕ
one_second_in_usecs = 1_000_000

-- `usec` is brought into one second; a whole second too many, or too few, goes to `sec`.
carry : TimeValue → TimeValue
carry tv =
    if leb_ℤ (pos one_second_in_usecs) tv.usec
    then record {
      sec = tv.sec +ℤ quot tv.usec one_second_in_usecs;
      usec = rem tv.usec one_second_in_usecs;
    }
    else if leb_ℤ tv.usec (neg (pos one_second_in_usecs))
    then record {
      sec = tv.sec -ℤ quot (neg tv.usec) one_second_in_usecs;
      usec = neg (rem (neg tv.usec) one_second_in_usecs);
    }
    else tv

borrow : TimeValue → TimeValue
borrow tv =
    if ltb_ℤ tv.usec (pos 0)
    then record { sec = tv.sec -ℤ pos 1; usec = tv.usec +ℤ pos one_second_in_usecs }
    else tv

-- The CHECK multiplies `tv_usec`, not `tv_sec`.
unfoldable pub normalize : TimeValue → Run TimeValue
unfolding carry borrow
normalize tv = do
  check (leb_ℤ (pos 0) (tv.usec *ℤ pos one_second_in_usecs +ℤ tv.usec))
  ok (borrow (carry tv))

-- The constructors and both `Set`.
unfoldable pub set : ℤ → ℤ → Run TimeValue
set sec usec = normalize (record { sec = sec; usec = usec })

-- `+=` and `+`.
unfoldable pub plus : TimeValue → TimeValue → Run TimeValue
plus left right = normalize (record { sec = left.sec +ℤ right.sec; usec = left.usec +ℤ right.usec })

-- `-=` and `-`.
unfoldable pub minus : TimeValue → TimeValue → Run TimeValue
minus left right =
    normalize (record { sec = left.sec -ℤ right.sec; usec = left.usec -ℤ right.usec })

-- `+=` and `-=` by whole seconds.
unfoldable pub plus_seconds : TimeValue → ℤ → TimeValue
plus_seconds tv t = record tv { sec = tv.sec +ℤ t }

unfoldable pub minus_seconds : TimeValue → ℤ → TimeValue
minus_seconds tv t = record tv { sec = tv.sec -ℤ t }

-- `left > right`
unfoldable pub gt : TimeValue → TimeValue → Bool
gt left right =
    if left.sec ==ℤ right.sec then ltb_ℤ right.usec left.usec else ltb_ℤ right.sec left.sec

-- `left == right`
unfoldable pub eq : TimeValue → TimeValue → Bool
eq left right = (left.sec ==ℤ right.sec) && (left.usec ==ℤ right.usec)
