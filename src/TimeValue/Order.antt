-- ===== src/TimeValue/Order.antt =====
-- The comparisons of two times.
use play_frame.Common.{◌&&◌, not, ◌≡◌, ◌⊎◌, inl, inr, Bool, true, false, ◌||◌, arith}
use play_frame.Common.Int.{ℤ, pos, negsuc, ◌≤ℤ◌, ◌<ℤ◌, ltb_ℤ, ◌==ℤ◌}
use play_frame.TimeValue.{TimeValue, gt, eq}

-- `left` is earlier, or as late.
pub Le : TimeValue → TimeValue → Type 0
Le left right = (left.sec <ℤ right.sec) ⊎ ((left.sec ≤ℤ right.sec) × (left.usec ≤ℤ right.usec))

-- `>` or `==`, the order that the timer heap goes by.
abbrev pub gte : TimeValue → TimeValue → Bool
gte left right = gt left right || eq left right

-- `==` on integers, by their order.
pub eqb_ltb : (a b : ℤ) → (a ==ℤ b) ≡ (not (ltb_ℤ a b) && not (ltb_ℤ b a))
eqb_ltb (pos a) (pos b) = ground arith
eqb_ltb (negsuc a) (negsuc b) = ground arith
eqb_ltb (pos a) (negsuc b) = ground arith
eqb_ltb (negsuc a) (pos b) = ground arith

pub gte→Le : (left right : TimeValue) → gte left right ≡ true → Le right left
unfolding Le gt eq
gte→Le left right h = ground (arith, eqb_ltb left.sec right.sec, eqb_ltb left.usec right.usec)

pub not_gte→Le : (left right : TimeValue) → gte left right ≡ false → Le left right
unfolding Le gt eq
not_gte→Le left right h = ground (arith, eqb_ltb left.sec right.sec, eqb_ltb left.usec right.usec)

pub Le→gte : (left right : TimeValue) → Le right left → gte left right ≡ true
unfolding Le gt eq
Le→gte left right h = ground (arith, eqb_ltb left.sec right.sec, eqb_ltb left.usec right.usec)

pub Le-cases :
    (left right : TimeValue)
    → Le left right
    → (left.sec <ℤ right.sec) ⊎ ((left.sec ≤ℤ right.sec) × (left.usec ≤ℤ right.usec))
unfolding Le
Le-cases left right h = h

pub Le-refl : (a : TimeValue) → Le a a
unfolding Le
Le-refl a = inr (omega arith, omega arith)

pub Le-trans : (a b c : TimeValue) → Le a b → Le b c → Le a c
unfolding Le
Le-trans a b c (inl p) (inl q) = inl (omega arith)
Le-trans a b c (inl p) (inr q) = inl (omega arith)
Le-trans a b c (inr p) (inl q) = inl (omega arith)
Le-trans a b c (inr p) (inr q) = inr (omega arith, omega arith)
