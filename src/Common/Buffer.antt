-- ===== src/Common/Buffer.antt =====
-- `memcpy` and `memmove` between arrays, and the bytes that stand in a part of an array.
use Prim.Native.Nat.{ℕ, zero, suc, ◌+◌, ◌-◌, ◌≤◌, ◌<◌}
use mathlib.Core.Path.{◌≡◌, refl, ap, ◌∙◌}
use mathlib.Core.Bool.{◌&&◌}
use mathlib.Core.List.{List, [], ◌∷◌, ◌++◌}
use native.Mathlib.Omega.{arith}
use play_frame.Common.Tests.{ltb, leb, if◌then◌else◌}
use play_frame.Common.Lists.{length, drop}
use play_frame.Common.Run.{Run, ok, fault}
use play_frame.Common.Array.{Array}

module _ {ℓ} {A : Type ℓ} where
  abbrev pub copied : (ℕ → A) → ℕ → (ℕ → A) → ℕ → ℕ → ℕ → A
  copied f to g from n i = if leb to i && ltb i (to + n) then g (from + (i - to)) else f i

  -- `n` entries from `source + from` to `target + to`.
  unfoldable pub memcpy : Array A → ℕ → Array A → ℕ → ℕ → Run (Array A)
  memcpy target to source from n =
      if leb (to + n) target.size && leb (from + n) source.size
      then ok (record target { at = copied target.at to source.at from n })
      else fault

  pub memcpy-ok :
      (target : Array A) (to : ℕ) (source : Array A) (from n : ℕ)
      → to + n ≤ target.size
      → from + n ≤ source.size
      → memcpy target to source from n
        ≡ ok (record target { at = copied target.at to source.at from n })
  unfolding memcpy
  memcpy-ok target to source from n fits there = ground arith

  -- The `n` entries from `from` on.
  abbrev pub window : (ℕ → A) → ℕ → ℕ → List A
  window f from zero = []
  window f from (suc n) = f from ∷ window f (suc from) n

  pub length-window : (f : ℕ → A) (from n : ℕ) → length (window f from n) ≡ n
  length-window f from zero = refl
  length-window f from (suc n) = omega (arith, length-window f (suc from) n)

  pub window-cong :
      (f g : ℕ → A) (a b n : ℕ)
      → ((i : ℕ) → i < n → f (a + i) ≡ g (b + i))
      → window f a n ≡ window g b n
  window-cong f g a b zero same = refl
  window-cong f g a b (suc n) same =
      let head : f a ≡ g b = ap f (omega arith) ∙ same 0 (omega arith) ∙ ap g (omega arith) in
      let tail : window f (suc a) n ≡ window g (suc b) n =
        window-cong f g (suc a) (suc b) n
          (λ i less. ap f (omega arith) ∙ same (suc i) (omega arith) ∙ ap g (omega arith)) in
      ap (λ (x : A). x ∷ window f (suc a) n) head ∙ ap (λ (l : List A). g b ∷ l) tail

  pub window-append :
      (f : ℕ → A) (a n m : ℕ) → window f a (n + m) ≡ window f a n ++ window f (a + n) m
  window-append f a zero m =
      ap (window f a) (omega arith) ∙ ap (λ (k : ℕ). window f k m) (omega arith)
  window-append f a (suc n) m =
      let e : suc n + m ≡ suc (n + m) = omega arith in
      ap (window f a) e
      ∙ ap (λ (l : List A). f a ∷ l) (window-append f (suc a) n m)
      ∙ ap (λ (k : ℕ). (f a ∷ window f (suc a) n) ++ window f k m) (omega arith)

  -- The entries behind the first `k`.
  pub drop-window :
      (f : ℕ → A) (a n k b : ℕ) → k ≤ n → b ≡ a + k → drop k (window f a n) ≡ window f b (n - k)
  drop-window f a n zero b le e =
      ap (window f a) (omega arith) ∙ ap (λ (k : ℕ). window f k (n - 0)) (omega arith)
  drop-window f a zero (suc k) b le e = absurd (omega arith)
  drop-window f a (suc n) (suc k) b le e =
      drop-window f (suc a) n k b (omega arith) (omega arith) ∙ ap (window f b) (omega arith)

  -- Behind `n` entries stand the `m` that were copied there.
  pub copied-append :
      (f g : ℕ → A) (n from m : ℕ)
      → window (copied f n g from m) 0 (n + m) ≡ window f 0 n ++ window g from m
  copied-append f g n from m =
      let h : ℕ → A = copied f n g from m in
      window-append h 0 n m
      ∙ ap (λ (l : List A). l ++ window h (0 + n) m)
          (window-cong h f 0 0 n (λ i less. ground arith))
      ∙ ap (λ (l : List A). window f 0 n ++ l)
          (window-cong h g (0 + n) from m (λ i less. ground arith))

  -- What was moved to the front.
  pub copied-front : (f g : ℕ → A) (from m : ℕ) → window (copied f 0 g from m) 0 m ≡ window g from m
  copied-front f g from m = window-cong (copied f 0 g from m) g 0 from m (λ i less. ground arith)

  -- A window that starts with a list.
  pub window-prefix :
      (f : ℕ → A) (a n : ℕ) (xs ys : List A) → window f a n ≡ xs ++ ys → window f a (length xs) ≡ xs
  window-prefix f a n [] ys h = refl
  window-prefix f a zero (x ∷ xs) ys h = absurd (cc)
  window-prefix f a (suc n) (x ∷ xs) ys h =
      let head : f a ≡ x = cc in
      let tail : window f (suc a) n ≡ xs ++ ys = cc in
      ap (λ (y : A). y ∷ window f (suc a) (length xs)) head
      ∙ ap (λ (l : List A). x ∷ l) (window-prefix f (suc a) n xs ys tail)

  pub drop-append : (xs ys : List A) → drop (length xs) (xs ++ ys) ≡ ys
  drop-append [] ys = refl
  drop-append (x ∷ xs) ys = drop-append xs ys
