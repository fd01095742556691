-- ===== src/ShmPool/FreeList.antt =====
-- Free lists that run through an array of signed links: a link to `i` is `-i`, and the end of the
-- list is the position behind the last one. Both the pool and the timer heap keep their free
-- places in this way.
use play_frame.Common.{
  ℕ, zero, suc, ◌+◌, ◌-◌, ◌≤◌, ◌<◌, ◌≡◌, ◌≢◌, refl, ◌⊎◌, inl, inr, Bool, true, false, List, [], ◌∷◌,
  arith, All, ◌==◌, if◌then◌else◌, Bool-cases, eq_cases,
}
use mathlib.Core.Path.{fun_ext}
use play_frame.Common.Int.{ℤ, pos, negsuc, neg, neg-neg, is_positive}
use play_frame.Common.Array.{update, update_self, update_other}

-- The places `xs`, each between 1 and `n`, are linked in this order, and `z` leads to the first.
abbrev pub Chain : (ℕ → ℤ) → ℕ → List ℕ → ℤ → Type 0
Chain link n [] z = z ≡ pos (suc n)
Chain link n (x ∷ xs) z = (z ≡ pos x) × (0 < x) × (x ≤ n) × Chain link n xs (neg (link x))

abbrev pub On : List ℕ → ℕ → Type 0
On [] i = ⊥
On (x ∷ xs) i = (i ≡ x) ⊎ On xs i

-- A link is never positive or zero: this is how a place in use is told apart.
pub Chain-negative :
    (link : ℕ → ℤ) (n : ℕ) (xs : List ℕ) (z : ℤ) → Chain link n xs z → (m : ℕ) × (neg z ≡ negsuc m)
Chain-negative link n [] z c = (n, ground arith)
Chain-negative link n (x ∷ xs) z c = (x - 1, ground arith)

pub Chain-update :
    (link : ℕ → ℤ) (n i : ℕ) (v : ℤ) (xs : List ℕ) (z : ℤ)
    → All (λ y. y ≢ i) xs
    → Chain link n xs z
    → Chain (update link i v) n xs z
Chain-update link n i v [] z a c = c
Chain-update link n i v (x ∷ xs) z a c =
    let rest = Chain-update link n i v xs (neg (link x)) a.1 c.3 in ground (arith, rest)

pub On-negative :
    (link : ℕ → ℤ) (n i : ℕ) (xs : List ℕ) (z : ℤ)
    → Chain link n xs z
    → On xs i
    → (m : ℕ) × (link i ≡ negsuc m)
On-negative link n i [] z c o = absurd o
On-negative link n i (x ∷ xs) z c (inl e) =
    let (m, h) = Chain-negative link n xs (neg (link x)) c.3 in
    (m, ground (arith, neg-neg (link x)))
On-negative link n i (x ∷ xs) z c (inr o) = On-negative link n i xs (neg (link x)) c.3 o

pub Chain-avoids :
    (link : ℕ → ℤ) (n i k : ℕ) (xs : List ℕ) (z : ℤ)
    → link i ≡ pos k
    → Chain link n xs z
    → All (λ y. y ≢ i) xs
Chain-avoids link n i k [] z e c = tt
Chain-avoids link n i k (x ∷ xs) z e c = (
  λ same.
      let (m, h) = On-negative link n x (x ∷ xs) z c (inl refl) in
      let h' : link i ≡ negsuc m = rw (← same) h in cc,
  Chain-avoids link n i k xs (neg (link x)) e c.3,
)

-- The head of a list is not on its rest.
pub Chain-first-free :
    (link : ℕ → ℤ) (n x : ℕ) (xs : List ℕ) (z : ℤ)
    → Chain link n (x ∷ xs) z
    → is_positive (link x) ≡ false
Chain-first-free link n x xs z c =
    let (m, h) = On-negative link n x (x ∷ xs) z c (inl refl) in ground arith

abbrev pub one_if : Bool → ℕ
one_if b = if b then 1 else 0

-- How many of the places 1 to `n` are in use.
unfoldable pub used : (ℕ → ℤ) → ℕ → ℕ
used link zero = 0
used link (suc n) = one_if (is_positive (link (suc n))) + used link n

used-suc :
    (link : ℕ → ℤ) (n : ℕ) → used link (suc n) ≡ one_if (is_positive (link (suc n))) + used link n
unfolding used
used-suc link n = refl

pub used-none :
    (link : ℕ → ℤ) (n : ℕ) → ((j : ℕ) → j ≤ n → is_positive (link j) ≡ false) → used link n ≡ 0
unfolding used
used-none link zero h = refl
used-none link (suc n) h =
    rw (h (suc n) (omega arith)) (omega (arith, used-none link n (λ j p. h j (omega arith))))

used-update_above :
    (link : ℕ → ℤ) (n i : ℕ) (v : ℤ) → n < i → used (update link i v) n ≡ used link n
unfolding used
used-update_above link zero i v h = refl
used-update_above link (suc n) i v h = ground (arith, used-update_above link n i v)

-- A write counts the place anew.
pub used-update :
    (link : ℕ → ℤ) (n i : ℕ) (v : ℤ)
    → 0 < i
    → i ≤ n
    → used (update link i v) n + one_if (is_positive (link i))
      ≡ used link n + one_if (is_positive v)
used-update link zero i v p h = absurd (omega arith)
used-update link (suc n) i v p h = elim (eq_cases i (suc n)) [
  | inl e ↦
      rw
        (
          e,
          used-suc link n,
          used-suc (update link (suc n) v) n,
          update_self link (suc n) v,
          used-update_above link n (suc n) v (omega arith),
        )
        (omega arith)
  | inr ne ↦
      rw (used-suc link n, used-suc (update link i v) n, update_other link i (suc n) v ne)
        (omega (arith, used-update link n i v p (omega arith)))
]

pub used_pos :
    (link : ℕ → ℤ) (n i : ℕ) → 0 < i → i ≤ n → is_positive (link i) ≡ true → 0 < used link n
unfolding used
used_pos link zero i p h e = absurd (omega arith)
used_pos link (suc n) i p h e = elim (eq_cases i (suc n)) [
  | inl same ↦ let e' : is_positive (link (suc n)) ≡ true = rw (← same) e in rw e' (omega arith)
  | inr ne ↦ omega (arith, used_pos link n i p (omega arith) e)
]

module _ {ℓ κ} {A : Type ℓ} {B : Type κ} where
  -- One field of the entries, after a write.
  pub field-update :
      (f : A → B) (at : ℕ → A) (i : ℕ) (v : A)
      → ◌≡◌ {A = ℕ → B} (λ j. f (update at i v j)) (update (λ j. f (at j)) i (f v))
  field-update f at i v = fun_ext λ j. elim (Bool-cases (i == j)) [ inl e ↦ rw e | inr e ↦ rw e ]
