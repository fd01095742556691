-- ===== src/ObjMgr/Places.antt =====
-- The loop of AddCity stops at the first empty entry of the city list.
use play_frame.Common.{
  ℕ, zero, suc, ◌+◌, ◌≤◌, ◌<◌, ◌≡◌, ◌≢◌, refl, ◌⊎◌, inl, inr, arith, eq_cases, Bool-cases, false,
}
use play_frame.Common.Int.{ℤ, pos, negsuc, ==ℤ→eq, ◌==ℤ◌}
use play_frame.Common.Run.{ok}
use play_frame.Common.Array.{load-ok}
use play_frame.ObjMgr.{Player, ObjMgr, found_city, find_place}

module _ (at : ℕ → ℤ) where
  -- The first empty entry among the `n` from `i` on.
  pub record IsFirst (n i j : ℕ) : Type 0 where
    pub low : i ≤ j
    pub high : j < i + n
    pub empty : at j ≡ pos 0
    pub taken : (k : ℕ) → i ≤ k → k < j → at k ≢ pos 0

  -- No entry among the `n` from `i` on is empty.
  abbrev pub IsFull : ℕ → ℕ → Type 0
  IsFull n i = (k : ℕ) → i ≤ k → k < i + n → at k ≢ pos 0

  test-ne : (k : ℕ) → at k ≢ pos 0 → (at k ==ℤ pos 0) ≡ false
  test-ne k ne = elim (Bool-cases (at k ==ℤ pos 0)) [
    | inl e ↦ absurd (ne (==ℤ→eq (at k) (pos 0) e))
    | inr e ↦ e
  ]

  pub IsFirst-cases : (n i : ℕ) → ((j : ℕ) × IsFirst n i j) ⊎ IsFull n i
  IsFirst-cases zero i = inr (λ k lo hi. absurd (omega arith))
  IsFirst-cases (suc n) i = elim (Bool-cases (at i ==ℤ pos 0)) [
    | inl e ↦ inl (
      i,
      record {
        low = omega arith;
        high = omega arith;
        empty = ==ℤ→eq (at i) (pos 0) e;
        taken = λ k lo hi. absurd (omega arith);
      },
    )
    | inr e ↦
        let ne : at i ≢ pos 0 = λ q. let t : (pos 0 ==ℤ pos 0) ≡ false = rw q at e in cc in
        elim (IsFirst-cases n (i + 1)) [
          | inl (j, f) ↦ inl (
            j,
            record {
              low = omega (arith, f.low);
              high = omega (arith, f.high);
              empty = f.empty;
              taken = λ k lo hi. elim (eq_cases k i) [
                | inl q ↦ rw q ne
                | inr nq ↦ f.taken k (omega arith) hi
              ];
            },
          )
          | inr full ↦ inr (λ k lo hi. elim (eq_cases k i) [
            | inl q ↦ rw q ne
            | inr nq ↦ full k (omega arith) (omega arith)
          ])
        ]
  ]

module _ (m : ObjMgr) (player : ℕ) (p : Player) (z : ℤ) (sized : p.city_list.size ≡ 101) where
  pub find_place-first :
      (n i j : ℕ)
      → i + n ≤ 101
      → IsFirst p.city_list.at n i j
      → find_place n i m player p z ≡ found_city m player p z j
  unfolding find_place
  find_place-first zero i j le f = absurd (omega (arith, f.low, f.high))
  find_place-first (suc n) i j le f = elim (eq_cases i j) [
    | inl e ↦ rw (load-ok p.city_list i (omega arith), e, f.empty)
    | inr ne ↦
        rw
          (
            load-ok p.city_list i (omega arith),
            test-ne p.city_list.at i (f.taken i (omega arith) (omega (arith, f.low))),
          )
          (find_place-first n (i + 1) j (omega arith) (record {
            low = omega (arith, f.low);
            high = omega (arith, f.high);
            empty = f.empty;
            taken = λ k lo hi. f.taken k (omega arith) hi;
          }))
  ]

  pub find_place-full :
      (n i : ℕ)
      → i + n ≤ 101
      → IsFull p.city_list.at n i
      → find_place n i m player p z ≡ ok (negsuc 3, m)
  unfolding find_place
  find_place-full zero i le f = refl
  find_place-full (suc n) i le f =
      rw
        (
          load-ok p.city_list i (omega arith),
          test-ne p.city_list.at i (f i (omega arith) (omega arith)),
        )
        (find_place-full n (i + 1) (omega arith) (λ k lo hi. f k (omega arith) (omega arith)))
