-- ===== src/HeapTimer/Layout.antt =====
-- How the heap and the index array refer to one another, seen as functions.
use play_frame.ShmPool.FreeList.{Chain, Chain-update, Chain-avoids}
use play_frame.Common.{
  ℕ, ◌<◌, ◌≡◌, ◌≢◌, refl, sym, ◌⊎◌, inl, inr, Option, none, some, arith, eq_cases, ◌∙◌, ap, subst,
  List,
}
use play_frame.Common.Int.{ℤ, pos, negsuc, pos_part, pos-injective}
use play_frame.Common.Array.{update, update_self, update_other}
use play_frame.HeapTimer.{TimerNode, timer_node_index}

-- The index in a node's id.
pub slot : TimerNode → ℕ
slot x = pos_part (timer_node_index x.timer_id)

pub slot-named : (x : TimerNode) (i : ℕ) → timer_node_index x.timer_id ≡ pos i → slot x ≡ i
unfolding slot
slot-named x i e = ap pos_part e

-- The first `n` entries of the heap `at` are in use. Each knows its own place through the index
-- array `link`, and nothing else in it is a place.
pub record Layout (size n : ℕ) (at : ℕ → TimerNode) (link : ℕ → ℤ) : Type 0 where
  pub named : (p : ℕ) → p < n → timer_node_index (at p).timer_id ≡ pos (slot (at p))
  pub low : (p : ℕ) → p < n → 0 < slot (at p)
  pub high : (p : ℕ) → p < n → slot (at p) < size
  pub linked : (p : ℕ) → p < n → link (slot (at p)) ≡ pos p
  pub back : (i p : ℕ) → 0 < i → i < size → link i ≡ pos p → (p < n) × (slot (at p) ≡ i)

-- The node of the timer with index `i`, if there is one.
abbrev pub entry : (ℕ → TimerNode) → ℤ → Option TimerNode
entry at (pos p) = some (at p)
entry at (negsuc _) = none

abbrev pub node_of : (ℕ → TimerNode) → (ℕ → ℤ) → ℕ → Option TimerNode
node_of at link i = entry at (link i)

-- Both arrays after the nodes `x` and `y` have traded the places `p` and `q`.
abbrev pub swap_at : (ℕ → TimerNode) → ℕ → ℕ → ℕ → TimerNode
swap_at at p q = update (update at p (at q)) q (at p)

abbrev pub swap_link : (ℕ → TimerNode) → (ℕ → ℤ) → ℕ → ℕ → ℕ → ℤ
swap_link at link p q = update (update link (slot (at q)) (pos p)) (slot (at p)) (pos q)

-- An entry after the trade.
pub swap_at-cases :
    (at : ℕ → TimerNode) (p q r : ℕ)
    → ((q ≡ r) × (swap_at at p q r ≡ at p))
      ⊎ ((p ≡ r) × (swap_at at p q r ≡ at q))
      ⊎ ((q ≢ r) × (p ≢ r) × (swap_at at p q r ≡ at r))
swap_at-cases at p q r = elim (eq_cases q r) [
  | inl e ↦ inl (e, rw (← e) (update_self (update at p (at q)) q (at p)))
  | inr nq ↦ elim (eq_cases p r) [
    | inl e ↦ inr (
        inl
          (e, update_other (update at p (at q)) q r (at p) nq ∙ rw (← e) (update_self at p (at q))))
    | inr np ↦ inr (
        inr
          (nq, np, update_other (update at p (at q)) q r (at p) nq ∙ update_other at p r (at q) np))
  ]
]

pub swap_at-first : (at : ℕ → TimerNode) (p q : ℕ) → p ≢ q → swap_at at p q p ≡ at q
swap_at-first at p q ne =
    update_other (update at p (at q)) q p (at p) (λ e. ne (sym e)) ∙ update_self at p (at q)

module _ (size n : ℕ) (at : ℕ → TimerNode) (link : ℕ → ℤ) (v : Layout size n at link) where
  pub slot-injective : (p q : ℕ) → p < n → q < n → slot (at p) ≡ slot (at q) → p ≡ q
  slot-injective p q hp hq e =
      let a = v.linked p hp in
      let b = v.linked q hq in
      let c : link (slot (at q)) ≡ pos p = rw (← e) a in pos-injective (sym c ∙ b)

  module _ (p q : ℕ) (hp : p < n) (hq : q < n) (ne : p ≢ q) where
    slots_ne : slot (at p) ≢ slot (at q)
    slots_ne e = ne (slot-injective p q hp hq e)

    swap_link-cases :
        (i : ℕ)
        → ((slot (at p) ≡ i) × (swap_link at link p q i ≡ pos q))
          ⊎ ((slot (at q) ≡ i) × (swap_link at link p q i ≡ pos p))
          ⊎ ((slot (at p) ≢ i) × (slot (at q) ≢ i) × (swap_link at link p q i ≡ link i))
    swap_link-cases i = elim (eq_cases (slot (at p)) i) [
      | inl e ↦ inl (e, rw (← e) (update_self (update link (slot (at q)) (pos p)) _ (pos q)))
      | inr np ↦ elim (eq_cases (slot (at q)) i) [
        | inl e ↦ inr (
            inl (
              e,
              update_other (update link (slot (at q)) (pos p)) _ i (pos q) np
                  ∙ rw (← e) (update_self link (slot (at q)) (pos p)),
            ))
        | inr nq ↦ inr (
            inr (
              np,
              nq,
              update_other (update link (slot (at q)) (pos p)) _ i (pos q) np
                  ∙ update_other link _ i (pos p) nq,
            ))
      ]
    ]

    swap-all :
        (P : TimerNode → Type 0)
        → ((r : ℕ) → r < n → P (at r))
        → (r : ℕ) → r < n
        → P (swap_at at p q r)
    swap-all P all r hr = elim (swap_at-cases at p q r) [
      | inl (_, e) ↦ subst P (sym e) (all p hp)
      | inr (inl (_, e)) ↦ subst P (sym e) (all q hq)
      | inr (inr (_, _, e)) ↦ subst P (sym e) (all r hr)
    ]

    swap-linked : (r : ℕ) → r < n → swap_link at link p q (slot (swap_at at p q r)) ≡ pos r
    swap-linked r hr = elim (swap_at-cases at p q r) [
      | inl (e, a) ↦ rw a (ground (arith, swap_link-cases (slot (at p)), slots_ne))
      | inr (inl (e, a)) ↦ rw a (ground (arith, swap_link-cases (slot (at q)), slots_ne))
      | inr (inr (nq, np, a)) ↦ rw a (elim (swap_link-cases (slot (at r))) [
        | inl (s, _) ↦ absurd (np (slot-injective p r hp hr s))
        | inr (inl (s, _)) ↦ absurd (nq (slot-injective q r hq hr s))
        | inr (inr (_, _, l)) ↦ l ∙ v.linked r hr
      ])
    ]

    swap-back :
        (i r : ℕ)
        → 0 < i
        → i < size
        → swap_link at link p q i ≡ pos r
        → (r < n) × (slot (swap_at at p q r) ≡ i)
    swap-back i r lo hi e = elim (swap_link-cases i) [
      | inl (s, l) ↦
          let c : q ≡ r = pos-injective (sym l ∙ e) in
          rw (← c) (hq, ap slot (update_self (update at p (at q)) q (at p)) ∙ s)
      | inr (inl (s, l)) ↦
          let c : p ≡ r = pos-injective (sym l ∙ e) in
          rw (← c) (hp, ap slot (swap_at-first at p q ne) ∙ s)
      | inr (inr (np, nq, l)) ↦
          let b = v.back i r lo hi (sym l ∙ e) in
          (
            b.0,
            elim (swap_at-cases at p q r) [
              | inl (c, a) ↦ absurd (nq (ap (λ k. slot (at k)) c ∙ b.1))
              | inr (inl (c, a)) ↦ absurd (np (ap (λ k. slot (at k)) c ∙ b.1))
              | inr (inr (_, _, a)) ↦ ap slot a ∙ b.1
            ],
          )
    ]

    pub swap-Layout : Layout size n (swap_at at p q) (swap_link at link p q)
    swap-Layout = record {
      named = swap-all (λ x. timer_node_index x.timer_id ≡ pos (slot x)) v.named;
      low = swap-all (λ x. 0 < slot x) v.low;
      high = swap-all (λ x. slot x < size) v.high;
      linked = swap-linked;
      back = swap-back;
    }

    kept :
        (i : ℕ) (z : ℤ)
        → link i ≡ z
        → 0 < i
        → i < size
        → slot (at p) ≢ i
        → slot (at q) ≢ i
        → entry (swap_at at p q) z ≡ entry at z
    kept i (negsuc m) e lo hi np nq = refl
    kept i (pos r) e lo hi np nq =
        let b = v.back i r lo hi e in
        elim (swap_at-cases at p q r) [
          | inl (c, a) ↦ absurd (nq (ap (λ k. slot (at k)) c ∙ b.1))
          | inr (inl (c, a)) ↦ absurd (np (ap (λ k. slot (at k)) c ∙ b.1))
          | inr (inr (_, _, a)) ↦ ap some a
        ]

    -- No timer gets another node.
    pub swap-node_of :
        (i : ℕ)
        → 0 < i
        → i < size
        → node_of (swap_at at p q) (swap_link at link p q) i ≡ node_of at link i
    swap-node_of i lo hi = elim (swap_link-cases i) [
      | inl (s, l) ↦
          rw (l, ← s, v.linked p hp) (ap some (update_self (update at p (at q)) q (at p)))
      | inr (inl (s, l)) ↦ rw (l, ← s, v.linked q hq) (ap some (swap_at-first at p q ne))
      | inr (inr (np, nq, l)) ↦ rw l (kept i (link i) refl lo hi np nq)
    ]

    -- The free list is not touched.
    pub swap-Chain :
        (m : ℕ) (fs : List ℕ) (z : ℤ) → Chain link m fs z → Chain (swap_link at link p q) m fs z
    swap-Chain m fs z c =
        let d =
          Chain-update link m (slot (at q)) (pos p) fs z
            (Chain-avoids link m (slot (at q)) q fs z (v.linked q hq) c) c in
        Chain-update (update link (slot (at q)) (pos p)) m (slot (at p)) (pos q) fs z
          (Chain-avoids link m (slot (at p)) p fs z (v.linked p hp) c) d
