-- ===== src/ObjMgr/Remove.antt =====
-- DelCity, and the loop of DelPlayer over the cities of a player.
use play_frame.Common.{
  ℕ, zero, suc, ◌+◌, ◌≤◌, ◌<◌, ◌≡◌, ◌≢◌, refl, sym, ◌∙◌, ap, ◌⊎◌, inl, inr, none, arith, eq_cases,
  Bool-cases, if◌then◌else◌, false,
}
use play_frame.Common.Int.{ℤ, pos, pos-injective, ==ℤ→eq, ◌==ℤ◌}
use play_frame.Common.Run.{ok, Returns, returns, Returns-bind, Returns-map}
use play_frame.Common.Array.{load-ok}
use play_frame.ShmPool.{PoolCtrl, find}
use play_frame.ShmPool.Invariant.{IsValid}
use play_frame.ShmPool.Find.{find-zero}
use play_frame.ShmPool.Operations.{release_correct}
use play_frame.ShmPool.Memory.{mem_at, Knows, read, read-mem_at}
use play_frame.ObjMgr.{Player, City, ObjMgr, del_city, del_cities, release_city}
use play_frame.ObjMgr.Invariant.{known-cases, get_city-find}

-- Some cities of the player `x` have gone, and nothing else has changed.
pub record Cleared (x : ℕ) (m m' : ObjMgr) : Type 0 where
  pub players : m'.player_pool ≡ m.player_pool
  pub users : m'.uid_to_player_idx_map ≡ m.uid_to_player_idx_map
  pub valid : IsValid m'.city_pool
  pub memory : (c : ℕ) → mem_at m'.city_pool c ≡ mem_at m.city_pool c
  pub kept :
      (c : ℕ)
      → (mem_at m.city_pool c).player_idx ≢ pos x
      → find m'.city_pool (pos c) ≡ find m.city_pool (pos c)
  pub gone : (c : ℕ) → find m.city_pool (pos c) ≡ ok none → find m'.city_pool (pos c) ≡ ok none

pub Cleared-refl : (x : ℕ) (m : ObjMgr) → IsValid m.city_pool → Cleared x m m
Cleared-refl x m v = record {
  players = refl;
  users = refl;
  valid = v;
  memory = λ c. refl;
  kept = λ c ne. refl;
  gone = λ c e. e;
}

Cleared-trans : (x : ℕ) (a b c : ObjMgr) → Cleared x a b → Cleared x b c → Cleared x a c
Cleared-trans x a b c p q = record {
  players = q.players ∙ p.players;
  users = q.users ∙ p.users;
  valid = q.valid;
  memory = λ i. q.memory i ∙ p.memory i;
  kept = λ i ne.
      let still : (mem_at b.city_pool i).player_idx ≢ pos x =
        λ e. ne (ap (λ (y : City). y.player_idx) (sym (p.memory i)) ∙ e) in
      q.kept i still ∙ p.kept i ne;
  gone = λ i e. q.gone i (p.gone i e);
}

-- The city `c` is not in use.
abbrev pub IsGone : ObjMgr → ℕ → Type 0
IsGone m c = find m.city_pool (pos c) ≡ ok none

del_city-Cleared :
    (x c : ℕ) (m : ObjMgr)
    → IsValid m.city_pool
    → (mem_at m.city_pool c).player_idx ≡ pos x
    → Returns (λ m'. Cleared x m m' × IsGone m' c) (del_city m (pos c))
unfolding del_city release_city
del_city-Cleared x c m v own = elim (known-cases m.city_pool c v) [
  | inl e ↦ rw (get_city-find m c, e) (returns (Cleared-refl x m v, e))
  | inr k ↦
      rw (get_city-find m c, k)
        (Returns-bind (release_correct m.city_pool c v k) λ pool t. returns (
          record {
            players = refl;
            users = refl;
            valid = t.valid;
            memory = t.memory;
            kept = λ i ne. t.others i (λ e. ne (rw e own));
            gone = λ i e. elim (eq_cases i c) [
              | inl same ↦ rw same t.now_free
              | inr ne ↦ t.others i ne ∙ e
            ];
          },
          t.now_free,
        ))
]

-- An entry is empty, or a city that names the player, in use or not.
abbrev pub IsNamed : PoolCtrl City → ℕ → ℤ → Type 0
IsNamed cities x z = (z ≡ pos 0) ⊎ ((c : ℕ) × (z ≡ pos c) × ((mem_at cities c).player_idx ≡ pos x))

-- The entry is the position of no city in use.
abbrev pub IsEmptied : ObjMgr → ℤ → Type 0
IsEmptied m z = (c : ℕ) → z ≡ pos c → IsGone m c

del_entry-Cleared :
    (x : ℕ) (z : ℤ) (m : ObjMgr)
    → IsValid m.city_pool
    → IsNamed m.city_pool x z
    → Returns (λ m'. Cleared x m m' × IsEmptied m' z) (if z ==ℤ pos 0 then ok m else del_city m z)
del_entry-Cleared x z m v named = elim (Bool-cases (z ==ℤ pos 0)) [
  | inl e ↦
      let zero_entry = ==ℤ→eq z (pos 0) e in
      rw e (
        returns (
          Cleared-refl x m v,
          λ c s.
              let q : 0 ≡ c = pos-injective (sym zero_entry ∙ s) in
              rw (← q) (find-zero m.city_pool),
        ))
  | inr e ↦ elim named [
    | inl zero_entry ↦ let t : (pos 0 ==ℤ pos 0) ≡ false = rw zero_entry at e in absurd (cc)
    | inr (c, at, own) ↦ rw e (
        rw at (
          Returns-map (del_city-Cleared x c m v own)
            λ m' d. (d.0, λ k s. let q : c ≡ k = pos-injective (s) in rw (← q) d.1)))
  ]
]

IsNamed-Cleared :
    (x : ℕ) (z : ℤ) (m m' : ObjMgr)
    → Cleared x m m'
    → IsNamed m.city_pool x z
    → IsNamed m'.city_pool x z
IsNamed-Cleared x z m m' d (inl e) = inl e
IsNamed-Cleared x z m m' d (inr (c, at, own)) =
    inr (c, at, ap (λ (y : City). y.player_idx) (d.memory c) ∙ own)

module _ (x : ℕ) (pool : PoolCtrl Player) (known : Knows pool x)
    (sized : (mem_at pool x).city_list.size ≡ 101) where
  abbrev entry : ℕ → ℤ
  entry = (mem_at pool x).city_list.at

  pub del_cities-Cleared :
      (n i : ℕ) (m : ObjMgr)
      → m.player_pool ≡ pool
      → i + n ≤ 100
      → IsValid m.city_pool
      → ((j : ℕ) → i ≤ j → j < i + n → IsNamed m.city_pool x (entry j))
      → Returns
          (λ m'. Cleared x m m' × ((j : ℕ) → i ≤ j → j < i + n → IsEmptied m' (entry j)))
          (del_cities n i m x)
  unfolding del_cities
  del_cities-Cleared zero i m same le v named =
      returns (Cleared-refl x m v, λ j lo hi. absurd (omega arith))
  del_cities-Cleared (suc n) i m same le v named =
      rw (ap (λ (q : PoolCtrl Player). read q x) same ∙ read-mem_at pool x known) (
        rw (load-ok (mem_at pool x).city_list i (omega arith)) (
          Returns-bind (del_entry-Cleared x (entry i) m v (named i (omega arith) (omega arith)))
            λ m1 d.
              Returns-map
                (del_cities-Cleared n (i + 1) m1 (d.0.players ∙ same) (omega arith) d.0.valid
                  (λ j lo hi.
                    IsNamed-Cleared x (entry j) m m1 d.0 (named j (omega arith) (omega arith))))
                λ m2 r. (
                  Cleared-trans x m m1 m2 d.0 r.0,
                  λ j lo hi. elim (eq_cases j i) [
                    | inl q ↦ rw q (λ c s. r.0.gone c (d.1 c s))
                    | inr ne ↦ r.1 j (omega arith) (omega arith)
                  ],
                )))
