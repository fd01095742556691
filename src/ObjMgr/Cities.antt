-- ===== src/ObjMgr/Cities.antt =====
-- AddCity: what it does and what it returns, on every branch.
use play_frame.Common.{
  ℕ, ◌+◌, ◌≤◌, ◌≡◌, ◌≢◌, refl, sym, ◌∙◌, ap, inl, inr, Option, none, some, arith, eq_cases,
}
use play_frame.Common.Int.{ℤ, pos, ◌+ℤ◌}
use play_frame.Common.Run.{ok}
use play_frame.Common.Array.{update, update_self, update_other}
use play_frame.ShmPool.{PoolCtrl, find}
use play_frame.ShmPool.Operations.{Given}
use play_frame.ShmPool.Memory.{
  mem_at, Knows, written, written-IsValid, find-written, mem_at-written_self, mem_at-written_other,
}
use play_frame.ObjMgr.{Player, City, ObjMgr, blank_city, get_player, get_city}
use play_frame.ObjMgr.Invariant.{
  IsOwned, IsListed, IsSound, unknown, get_player-find, get_city-find,
}
use play_frame.ObjMgr.Places.{IsFirst}

abbrev pub city_entry : ObjMgr → ℕ → ℕ → ℤ
city_entry m x i = (mem_at m.player_pool x).city_list.at i

-- The player `x` has a new city, at an index that no city had, in the first empty entry.
pub record CityAdded (m : ObjMgr) (x : ℕ) (r : ℤ × ObjMgr) : Type 0 where
  pub city : ℕ
  pub entry : ℕ
  pub index : r.0 ≡ pos city
  pub first : IsFirst (city_entry m x) 99 1 entry
  pub was_free : get_city m (pos city) ≡ ok none
  pub present : get_city r.1 (pos city) ≡ ok (some city)
  pub content : mem_at r.1.city_pool city ≡ record { player_idx = pos x; population = pos 0 }
  pub listed : city_entry r.1 x entry ≡ pos city
  pub entries : (i : ℕ) → 1 ≤ i → i ≢ entry → city_entry r.1 x i ≡ city_entry m x i
  pub count : city_entry r.1 x 0 ≡ city_entry m x 0 +ℤ pos 1
  pub players : (j : ℕ) → get_player r.1 (pos j) ≡ get_player m (pos j)
  pub memory : (j : ℕ) → j ≢ x → mem_at r.1.player_pool j ≡ mem_at m.player_pool j
  pub cities : (c : ℕ) → c ≢ city → get_city r.1 (pos c) ≡ get_city m (pos c)
  pub city_memory : (c : ℕ) → c ≢ city → mem_at r.1.city_pool c ≡ mem_at m.city_pool c
  pub users : r.1.uid_to_player_idx_map ≡ m.uid_to_player_idx_map
  pub sound : IsSound r.1

module _ (m : ObjMgr) (v : IsSound m) (x : ℕ) (known : Knows m.player_pool x) (e : ℕ)
    (first : IsFirst (city_entry m x) 99 1 e) (r : Option ℕ × PoolCtrl City)
    (g : Given m.city_pool r) where
  abbrev p : Player
  p = mem_at m.player_pool x

  abbrev c : ℕ
  c = g.place

  abbrev one_more : ℤ
  one_more = p.city_list.at 0 +ℤ pos 1

  abbrev counted_list : ℕ → ℤ
  counted_list = update p.city_list.at 0 one_more

  abbrev list : ℕ → ℤ
  list = update counted_list e (pos c)

  abbrev p' : Player
  p' = record p { city_list = record p.city_list { at = list } }

  abbrev blank : PoolCtrl City
  blank = written r.1 c blank_city

  abbrev named_city : City
  named_city = record { player_idx = pos x; population = pos 0 }

  abbrev m' : ObjMgr
  m' = record m { player_pool = written m.player_pool x p'; city_pool = written blank c named_city }

  at_first : list 0 ≡ p.city_list.at 0 +ℤ pos 1
  at_first =
      update_other counted_list e 0 (pos c) (λ q. let l = first.low in omega arith)
      ∙ update_self p.city_list.at 0 one_more

  at_entry : list e ≡ pos c
  at_entry = update_self counted_list e (pos c)

  at_other : (i : ℕ) → 1 ≤ i → i ≢ e → list i ≡ p.city_list.at i
  at_other i lo ne =
      update_other counted_list e i (pos c) (λ q. ne (sym q))
      ∙ update_other p.city_list.at 0 i one_more (λ q. omega arith)

  city_find : (k : ℕ) → find m'.city_pool (pos k) ≡ find r.1 (pos k)
  city_find k = find-written blank c named_city k ∙ find-written r.1 c blank_city k

  city_present : Knows m'.city_pool c
  city_present = city_find c ∙ g.now_used

  city_find-other : (k : ℕ) → k ≢ c → find m'.city_pool (pos k) ≡ find m.city_pool (pos k)
  city_find-other k ne = city_find k ∙ g.others k ne

  city_content : mem_at m'.city_pool c ≡ named_city
  city_content = mem_at-written_self blank c named_city

  city_memory : (k : ℕ) → k ≢ c → mem_at m'.city_pool k ≡ mem_at m.city_pool k
  city_memory k ne =
      mem_at-written_other blank c named_city k (λ q. ne (sym q))
      ∙ mem_at-written_other r.1 c blank_city k (λ q. ne (sym q))
      ∙ g.memory k

  player_find : (j : ℕ) → find m'.player_pool (pos j) ≡ find m.player_pool (pos j)
  player_find j = find-written m.player_pool x p' j

  player_content : mem_at m'.player_pool x ≡ p'
  player_content = mem_at-written_self m.player_pool x p'

  player_memory : (j : ℕ) → j ≢ x → mem_at m'.player_pool j ≡ mem_at m.player_pool j
  player_memory j ne = mem_at-written_other m.player_pool x p' j (λ q. ne (sym q))

  IsOwned-still : (y : ℕ) (z : ℤ) → IsOwned m.city_pool y z → IsOwned m'.city_pool y z
  IsOwned-still y z (inl q) = inl q
  IsOwned-still y z (inr (k, at, ky, own)) =
      let ne = unknown m.city_pool c k g.was_free ky in
      inr
        (k, at, city_find-other k ne ∙ ky, ap (λ (w : City). w.player_idx) (city_memory k ne) ∙ own)

  old_list : IsListed m.city_pool x p.city_list
  old_list = v.listed x known

  new_list : IsListed m'.city_pool x p'.city_list
  unfolding ◌+ℤ◌
  new_list = record {
    sized = old_list.sized;
    owned = λ i lo hi. elim (eq_cases i e) [
      | inl q ↦
          rw (q, at_entry)
            (inr (c, refl, city_present, ap (λ (w : City). w.player_idx) city_content))
      | inr ne ↦ rw (at_other i lo ne) (IsOwned-still x _ (old_list.owned i lo hi))
    ];
    number = old_list.number + 1;
    counted = rw (at_first, old_list.counted) (ground arith);
    empty = λ q i lo hi. absurd (omega arith);
  }

  still-IsListed :
      (y : ℕ)
      → IsListed m.city_pool y (mem_at m.player_pool y).city_list
      → IsListed m'.city_pool y (mem_at m.player_pool y).city_list
  still-IsListed y old = record {
    sized = old.sized;
    owned = λ i lo hi. IsOwned-still y _ (old.owned i lo hi);
    number = old.number;
    counted = old.counted;
    empty = old.empty;
  }

  same_uid : (y : ℕ) → (mem_at m'.player_pool y).uid ≡ (mem_at m.player_pool y).uid
  same_uid y = elim (eq_cases y x) [
    | inl q ↦ rw (q, player_content)
    | inr ne ↦ ap (λ (w : Player). w.uid) (player_memory y ne)
  ]

  added-IsSound : IsSound m'
  added-IsSound = record {
    players = written-IsValid m.player_pool x p' v.players;
    cities = written-IsValid blank c named_city (written-IsValid r.1 c blank_city g.valid);
    bound = λ uid z q.
        let (y, at, ky, own) = v.bound uid z q in (y, at, player_find y ∙ ky, same_uid y ∙ own);
    listed = λ y k. elim (eq_cases y x) [
      | inl q ↦ rw (q, player_content) new_list
      | inr ne ↦ rw (player_memory y ne) (still-IsListed y (v.listed y (sym (player_find y) ∙ k)))
    ];
  }

  pub added-CityAdded : CityAdded m x (pos c, m')
  added-CityAdded = record {
    city = c;
    entry = e;
    index = refl;
    first = first;
    was_free = get_city-find m c ∙ g.was_free;
    present = get_city-find m' c ∙ city_present;
    content = city_content;
    listed = ap (λ (w : Player). w.city_list.at e) player_content ∙ at_entry;
    entries = λ i lo ne. ap (λ (w : Player). w.city_list.at i) player_content ∙ at_other i lo ne;
    count = ap (λ (w : Player). w.city_list.at 0) player_content ∙ at_first;
    players = λ j. get_player-find m' j ∙ player_find j ∙ sym (get_player-find m j);
    memory = player_memory;
    cities = λ k ne. get_city-find m' k ∙ city_find-other k ne ∙ sym (get_city-find m k);
    city_memory = city_memory;
    users = refl;
    sound = added-IsSound;
  }
