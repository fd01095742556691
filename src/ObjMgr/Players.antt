-- ===== src/ObjMgr/Players.antt =====
-- AddPlayer and what it does to the others.
use play_frame.Common.{ℕ, ◌<◌, ◌≡◌, ◌≢◌, refl, sym, ◌∙◌, ap, inl, inr, Option, none, some, eq_cases}
use play_frame.Common.Int.{ℤ, pos}
use play_frame.Common.Run.{ok, fault, Returns, returns, Returns-bind}
use play_frame.ShmPool.{PoolCtrl, find}
use play_frame.ShmPool.Operations.{Given, alloc_correct, alloc-exhausted}
use play_frame.ShmPool.Memory.{
  mem_at, written, write-written, get_pos-Knows, written-IsValid, find-written, mem_at-written_self,
  mem_at-written_other,
}
use play_frame.ObjMgr.{Player, City, ObjMgr, blank_player, add_player, get_player}
use play_frame.ObjMgr.Invariant.{IsListed, IsSound, unknown, get_player-find}

-- A new player at an index that no player had.
pub record Added (m : ObjMgr) (r : ℤ × ObjMgr) : Type 0 where
  pub place : ℕ
  pub index : r.0 ≡ pos place
  pub was_free : get_player m (pos place) ≡ ok none
  pub present : get_player r.1 (pos place) ≡ ok (some place)
  pub blank : mem_at r.1.player_pool place ≡ blank_player
  pub others : (j : ℕ) → j ≢ place → get_player r.1 (pos j) ≡ get_player m (pos j)
  pub memory : (j : ℕ) → j ≢ place → mem_at r.1.player_pool j ≡ mem_at m.player_pool j
  pub cities : r.1.city_pool ≡ m.city_pool
  pub users : r.1.uid_to_player_idx_map ≡ m.uid_to_player_idx_map
  pub sound : IsSound r.1

blank-IsListed : (cities : PoolCtrl City) (x : ℕ) → IsListed cities x blank_player.city_list
blank-IsListed cities x = record {
  sized = refl;
  owned = λ i lo hi. inl refl;
  number = 0;
  counted = refl;
  empty = λ e i lo hi. refl;
}

module _ (m : ObjMgr) (v : IsSound m) (r : Option ℕ × PoolCtrl Player)
    (g : Given m.player_pool r) where
  abbrev x : ℕ
  x = g.place

  abbrev pool : PoolCtrl Player
  pool = written r.1 x blank_player

  abbrev added : ObjMgr
  added = record m { player_pool = pool }

  find-other : (j : ℕ) → j ≢ x → find pool (pos j) ≡ find m.player_pool (pos j)
  find-other j ne = find-written r.1 x blank_player j ∙ g.others j ne

  mem-other : (j : ℕ) → j ≢ x → mem_at pool j ≡ mem_at m.player_pool j
  mem-other j ne = mem_at-written_other r.1 x blank_player j (λ e. ne (sym e)) ∙ g.memory j

  added-IsSound : IsSound added
  added-IsSound = record {
    players = written-IsValid r.1 x blank_player g.valid;
    cities = v.cities;
    bound = λ uid z e.
        let (y, at, known, same) = v.bound uid z e in
        let ne = unknown m.player_pool x y g.was_free known in
        (y, at, find-other y ne ∙ known, ap (λ (p : Player). p.uid) (mem-other y ne) ∙ same);
    listed = λ y known. elim (eq_cases y x) [
      | inl e ↦ rw (e, mem_at-written_self r.1 x blank_player) (blank-IsListed m.city_pool x)
      | inr ne ↦ rw (mem-other y ne) (v.listed y (sym (find-other y ne) ∙ known))
    ];
  }

  added-Added : Added m (pos x, added)
  added-Added = record {
    place = x;
    index = refl;
    was_free = get_player-find m x ∙ g.was_free;
    present = get_player-find added x ∙ find-written r.1 x blank_player x ∙ g.now_used;
    blank = mem_at-written_self r.1 x blank_player;
    others = λ j ne. get_player-find added j ∙ find-other j ne ∙ sym (get_player-find m j);
    memory = mem-other;
    cities = refl;
    users = refl;
    sound = added-IsSound;
  }

-- While the pool of players of a sound state has a unit left, AddPlayer returns the index of a new
-- player with cleared memory. Every other player, the cities and the map stay as they were, and the
-- state is sound again.
pub add_player_correct :
    (m : ObjMgr) → IsSound m → 0 < m.player_pool.valid_unit_count → Returns (Added m) (add_player m)
unfolding add_player
add_player_correct m v room = Returns-bind (alloc_correct m.player_pool v.players room) λ r g.
    rw (g.result, write-written r.1 g.place blank_player g.now_used)
      (rw
        (get_pos-Knows (written r.1 g.place blank_player) g.place
          (find-written r.1 g.place blank_player g.place ∙ g.now_used))
        (returns (added-Added m v r g)))

-- With every player of the pool in use, AddPlayer clears the memory behind a null pointer.
pub add_player-exhausted :
    (m : ObjMgr) → IsSound m → m.player_pool.valid_unit_count ≡ 0 → add_player m ≡ fault
unfolding add_player
add_player-exhausted m v full = rw ((alloc-exhausted m.player_pool v.players full).0)
