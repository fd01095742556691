-- ===== src/ObjMgr/AddCity.antt =====
-- AddCity, from the index of the player to its result.
use play_frame.Common.{ℕ, ◌<◌, ◌≡◌, refl, sym, ◌∙◌, ap, ◌⊎◌, inl, inr, some, arith, false}
use play_frame.Common.Int.{ℤ, pos, negsuc, ◌+ℤ◌, leb_ℤ}
use play_frame.Common.Run.{ok, Returns, returns, Returns-bind, Returns-map}
use play_frame.Common.Array.{set, load-ok, store-ok}
use play_frame.ShmPool.Operations.{alloc_correct}
use play_frame.ShmPool.Memory.{
  mem_at, Knows, read-mem_at, written, write-written, get_pos-Knows, find-written,
  mem_at-written_self,
}
use play_frame.ObjMgr.{Player, ObjMgr, blank_city, found_city, add_city, add_city_to, get_player}
use play_frame.ObjMgr.Invariant.{IsSound, get_player-find}
use play_frame.ObjMgr.Places.{IsFirst, IsFull, IsFirst-cases, find_place-first, find_place-full}
use play_frame.ObjMgr.Cities.{city_entry, CityAdded, added-CityAdded}

few_cities : (k : ℕ) → k < 100 → leb_ℤ (pos 100) (pos k) ≡ false
few_cities k h = ground arith

module _ (m : ObjMgr) (v : IsSound m) (x : ℕ) (known : Knows m.player_pool x)
    (room : 0 < m.city_pool.valid_unit_count) where
  abbrev p : Player
  p = mem_at m.player_pool x

  found_city-CityAdded :
      (e : ℕ)
      → IsFirst (city_entry m x) 99 1 e
      → Returns (CityAdded m x) (found_city m x p (pos x) e)
  unfolding found_city
  found_city-CityAdded e first =
      let l = v.listed x known in
      Returns-bind (alloc_correct m.city_pool v.cities room) λ r g.
        let blank = written r.1 g.place blank_city in
        let present = find-written r.1 g.place blank_city g.place ∙ g.now_used in
        let counted = set p.city_list 0 (p.city_list.at 0 +ℤ pos 1) in
        rw (g.result, write-written r.1 g.place blank_city g.now_used)
          (rw
            (
              get_pos-Knows blank g.place present,
              load-ok p.city_list 0 (omega (arith, l.sized)),
              store-ok p.city_list 0 (p.city_list.at 0 +ℤ pos 1) (omega (arith, l.sized)),
              store-ok counted e (pos g.place) (omega (arith, l.sized, first.high)),
            )
            (rw
              (
                write-written m.player_pool x (record p { city_list = set counted e (pos g.place) })
                    known,
                read-mem_at blank g.place present
                    ∙ ap ok (mem_at-written_self r.1 g.place blank_city),
              )
              (rw
                (write-written blank g.place (record { player_idx = pos x; population = pos 0 })
                  present)
                (returns (added-CityAdded m v x known e first r g)))))

-- No entry is empty, and AddCity has returned -4 and changed nothing.
abbrev pub IsRefused : ObjMgr → ℕ → ℤ × ObjMgr → Type 0
IsRefused m x r = IsFull (city_entry m x) 99 1 × (r ≡ (negsuc 3, m))

-- In a sound state with a city left in the pool, for a player in use whose count of cities is below
-- 100, AddCity either puts a new city, at an index that no city had, into the first empty entry of the
-- list and counts it, and then all else stays and the state is sound again, or no entry is empty and
-- it returns -4.
pub add_city_correct :
    (m : ObjMgr) (x k : ℕ)
    → IsSound m
    → get_player m (pos x) ≡ ok (some x)
    → city_entry m x 0 ≡ pos k
    → k < 100
    → 0 < m.city_pool.valid_unit_count
    → Returns (λ r. CityAdded m x r ⊎ IsRefused m x r) (add_city m (pos x))
unfolding add_city add_city_to
add_city_correct m x k v h count few room =
    let known : Knows m.player_pool x = sym (get_player-find m x) ∙ h in
    let l = v.listed x known in
    let p = mem_at m.player_pool x in
    rw
      (
        h,
        read-mem_at m.player_pool x known,
        load-ok p.city_list 0 (omega (arith, l.sized)),
        count,
        few_cities k few,
      )
      (elim (IsFirst-cases (city_entry m x) 99 1) [
        | inl (e, first) ↦
            rw (find_place-first m x p (pos x) l.sized 99 1 e (omega arith) first)
              (Returns-map (found_city-CityAdded m v x known room e first) (λ r a. inl a))
        | inr full ↦
            rw (find_place-full m x p (pos x) l.sized 99 1 (omega arith) full)
              (returns (inr (full, refl)))
      ])
