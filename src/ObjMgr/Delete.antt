-- ===== src/ObjMgr/Delete.antt =====
-- DelPlayer takes out the player, the cities and the user's entry in the map.
use play_frame.Common.{
  ℕ, ◌≤◌, ◌<◌, ◌≡◌, ◌≢◌, refl, sym, ◌∙◌, ap, inl, inr, Option, none, some, arith, Bool-cases, false,
  if◌then◌else◌, ◌==◌, ==_iff, ltb_false→le,
}
use play_frame.Common.Int.{ℤ, pos, pos-injective, ==ℤ-refl, ==ℤ→eq, ◌==ℤ◌, is_positive}
use play_frame.Common.Run.{ok, Returns, returns, Returns-bind, Returns-map, Returns-if}
use play_frame.Common.Array.{load-ok}
use play_frame.ShmPool.{PoolCtrl, find}
use play_frame.ShmPool.Find.{find-zero}
use play_frame.ShmPool.Operations.{Taken, release_correct}
use play_frame.ShmPool.Memory.{mem_at, Knows, read-mem_at, get_pos-Knows}
use play_frame.ObjMgr.{
  Player, City, ObjMgr, get_player, get_city, get_player_idx, erase_same, erase_uid_to_player_idx,
  del_cities, del_player, release_player,
}
use play_frame.ObjMgr.Invariant.{
  IsOwned, IsListed, IsSound, unknown, get_player-find, get_city-find,
}
use play_frame.ObjMgr.Remove.{Cleared, Cleared-refl, IsNamed, IsEmptied, del_cities-Cleared}

-- The player `x`, the user's entry and the cities in the list have gone.
pub record Deleted (m : ObjMgr) (x : ℕ) (m' : ObjMgr) : Type 0 where
  pub absent : get_player m' (pos x) ≡ ok none
  pub others : (j : ℕ) → j ≢ x → get_player m' (pos j) ≡ get_player m (pos j)
  pub memory : (j : ℕ) → mem_at m'.player_pool j ≡ mem_at m.player_pool j
  pub unbound : (uid : ℕ) → m'.uid_to_player_idx_map uid ≢ some (pos x)
  pub users :
      (uid : ℕ)
      → m.uid_to_player_idx_map uid ≢ some (pos x)
      → m'.uid_to_player_idx_map uid ≡ m.uid_to_player_idx_map uid
  pub cities_gone :
      (i c : ℕ)
      → 1 ≤ i
      → i < 100
      → (mem_at m.player_pool x).city_list.at i ≡ pos c
      → get_city m' (pos c) ≡ ok none
  pub cities_kept :
      (c : ℕ) → (mem_at m.city_pool c).player_idx ≢ pos x → get_city m' (pos c) ≡ get_city m (pos c)
  pub city_memory : (c : ℕ) → mem_at m'.city_pool c ≡ mem_at m.city_pool c
  pub sound : IsSound m'

erase_same-some : (o : Option ℤ) (i z : ℤ) → erase_same o i ≡ some z → (o ≡ some z) × (z ≢ i)
erase_same-some none i z e = absurd (cc)
erase_same-some (some old) i z e = elim (Bool-cases (old ==ℤ i)) [
  | inl t ↦ let e' : none ≡ some z = rw t at e in absurd (cc)
  | inr f ↦
      let e' : some old ≡ some z = rw f at e in
      let same : old ≡ z = cc in
      (e', λ q. let r : (i ==ℤ i) ≡ false = rw (same, q) at f in let t = ==ℤ-refl i in cc)
]

erase_same-other : (o : Option ℤ) (i : ℤ) → o ≢ some i → erase_same o i ≡ o
erase_same-other none i ne = refl
erase_same-other (some old) i ne = elim (Bool-cases (old ==ℤ i)) [
  | inl t ↦ absurd (ne (ap some (==ℤ→eq old i t)))
  | inr f ↦ rw f
]

module _ (m : ObjMgr) (v : IsSound m) (x : ℕ) (known : Knows m.player_pool x) where
  abbrev p : Player
  p = mem_at m.player_pool x

  abbrev erased : ObjMgr
  erased = erase_uid_to_player_idx m p.uid (pos x)

  abbrev users_now : ℕ → Option ℤ
  users_now = erased.uid_to_player_idx_map

  users-some :
      (uid : ℕ) (z : ℤ)
      → users_now uid ≡ some z
      → (m.uid_to_player_idx_map uid ≡ some z) × (z ≢ pos x)
  unfolding erase_uid_to_player_idx
  users-some uid z e = elim (Bool-cases (p.uid == uid)) [
    | inl t ↦ erase_same-some (m.uid_to_player_idx_map uid) (pos x) z (rw t at e)
    | inr f ↦
        let e' : m.uid_to_player_idx_map uid ≡ some z = rw f at e in
        (
          e',
          λ q.
              let (y, at, ky, own) = v.bound uid z e' in
              let same : y ≡ x = pos-injective (sym at ∙ q) in
              let own' : p.uid ≡ uid = rw same at own in let t = (==_iff p.uid uid).1 own' in cc,
        )
  ]

  users-other :
      (uid : ℕ)
      → m.uid_to_player_idx_map uid ≢ some (pos x)
      → users_now uid ≡ m.uid_to_player_idx_map uid
  unfolding erase_uid_to_player_idx
  users-other uid ne = elim (Bool-cases (p.uid == uid)) [
    | inl t ↦ rw t (erase_same-other (m.uid_to_player_idx_map uid) (pos x) ne)
    | inr f ↦ rw f
  ]

  listed : IsListed m.city_pool x p.city_list
  listed = v.listed x known

  named : (i : ℕ) → 1 ≤ i → i < 100 → IsNamed m.city_pool x (p.city_list.at i)
  named i lo hi = elim (listed.owned i lo hi) [
    | inl e ↦ inl e
    | inr (c, at, k, own) ↦ inr (c, at, own)
  ]

  -- What the loop over the cities leaves behind.
  abbrev AllGone : ObjMgr → Type 0
  AllGone m' = Cleared x erased m' × ((i : ℕ) → 1 ≤ i → i < 100 → IsEmptied m' (p.city_list.at i))

  cities-AllGone :
      Returns AllGone
        (if is_positive (p.city_list.at 0) then del_cities 99 1 erased x else ok erased)
  unfolding erase_uid_to_player_idx
  cities-AllGone =
      Returns-if (is_positive (p.city_list.at 0))
        (λ some_cities.
          Returns-map
            (del_cities-Cleared x m.player_pool known listed.sized 99 1 erased refl (omega arith)
              v.cities (λ j lo hi. named j lo hi))
            (λ m' r. (r.0, λ i lo hi. r.1 i lo hi)))
        (λ no_cities.
          let zero_count : listed.number ≡ 0 =
            (let none_left : is_positive (pos listed.number) ≡ false =
                rw listed.counted at no_cities in
              omega (arith, ltb_false→le 0 listed.number none_left)) in
          returns (
            Cleared-refl x erased v.cities,
            λ i lo hi c e.
                let q : 0 ≡ c = pos-injective (sym (listed.empty zero_count i lo hi) ∙ e) in
                rw (← q) (find-zero m.city_pool),
          ))

  players_same : (m2 : ObjMgr) → AllGone m2 → m2.player_pool ≡ m.player_pool
  unfolding erase_uid_to_player_idx
  players_same m2 a = a.0.players

  module _ (m2 : ObjMgr) (a : AllGone m2) (players' : PoolCtrl Player)
      (t : Taken m.player_pool x players') where
    abbrev deleted : ObjMgr
    deleted = record m2 { player_pool = players' }

    users_same : m2.uid_to_player_idx_map ≡ users_now
    users_same = a.0.users

    still : (y : ℕ) → y ≢ x → Knows m.player_pool y → Knows players' y
    still y ne k = t.others y ne ∙ k

    city_kept :
        (c : ℕ)
        → (mem_at m.city_pool c).player_idx ≢ pos x
        → find m2.city_pool (pos c) ≡ find m.city_pool (pos c)
    unfolding erase_uid_to_player_idx
    city_kept c ne = a.0.kept c ne

    city_same : (c : ℕ) → mem_at m2.city_pool c ≡ mem_at m.city_pool c
    unfolding erase_uid_to_player_idx
    city_same c = a.0.memory c

    IsOwned-still : (y : ℕ) (z : ℤ) → y ≢ x → IsOwned m.city_pool y z → IsOwned m2.city_pool y z
    IsOwned-still y z ne (inl e) = inl e
    IsOwned-still y z ne (inr (c, at, k, own)) = inr (
      c,
      at,
      city_kept c (λ q. ne (pos-injective (sym own ∙ q))) ∙ k,
      ap (λ (w : City). w.player_idx) (city_same c) ∙ own,
    )

    deleted-IsSound : IsSound deleted
    deleted-IsSound = record {
      players = t.valid;
      cities = a.0.valid;
      bound = λ uid z e.
          let (e', ne) = users-some uid z (ap (λ (f : ℕ → Option ℤ). f uid) (sym users_same) ∙ e) in
          let (y, at, k, own) = v.bound uid z e' in
          (y, at, still y (λ q. ne (rw q at at)) k, ap (λ (w : Player). w.uid) (t.memory y) ∙ own);
      listed = λ y k.
          let ne = unknown players' x y t.now_free k in
          let old = v.listed y (sym (t.others y ne) ∙ k) in
          rw (t.memory y) (record {
            sized = old.sized;
            owned = λ i lo hi. IsOwned-still y _ ne (old.owned i lo hi);
            number = old.number;
            counted = old.counted;
            empty = old.empty;
          });
    }

    deleted-Deleted : Deleted m x deleted
    deleted-Deleted = record {
      absent = get_player-find deleted x ∙ t.now_free;
      others = λ j ne. get_player-find deleted j ∙ t.others j ne ∙ sym (get_player-find m j);
      memory = t.memory;
      unbound = λ uid e.
          (users-some uid (pos x) (ap (λ (f : ℕ → Option ℤ). f uid) (sym users_same) ∙ e)).1 refl;
      users = λ uid ne. ap (λ (f : ℕ → Option ℤ). f uid) users_same ∙ users-other uid ne;
      cities_gone = λ i c lo hi e. get_city-find deleted c ∙ a.1 i lo hi c e;
      cities_kept = λ c ne. get_city-find deleted c ∙ city_kept c ne ∙ sym (get_city-find m c);
      city_memory = city_same;
      sound = deleted-IsSound;
    }

-- DelPlayer of a player in use in a sound state: the player is gone, with the cities in the list and
-- the entry of the user in the map; every other player, the cities of other players and the other
-- entries stay, and the state is sound again.
pub del_player_correct :
    (m : ObjMgr) (x : ℕ)
    → IsSound m
    → get_player m (pos x) ≡ ok (some x)
    → Returns (Deleted m x) (del_player m (pos x))
unfolding del_player release_player get_player_idx
del_player_correct m x v h =
    let known : Knows m.player_pool x = sym (get_player-find m x) ∙ h in
    rw
      (
        h,
        read-mem_at m.player_pool x known,
        get_pos-Knows m.player_pool x known,
        load-ok (mem_at m.player_pool x).city_list 0
            (let l = v.listed x known in omega (arith, l.sized)),
      )
      (Returns-bind (cities-AllGone m v x known) λ m2 a. rw (players_same m v x known m2 a) (
        Returns-bind (release_correct m.player_pool x v.players known)
          λ q t. returns (deleted-Deleted m v x known m2 a q t)))
