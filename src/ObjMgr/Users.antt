-- ===== src/ObjMgr/Users.antt =====
-- Player::set_uid enters the user into the map, where no other player has.
use play_frame.Common.{ℕ, ◌≡◌, ◌≢◌, refl, sym, ◌∙◌, ap, inl, inr, some, eq_cases, ==_iff, ne→==}
use play_frame.Common.Int.{ℤ, pos}
use play_frame.Common.Run.{ok, Returns, returns}
use play_frame.ShmPool.{PoolCtrl}
use play_frame.ShmPool.Invariant.{IsValid}
use play_frame.ShmPool.Memory.{
  mem_at, Knows, written, read-mem_at, write-written, get_pos-Knows, written-IsValid, find-written,
  mem_at-written_self, mem_at-written_other,
}
use play_frame.ObjMgr.{
  Player, ObjMgr, insert_new, bind_uid_to_player_idx, set_uid, get_player, get_player_idx,
}
use play_frame.ObjMgr.Invariant.{IsListed, IsBound, IsSound, get_player-find}
use play_frame.ObjMgr.Restore.{insert_new-some}

-- The player `x` has the user's id, and the user an entry in the map: an earlier one, or `x`.
pub record Named (m : ObjMgr) (x uid : ℕ) (m' : ObjMgr) : Type 0 where
  pub named : (mem_at m'.player_pool x).uid ≡ uid
  pub entry : m'.uid_to_player_idx_map uid ≡ insert_new (m.uid_to_player_idx_map uid) (pos x)
  pub users : (u : ℕ) → u ≢ uid → m'.uid_to_player_idx_map u ≡ m.uid_to_player_idx_map u
  pub players : (j : ℕ) → get_player m' (pos j) ≡ get_player m (pos j)
  pub memory : (j : ℕ) → j ≢ x → mem_at m'.player_pool j ≡ mem_at m.player_pool j
  pub cities : m'.city_pool ≡ m.city_pool
  pub sound : IsSound m'

module _ (m : ObjMgr) (x uid : ℕ) (v : IsSound m) (known : Knows m.player_pool x)
    (fresh : (u : ℕ) → m.uid_to_player_idx_map u ≢ some (pos x)) where
  abbrev p' : Player
  p' = record (mem_at m.player_pool x) { uid = uid }

  abbrev pool : PoolCtrl Player
  pool = written m.player_pool x p'

  abbrev m' : ObjMgr
  m' = record (bind_uid_to_player_idx m uid (pos x)) { player_pool = pool }

  content : mem_at pool x ≡ p'
  content = mem_at-written_self m.player_pool x p'

  memory : (j : ℕ) → j ≢ x → mem_at pool j ≡ mem_at m.player_pool j
  memory j ne = mem_at-written_other m.player_pool x p' j (λ q. ne (sym q))

  find_same : (j : ℕ) → get_player m' (pos j) ≡ get_player m (pos j)
  find_same j = get_player-find m' j ∙ find-written m.player_pool x p' j ∙ sym (get_player-find m j)

  entry : m'.uid_to_player_idx_map uid ≡ insert_new (m.uid_to_player_idx_map uid) (pos x)
  unfolding bind_uid_to_player_idx
  entry = rw ((==_iff uid uid).1 refl)

  others : (u : ℕ) → u ≢ uid → m'.uid_to_player_idx_map u ≡ m.uid_to_player_idx_map u
  unfolding bind_uid_to_player_idx
  others u ne = rw (ne→== uid u (λ q. ne (sym q)))

  -- An older entry is of another player.
  old-IsBound : (u : ℕ) (z : ℤ) → m.uid_to_player_idx_map u ≡ some z → IsBound pool u z
  old-IsBound u z e =
      let (y, at, k, own) = v.bound u z e in
      let ne : y ≢ x = λ q. fresh u (e ∙ ap some at ∙ ap (λ i. some (pos i)) q) in
      (y, at, find-written m.player_pool x p' y ∙ k, ap (λ (w : Player). w.uid) (memory y ne) ∙ own)

  bound : (u : ℕ) (z : ℤ) → m'.uid_to_player_idx_map u ≡ some z → IsBound pool u z
  bound u z e = elim (eq_cases u uid) [
    | inl q ↦
        let e' : insert_new (m.uid_to_player_idx_map uid) (pos x) ≡ some z =
          sym entry ∙ ap (λ i. m'.uid_to_player_idx_map i) (sym q) ∙ e in
        elim (insert_new-some (m.uid_to_player_idx_map uid) (pos x) z e') [
          | inl old ↦ rw q (old-IsBound uid z old)
          | inr at ↦ (
            x,
            sym at,
            find-written m.player_pool x p' x ∙ known,
            ap (λ (w : Player). w.uid) content ∙ sym q,
          )
        ]
    | inr ne ↦ old-IsBound u z (sym (others u ne) ∙ e)
  ]

  cities_same : m'.city_pool ≡ m.city_pool
  unfolding bind_uid_to_player_idx
  cities_same = refl

  cities-IsValid : IsValid m'.city_pool
  unfolding bind_uid_to_player_idx
  cities-IsValid = v.cities

  IsListed-same :
      (y : ℕ) → Knows m.player_pool y → IsListed m'.city_pool y (mem_at m.player_pool y).city_list
  unfolding bind_uid_to_player_idx
  IsListed-same y k = v.listed y k

  renamed-Named : Named m x uid m'
  renamed-Named = record {
    named = ap (λ (w : Player). w.uid) content;
    entry = entry;
    users = others;
    players = find_same;
    memory = memory;
    cities = cities_same;
    sound = record {
      players = written-IsValid m.player_pool x p' v.players;
      cities = cities-IsValid;
      bound = bound;
      listed = λ y k. elim (eq_cases y x) [
        | inl q ↦ rw (q, content) (IsListed-same x known)
        | inr ne ↦ rw (memory y ne) (IsListed-same y (sym (find-written m.player_pool x p' y) ∙ k))
      ];
    };
  }

-- set_uid of a player in use in a sound state, to whom no user is mapped, gives the player the id,
-- enters the user into the map unless it is there already, changes nothing else, and the state is
-- sound again.
pub set_uid-Named :
    (m : ObjMgr) (x uid : ℕ)
    → IsSound m
    → get_player m (pos x) ≡ ok (some x)
    → ((u : ℕ) → m.uid_to_player_idx_map u ≢ some (pos x))
    → Returns (Named m x uid) (set_uid m x uid)
unfolding set_uid get_player_idx bind_uid_to_player_idx
set_uid-Named m x uid v h fresh =
    let known : Knows m.player_pool x = sym (get_player-find m x) ∙ h in
    rw (get_pos-Knows m.player_pool x known, read-mem_at m.player_pool x known)
      (rw (write-written m.player_pool x (record (mem_at m.player_pool x) { uid = uid }) known)
        (returns (renamed-Named m x uid v known fresh)))
