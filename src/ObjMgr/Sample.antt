-- ===== src/ObjMgr/Sample.antt =====
-- A player with a city, in pools of units in use, for the tests.
use play_frame.Common.{
  ℕ, ◌≡◌, refl, inl, inr, none, some, arith, ◌==◌, if◌then◌else◌, Bool-cases, ==_iff, eq_cases,
}
use play_frame.Common.Int.{pos}
use play_frame.Common.Run.{ok}
use play_frame.Common.Array.{load}
use play_frame.ShmPool.Sample.{pool_with, pool_with-IsValid, pool_with-Knows}
use play_frame.ShmPool.{find}
use play_frame.ShmPool.Memory.{Knows}
use play_frame.ObjMgr.{Player, City, ObjMgr, blank_player, get_player}
use play_frame.ObjMgr.Invariant.{IsListed, IsSound}

abbrev pub someone : Player
someone = record blank_player {
  uid = 77;
  city_list = record {
    size = 101;
    at = λ i. if i == 0 then pos 1 else if i == 1 then pos 2 else pos 0;
  };
}

abbrev pub town : City
town = record { player_idx = pos 2; population = pos 500 }

abbrev pub world : ObjMgr
world = record {
  uid_to_player_idx_map = λ uid. if 77 == uid then some (pos 2) else none;
  player_pool = pool_with someone;
  city_pool = pool_with town;
}

pub Knows-player : Knows (pool_with someone) 2
unfolding find load
Knows-player = refl

pub Knows-town : Knows (pool_with town) 2
unfolding find load
Knows-town = refl

pub someone-IsListed :
    (x : ℕ) → Knows (pool_with someone) x → IsListed (pool_with town) x someone.city_list
someone-IsListed x k =
    let e = pool_with-Knows someone x k in
    record {
      sized = refl;
      owned = λ i lo hi. elim (eq_cases i 1) [
        | inl q ↦ rw (q, e) (inr (2, refl, Knows-town, refl))
        | inr ne ↦ inl (ground arith)
      ];
      number = 1;
      counted = refl;
      empty = λ q i lo hi. absurd (omega arith);
    }

pub world-IsSound : IsSound world
world-IsSound = record {
  players = pool_with-IsValid someone;
  cities = pool_with-IsValid town;
  bound = λ uid z e. elim (Bool-cases (77 == uid)) [
    | inl t ↦
        let q : some (pos 2) ≡ some z = rw t at e in (2, cc, Knows-player, (==_iff 77 uid).0 t)
    | inr f ↦ let q : none ≡ some z = rw f at e in absurd (cc)
  ];
  listed = someone-IsListed;
}

pub get_someone : get_player world (pos 2) ≡ ok (some 2)
unfolding get_player find load
get_someone = refl
