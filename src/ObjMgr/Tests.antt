-- ===== src/ObjMgr/Tests.antt =====
-- One player with one city, and the theorems applied to them.
use play_frame.Common.{◌≡◌, refl, ◌⊎◌, none, some, arith}
use play_frame.Common.Int.{pos}
use play_frame.Common.Run.{ok, Returns}
use play_frame.Common.Array.{load}
use play_frame.ShmPool.Sample.{pool_with-IsValid}
use play_frame.ShmPool.{find}
use play_frame.ObjMgr.{ObjMgr, del_player, add_city, get_player}
use play_frame.ObjMgr.Invariant.{IsSound}
use play_frame.ObjMgr.Delete.{Deleted, del_player_correct}
use play_frame.ObjMgr.Cities.{CityAdded}
use play_frame.ObjMgr.AddCity.{IsRefused, add_city_correct}
use play_frame.ObjMgr.Sample.{someone, town, world, someone-IsListed, world-IsSound, get_someone}

del_player_correct_example : Returns (Deleted world 2) (del_player world (pos 2))
del_player_correct_example = del_player_correct world 2 world-IsSound get_someone

add_city_correct_example :
    Returns (λ r. CityAdded world 2 r ⊎ IsRefused world 2 r) (add_city world (pos 2))
add_city_correct_example =
    add_city_correct world 2 1 world-IsSound get_someone refl (omega arith) (omega arith)

-- The same player, whom no user is mapped to yet.
abbrev unnamed : ObjMgr
unnamed = record world { uid_to_player_idx_map = λ uid. none }

unnamed-IsSound : IsSound unnamed
unnamed-IsSound = record {
  players = pool_with-IsValid someone;
  cities = pool_with-IsValid town;
  bound = λ uid z e. absurd (cc);
  listed = someone-IsListed;
}

get_unnamed : get_player unnamed (pos 2) ≡ ok (some 2)
unfolding get_player find load
get_unnamed = refl
