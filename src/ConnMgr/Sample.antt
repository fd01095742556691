-- ===== src/ConnMgr/Sample.antt =====
-- One connection in a pool of three, for examples.
use play_frame.Common.{◌≡◌, refl, some, none, [], ◌∷◌, Bool-cases, inl, inr}
use play_frame.Common.Int.{pos, ◌==ℤ◌, ==ℤ→eq}
use play_frame.Common.Array.{load}
use play_frame.ShmPool.{find}
use play_frame.ShmPool.Sample.{pool_with, pool_with-IsValid}
use play_frame.ShmPool.Memory.{Knows}
use play_frame.Connection.{Connection, blank_connection}
use play_frame.ConnMgr.{ConnMgr, get_conn}
use play_frame.ConnMgr.Invariant.{IsSound}

abbrev pub client : Connection
client = record blank_connection { conn_fd = pos 7 }

abbrev pub clients : ConnMgr
clients = record { conn_pool = pool_with client; conn_map = (pos 7, 2) ∷ [] }

pub Knows-client : Knows (pool_with client) 2
unfolding find load
Knows-client = refl

pub get_conn-client : get_conn clients (pos 7) ≡ some 2
unfolding get_conn
get_conn-client = refl

pub clients-IsSound : IsSound clients
unfolding get_conn
clients-IsSound = record {
  valid = pool_with-IsValid client;
  known = λ fd x e. elim (Bool-cases (pos 7 ==ℤ fd)) [
    | inl t ↦ let q : some 2 ≡ some x = rw t at e in let r : x ≡ 2 = cc in rw r Knows-client
    | inr f ↦ let q : none ≡ some x = rw f at e in absurd (cc)
  ];
  named = λ fd x e. elim (Bool-cases (pos 7 ==ℤ fd)) [
    | inl t ↦ ==ℤ→eq (pos 7) fd t
    | inr f ↦ let q : none ≡ some x = rw f at e in absurd (cc)
  ];
  keyed = (refl, tt);
  counted = refl;
}
