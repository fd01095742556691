-- ===== src/ConnCache/Tests.antt =====
-- A cache of two bytes that a package fills.
use play_frame.Common.{ℕ, ◌≡◌, refl, [], ◌∷◌, arith, ◌==◌, if◌then◌else◌, true}
use play_frame.Common.Run.{ok, Returns}
use play_frame.Common.Array.{Array}
use play_frame.ConnCache.{
  ConnCache, add_recv_data, is_recv_proto_ready, get_recv_proto_len, skip_recv_proto,
}
use play_frame.ConnCache.Growth.{IsValid, received, unsent, add_recv_data-received}
use play_frame.ConnCache.Proto.{skip_recv_proto-received}

-- 0, 3, 0, 0 and so on.
abbrev three : Array ℕ
three = record { size = 6; at = λ i. if i == 1 then 3 else 0 }

abbrev cache : ConnCache
cache = record {
  send_buf = record { size = 0; at = λ i. 0 };
  send_buf_size = 0;
  recv_buf = record { size = 2; at = λ i. 9 };
  recv_buf_size = 1;
}

cache-IsValid : IsValid cache
cache-IsValid = record { send_fits = omega arith; recv_fits = omega arith }

add_recv_data-received_example :
    Returns
      (λ d. IsValid d × (received d ≡ 9 ∷ 0 ∷ 3 ∷ 0 ∷ 0 ∷ []) × (unsent d ≡ []))
      (add_recv_data (λ i. 7) cache three 4)
add_recv_data-received_example =
    add_recv_data-received (λ i. 7) cache three 4 cache-IsValid (omega arith)

-- A package of one byte, and two bytes of the next one.
abbrev full_cache : ConnCache
full_cache = record cache { recv_buf = three; recv_buf_size = 5 }

full_cache-IsValid : IsValid full_cache
full_cache-IsValid = record { send_fits = omega arith; recv_fits = omega arith }

skip_recv_proto-received_example :
    (is_recv_proto_ready full_cache ≡ ok true)
    × (get_recv_proto_len full_cache ≡ ok 3)
    × Returns
        (λ d. IsValid d × (received d ≡ 0 ∷ 0 ∷ []) × (unsent d ≡ []))
        (skip_recv_proto full_cache)
skip_recv_proto-received_example =
    skip_recv_proto-received full_cache (0 ∷ []) (0 ∷ 0 ∷ []) full_cache-IsValid (omega arith)
      (omega arith) refl
