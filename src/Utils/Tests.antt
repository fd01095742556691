-- ===== src/Utils/Tests.antt =====
-- An account name, a password and a buffer.
use play_frame.Common.{◌+◌, ◌==◌, if◌then◌else◌, arith, ℕ, ◌≡◌}
use play_frame.Common.Int.{ℤ, pos}
use play_frame.Common.Run.{Returns, ok}
use play_frame.Utils.Hash.{bytes_from, fnv_1a, fnv64a_hash-fnv_1a}
use play_frame.Common.Array.{Array}
use play_frame.Utils.{check_account, fnv64a_hash}
use play_frame.Utils.Checks.{AccountVerdict, check_account_correct}

-- "pppppp_" with its end: the seventh character is not accepted.
abbrev player : Array ℤ
player = record { size = 8; at = λ i. if i == 6 then pos 95 else if i == 7 then pos 0 else pos 112 }

check_account_correct_example : Returns (AccountVerdict player 7) (check_account player (pos 7))
check_account_correct_example = check_account_correct player 7 (omega arith)

abbrev foo : Array ℕ
foo = record { size = 4; at = λ i. 100 + i }

fnv64a_hash-fnv_1a_example : fnv64a_hash foo 3 ≡ ok (fnv_1a (bytes_from foo 3 0))
fnv64a_hash-fnv_1a_example = fnv64a_hash-fnv_1a foo 3 (omega arith)
