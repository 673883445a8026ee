-- ===== src/Tests/Ratelimit.antt =====
-- The limiter at concrete inputs.
use enterprise_rag.Prelude.{◌≤◌, ◌+◌, ◌*◌, none, some, List, [], ◌∷◌, ◌≡◌, refl, arith, count_of}
use enterprise_rag.Prelude.Int.{ℤ}
use enterprise_rag.Ratelimit.{SortedSet, sliding_window}
use enterprise_rag.Ratelimit.Requests.{Attempt, admitted, in_window, InOrder}
use enterprise_rag.Ratelimit.Window.{admitted-quota, sliding_window-retry}

abbrev three_requests : List Attempt
three_requests =
    record { at = 1000; member = "a" }
    ∷ record { at = 1500; member = "b" }
    ∷ record { at = 9000; member = "c" }
    ∷ []

three_requests-InOrder : InOrder 0 three_requests
three_requests-InOrder =
    (omega arith, (refl, (refl, tt)), (omega arith, (refl, tt), (omega arith, tt, tt)))

admitted-quota_example :
    count_of
      (in_window 2000 1600)
      (admitted 2000 1 three_requests (record { entries = []; expires_at = none }))
    ≤ 1
admitted-quota_example = admitted-quota 2000 1 1600 three_requests three_requests-InOrder

abbrev full : SortedSet
full = record { entries = record { score = 500; member = "a" } ∷ []; expires_at = some 10500 }

turned_away : (sliding_window 10000 (ℤ.pos 1) "b" 1000 full).0.0 ≡ 0
unfolding sliding_window
turned_away = refl

sliding_window-retry_example :
    (sliding_window 10000
      (ℤ.pos 1)
      "c"
      (1000 + (sliding_window 10000 (ℤ.pos 1) "b" 1000 full).0.1 * 1000)
      (sliding_window 10000 (ℤ.pos 1) "b" 1000 full).1).0
    ≡ (1, 0)
sliding_window-retry_example =
    sliding_window-retry 10000 1 1000 "b" "c" full (omega arith) (omega arith) turned_away
