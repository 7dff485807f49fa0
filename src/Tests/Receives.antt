-- ===== src/Tests/Receives.antt =====
-- A run of the receiving loop.
use ryan_mqtt.Prelude.{List, [], arith, refl, false, length, suc, take, zero, ℕ, ◌∷◌, ◌≡◌, ◌≤◌}
use ryan_mqtt.Timer.{remain_at, sub32, timer_cutdown}
use ryan_mqtt.Network.{receives_on, recv_time, start_receiving}
use ryan_mqtt.Network.Receives.{DeliversAtMost, start_receiving_ends}
use ryan_mqtt.Tests.{small_env, small_world}

take_at_most : (n : ℕ) (xs : List ℕ) → length (take n xs) ≤ n
take_at_most zero xs = omega arith
take_at_most (suc n) [] = omega arith
take_at_most (suc n) (x ∷ xs) = omega (arith, take_at_most n xs)

small-DeliversAtMost : DeliversAtMost small_env
small-DeliversAtMost k len timeout xs e = ground (arith, e, take_at_most len (0 ∷ 0 ∷ 0 ∷ []))

start_receiving_ends_example :
    let p = (start_receiving small_env 4 small_world).0 in
    (receives_on 4 p ≡ false) × (length p.got ≤ 4)
unfolding timer_cutdown recv_time remain_at sub32
start_receiving_ends_example =
    start_receiving_ends small_env 4 small_world 10 small-DeliversAtMost (omega arith) refl
