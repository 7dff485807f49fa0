-- ===== src/Timer/Remain.antt =====
-- The count-down timers against real time, which does not wrap.
use ryan_mqtt.Prelude.{ℕ, ◌+◌, ◌-◌, ◌%◌, ◌^◌, ◌≤◌, ◌<◌, ◌≡◌, arith}
use ryan_mqtt.Client.{Timer}
use ryan_mqtt.Timer.{remain_at, sub32}

sub32-mod :
    (start passed : ℕ)
    → passed < 2 ^ 32
    → sub32 ((start + passed) % 2 ^ 32) (start % 2 ^ 32) ≡ passed
unfolding sub32
sub32-mod start passed h = omega arith

-- A timer that was started for `timeout` ms at the true time `start`, on a clock that shows the
-- true time modulo 2^32, has after `passed` ms (fewer than 2^32) exactly `timeout` less `passed`
-- left, 0 once that much has passed, also where the clock wrapped in between.
pub remain_at-wrap :
    (start passed timeout : ℕ)
    → passed < 2 ^ 32
    → remain_at ((start + passed) % 2 ^ 32) (record { time = start % 2 ^ 32; time_out = timeout })
      ≡ timeout - passed
unfolding remain_at
remain_at-wrap start passed timeout h = ground (arith, sub32-mod start passed)

-- Nothing more than the configured time is ever left.
pub remain_at-le : (now : ℕ) (t : Timer) → remain_at now t ≤ t.time_out
unfolding remain_at
remain_at-le now t = ground arith
