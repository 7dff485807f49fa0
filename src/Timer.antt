-- ===== src/Timer.antt =====
-- mqttclient/RyanMqttUtil.c, lines 301 to 352: count-down timers on a 32-bit millisecond clock.
pub mod Remain
use ryan_mqtt.Prelude.{ℕ, ◌+◌, ◌-◌, ◌%◌, ◌^◌, leb, if◌then◌else◌}
use ryan_mqtt.Client.{Timer}
use ryan_mqtt.Platform.{Env}
use ryan_mqtt.World.{World, M}

abbrev pub timer_init : Timer
timer_init = record { time = 0; time_out = 0 }

-- `RyanMqttTimerCutdown`: the timer that starts now.
unfoldable pub timer_cutdown : Env → ℕ → M Timer
timer_cutdown env timeout w =
    (record { time = env.uptime_ms w.tick; time_out = timeout }, record w { tick = w.tick + 1 })

-- `RyanMqttTimerGetConfigTimeout`
abbrev pub timer_get_config_timeout : Timer → ℕ
timer_get_config_timeout t = t.time_out

-- `uint32_t` subtraction.
unfoldable pub sub32 : ℕ → ℕ → ℕ
sub32 a b = (a + 2 ^ 32 - b) % 2 ^ 32

-- What is left on a timer when the clock shows `now`.
unfoldable pub remain_at : ℕ → Timer → ℕ
unfolding sub32
remain_at now t =
    let elapsed = sub32 now t.time in if leb t.time_out elapsed then 0 else t.time_out - elapsed

-- `RyanMqttTimerRemain`
unfoldable pub timer_remain : Env → Timer → M ℕ
unfolding remain_at
timer_remain env t w = (remain_at (env.uptime_ms w.tick) t, record w { tick = w.tick + 1 })
