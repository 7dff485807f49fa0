-- ===== src/Tests/Log.antt =====
-- A line of the log.
use ryan_mqtt.Prelude.{[], arith, false, true, ◌<◌, ◌∷◌, ◌≡◌, ◌⊎◌}
use ryan_mqtt.Log.{log_output}
use ryan_mqtt.Log.Buffer.{line_length, log_output_lem}

log_output_lem_example :
    let (outside, printed) = log_output (91 ∷ 93 ∷ []) (104 ∷ []) (13 ∷ 10 ∷ []) in
    let n = line_length (91 ∷ 93 ∷ []) (104 ∷ []) (13 ∷ 10 ∷ []) in
    ((n < 256) × (outside ≡ false) × (printed ≡ 91 ∷ 93 ∷ 104 ∷ 13 ∷ 10 ∷ []))
    ⊎ ((n ≡ 256) × (outside ≡ false))
    ⊎ ((256 < n) × (outside ≡ true))
log_output_lem_example = log_output_lem (91 ∷ 93 ∷ []) (104 ∷ []) (13 ∷ 10 ∷ []) (omega arith)
