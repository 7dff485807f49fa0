-- ===== src/Log/Buffer.antt =====
-- When a line of the log stays in its buffer.
use ryan_mqtt.Prelude.{
  not, ◌||◌, refl, List, [], arith, false, leb, length, length-append, take_all, true, ℕ, ◌+◌, ◌++◌,
  ◌<◌, ◌^◌, ◌≡◌, ◌⊎◌,
}
use ryan_mqtt.Log.{LogBuffer, empty_buffer, log_output, print, put}

record Holds (b : LogBuffer) (xs : List ℕ) : Type 0 where
  bytes : b.bytes ≡ xs
  len : b.len ≡ length xs

-- A text that fits behind the others.
put-Holds :
    (text : List ℕ) (b : LogBuffer) (xs : List ℕ)
    → Holds b xs
    → length (xs ++ text) < 256
    → Holds (put text b) (xs ++ text)
unfolding put
put-Holds text b xs h small =
    let n = length-append xs text in
    record {
      bytes = ground (arith, h.bytes, h.len, n, small, take_all xs, take_all text);
      len = omega (arith, h.len, n, small);
    }

print-Holds : (b : LogBuffer) (xs : List ℕ) → Holds b xs → (print b).1 ≡ xs
print-Holds b xs h = rw (h.bytes, h.len) (take_all xs)

-- Where a text goes that may be too long. A full buffer takes nothing, but what is put behind it goes
-- outside.
put_lem :
    (text : List ℕ) (b : LogBuffer)
    → b.len + length text < 2 ^ 16
    → ((put text b).len ≡ b.len + length text)
      × ((put text b).outside ≡ (b.outside || not (leb b.len 256)))
unfolding put
put_lem text b h = ground arith

module _ (place text end : List ℕ) where
  abbrev pub line_length : ℕ
  line_length = length place + length text + length end

  log_output-outside :
      line_length < 2 ^ 16 → (log_output place text end).0 ≡ not (leb line_length 256)
  unfolding log_output
  log_output-outside h =
      let b1 = put place empty_buffer in
      let b2 = put text b1 in
      let l1 = put_lem place empty_buffer (omega arith) in
      let l2 = put_lem text b1 (omega (arith, l1)) in
      ground (arith, l1, l2, put_lem end b2 (omega (arith, l1, l2)))

  log_output-fits : line_length < 256 → (log_output place text end).1 ≡ place ++ text ++ end
  unfolding log_output
  log_output-fits h =
      let n = length-append place text in
      let m = length-append (place ++ text) end in
      let first : Holds (put place empty_buffer) place =
        put-Holds place empty_buffer [] (record { bytes = refl; len = refl }) (omega arith) in
      let second = put-Holds text (put place empty_buffer) place first (omega (arith, n)) in
      print-Holds _ (place ++ text ++ end) (
        put-Holds end (put text (put place empty_buffer)) (place ++ text) second
          (omega (arith, n, m)))

  -- A line of the log that is shorter than 256 bytes, with its place and its end, is printed as it is,
  -- and no byte outside of the buffer of 256 bytes is touched. A longer one that is shorter than 2^16
  -- reads or writes behind the buffer, unless it has exactly 256 bytes.
  pub log_output_lem :
      line_length < 2 ^ 16
      → let (outside, printed) = log_output place text end in
        ((line_length < 256) × (outside ≡ false) × (printed ≡ place ++ text ++ end))
        ⊎ ((line_length ≡ 256) × (outside ≡ false))
        ⊎ ((256 < line_length) × (outside ≡ true))
  log_output_lem h = ground (arith, log_output-outside h, log_output-fits)
