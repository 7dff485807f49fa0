-- ===== src/Log.antt =====
-- common/RyanMqttLog.c: the lines of the log, which are put together in a buffer of 256 bytes.
pub mod Buffer
use ryan_mqtt.Prelude.{
  Bool, List, [], false, if◌then◌else◌, leb, length, not, take, true, ℕ, ◌%◌, ◌&&◌, ◌+◌, ◌++◌, ◌-◌,
  ◌==◌, ◌^◌, ◌||◌,
}

-- `dbgBuffer` up to the last byte written, `len`, and whether a byte behind the buffer was read or
-- written. From then on, `bytes` says no more what the buffer holds.
pub record LogBuffer : Type 0 where
  pub bytes : List ℕ
  pub len : ℕ
  pub outside : Bool

abbrev pub buffer_size : ℕ
buffer_size = 256

abbrev pub empty_buffer : LogBuffer
empty_buffer = record { bytes = []; len = 0; outside = false }

-- The bytes that `snprintf` puts into `size` bytes, before the zero byte.
abbrev pub fitting : ℕ → List ℕ → ℕ
fitting size text = if leb (length text) (size - 1) then length text else size - 1

-- `len += RyanMqttSnprintf(dbgBuffer + len, sizeof(dbgBuffer) - len, ...)`, where `text` is what the
-- format makes. The difference is a `size_t` of 64 bits, and `len` a `uint16_t`.
unfoldable pub put : List ℕ → LogBuffer → LogBuffer
put text b =
    let size = (buffer_size + 2 ^ 64 - b.len) % 2 ^ 64 in
    let n = fitting size text in
    record {
      bytes = if size == 0 then b.bytes else take b.len b.bytes ++ take n text;
      len = (b.len + length text) % 2 ^ 16;
      outside = b.outside || (not (size == 0) && leb buffer_size (b.len + n));
    }

-- `platformPrint(dbgBuffer, len)`
abbrev pub print : LogBuffer → Bool × List ℕ
print b = (b.outside || not (leb b.len buffer_size), take b.len b.bytes)

-- `RyanMqttLogOutPut` with the place, the user's text and the end that the formats make: whether it
-- left the buffer, and what it prints.
unfoldable pub log_output : (place text end : List ℕ) → Bool × List ℕ
unfolding put
log_output place text end = print (put end (put text (put place empty_buffer)))

-- `RyanMqttLogOutPutRaw`
unfoldable pub log_output_raw : List ℕ → Bool × List ℕ
unfolding put
log_output_raw text = print (put text empty_buffer)
