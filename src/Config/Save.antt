-- ===== src/Config/Save.antt =====
-- The checksum, the transfers between `_buffer` and flash, and `write_value`, of src/config.c.
-- The log lines and `k_msleep` are left out; `Pauses` has `write_value` with its sleep.
pub mod Put
pub mod Crc
pub mod Write
pub mod Update
pub mod Pauses
pub mod Interleaved
pub mod Begun
pub mod Malformed
use tdoa.Base.{
  ℕ, ◌+◌, ◌-◌, ◌%◌, ◌^◌, true, false, Option, some, List, leb, ◌==◌, if◌then◌else◌, ◌>>=◌, ℤ, pos,
  negsuc, neg, is_neg, is_zero, read_at, write_at, le_bytes, from_le, same_bytes, min,
}
use tdoa.Config.Platform.{Platform}
use tdoa.Config.State.{
  size_read, size_header, config_nvs_id, magic, offset_magic, ConfigField, State, tlv_length,
}
use tdoa.Config.Tlv.{find_field, no_room, insert_value, append_value}

module _ (p : Platform) where
  open p use {Flash, nvs_read, nvs_write, nvs_delete, crc32_ieee}

  -- `crc32_ieee` of the header and the area of values, a uint32_t
  unfoldable pub checksum : State Flash → ℕ → Option ℕ
  checksum s len = do
    bytes ← read_at s.buffer 0 (size_header + len)
    some (crc32_ieee bytes % 2 ^ 32)

  unfoldable pub write_crc : State Flash → Option (State Flash)
  write_crc s = do
    len ← tlv_length s
    sum ← checksum s len
    buffer ← write_at s.buffer (size_header + len) (le_bytes 4 sum)
    some (record s { buffer = buffer })

  unfoldable pub check_crc : State Flash → Option ℤ
  check_crc s = do
    len ← tlv_length s
    stored ← read_at s.buffer (size_header + len) 4
    sum ← checksum s len
    some (if from_le stored == sum then pos 0 else neg 1)

  unfoldable pub check_magic : State Flash → Option ℤ
  check_magic s = do
    found ← read_at s.buffer offset_magic 2
    some (if same_bytes found (le_bytes 2 magic) then pos 0 else neg 1)

  unfoldable pub check_data : State Flash → Option ℤ
  check_data s = do
    r ← check_magic s
    elim (is_zero r) [
      | false ↦ some (neg 1)
      | true ↦ do
        len ← tlv_length s
        elim (leb (size_read - size_header) len) [ true ↦ some (neg 2) | false ↦ check_crc s ]
    ]

  unfoldable pub read_buffer : State Flash → Option (ℤ × State Flash)
  read_buffer s = do
    let (r, bytes) = nvs_read s.fs s.flash config_nvs_id size_read
    buffer ← write_at s.buffer 0 bytes
    some (if is_neg r then r else pos 0, record s { buffer = buffer })

  -- `nvs_write` of the whole of `_buffer`
  unfoldable pub write_buffer : State Flash → ℤ × State Flash
  write_buffer s =
      let (r, flash') = nvs_write s.fs s.flash config_nvs_id s.buffer in
      (r, record s { flash = flash' })

  unfoldable pub put_value : State Flash → ConfigField → ℕ → List ℕ → Option (ℤ × State Flash)
  put_value s field size value = do
    found ← find_field s field
    elim found [
      | pos at ↦ insert_value s at field size value
      | negsuc _ ↦ append_value s field size value
    ]

  -- `write_value` after the value is in the buffer
  unfoldable pub save_value : State Flash → Option (ℤ × State Flash)
  save_value s = do
    s1 ← write_crc s
    let (written, s2) = write_buffer s1
    elim (is_neg written) [
      | true ↦ some (neg 3, s2)
      | false ↦ do (r, s3) ← read_buffer s2; some (if is_zero r then pos 0 else neg 4, s3)
    ]

  unfoldable pub write_value : State Flash → ConfigField → ℕ → List ℕ → Option (ℤ × State Flash)
  write_value s field size value = do
    len ← tlv_length s
    elim (no_room size len) [
      | true ↦ some (neg 1, s)
      | false ↦ do
        (inserted, s1) ← put_value s field size value
        elim (is_neg inserted) [ true ↦ some (neg 2, s1) | false ↦ save_value s1 ]
    ]

  unfoldable pub config_refresh : State Flash → Option (ℤ × State Flash)
  config_refresh s = do (r, s1) ← read_buffer s; some (if is_zero r then pos 0 else neg 1, s1)

  unfoldable pub config_erase : State Flash → ℤ × State Flash
  config_erase s =
      let (r, flash') = nvs_delete s.fs s.flash config_nvs_id in
      (if is_zero r then pos 0 else neg 1, record s { flash = flash' })

  -- The object `buffer` of `size` bytes before and after
  unfoldable pub config_buffer : State Flash → List ℕ → ℕ → Option (List ℕ)
  config_buffer s buffer size = do
    bytes ← read_at s.buffer 0 (min size size_read)
    write_at buffer 0 bytes
