-- ===== src/Config/Api.antt =====
-- The typed accessors at the end of src/config.c. A `float` or a `double` is only copied, so it
-- is its bit pattern. An object of the caller stands before and after a read; an array is a list
-- of numbers. `sizeof(T) * length` is passed as a uint8_t, so it is taken modulo 256.
pub mod Laws
pub mod Order
pub mod Arrays
pub mod Bytes
pub mod Refused
use tdoa.Base.{
  ℕ, zero, suc, ◌*◌, ◌%◌, Option, some, List, [], ◌∷◌, ◌++◌, ◌>>=◌, ℤ, le_bytes, from_le, length,
  take, drop,
}
use tdoa.Config.Platform.{Platform}
use tdoa.Config.State.{ConfigField, State}
use tdoa.Config.Tlv.{read_value}
use tdoa.Config.Save.{write_value}

-- The elements of an array of `k`-byte numbers as bytes, and back.
unfoldable pub array_bytes : ℕ → List ℕ → List ℕ
array_bytes k [] = []
array_bytes k (x ∷ xs) = le_bytes k x ++ array_bytes k xs

-- The first `n` elements of an object.
unfoldable pub from_array_bytes : ℕ → ℕ → List ℕ → List ℕ
from_array_bytes k zero bytes = []
from_array_bytes k (suc n) bytes = from_le (take k bytes) ∷ from_array_bytes k n (drop k bytes)

module _ (p : Platform) where
  open p use {Flash}

  -- `read_value(field, k, value)`, where `*value` is a number of `k` bytes
  unfoldable pub read_number : State Flash → ConfigField → ℕ → ℕ → Option (ℤ × ℕ)
  read_number s field k value = do
    (r, bytes) ← read_value s field k (le_bytes k value)
    some (r, from_le bytes)

  unfoldable pub read_array : State Flash → ConfigField → ℕ → ℕ → List ℕ → Option (ℤ × List ℕ)
  read_array s field k count array = do
    (r, bytes) ← read_value s field (k * count % 256) (array_bytes k array)
    some (r, from_array_bytes k (length array) bytes)

  unfoldable pub write_number : State Flash → ConfigField → ℕ → ℕ → Option (ℤ × State Flash)
  write_number s field k value = write_value p s field k (le_bytes k value)

  unfoldable pub write_array : State Flash → ConfigField → ℕ → ℕ → List ℕ → Option (ℤ × State Flash)
  write_array s field k count array = write_value p s field (k * count % 256) (array_bytes k array)

  unfoldable pub config_read_u8 : State Flash → ConfigField → ℕ → Option (ℤ × ℕ)
  config_read_u8 s field value = read_number s field 1 value

  unfoldable pub config_read_u16 : State Flash → ConfigField → ℕ → Option (ℤ × ℕ)
  config_read_u16 s field value = read_number s field 2 value

  unfoldable pub config_read_u32 : State Flash → ConfigField → ℕ → Option (ℤ × ℕ)
  config_read_u32 s field value = read_number s field 4 value

  unfoldable pub config_read_u64 : State Flash → ConfigField → ℕ → Option (ℤ × ℕ)
  config_read_u64 s field value = read_number s field 8 value

  unfoldable pub config_read_float : State Flash → ConfigField → ℕ → Option (ℤ × ℕ)
  config_read_float s field value = read_number s field 4 value

  unfoldable pub config_read_double : State Flash → ConfigField → ℕ → Option (ℤ × ℕ)
  config_read_double s field value = read_number s field 8 value

  unfoldable pub config_write_u8 : State Flash → ConfigField → ℕ → Option (ℤ × State Flash)
  config_write_u8 s field value = write_number s field 1 value

  unfoldable pub config_write_u16 : State Flash → ConfigField → ℕ → Option (ℤ × State Flash)
  config_write_u16 s field value = write_number s field 2 value

  unfoldable pub config_write_u32 : State Flash → ConfigField → ℕ → Option (ℤ × State Flash)
  config_write_u32 s field value = write_number s field 4 value

  unfoldable pub config_write_u64 : State Flash → ConfigField → ℕ → Option (ℤ × State Flash)
  config_write_u64 s field value = write_number s field 8 value

  unfoldable pub config_write_float : State Flash → ConfigField → ℕ → Option (ℤ × State Flash)
  config_write_float s field value = write_number s field 4 value

  unfoldable pub config_write_double : State Flash → ConfigField → ℕ → Option (ℤ × State Flash)
  config_write_double s field value = write_number s field 8 value

  unfoldable pub config_read_u8_array : State Flash → ConfigField → ℕ → List ℕ → Option (ℤ × List ℕ)
  config_read_u8_array s field count array = read_array s field 1 count array

  unfoldable pub config_read_u16_array :
      State Flash → ConfigField → ℕ → List ℕ → Option (ℤ × List ℕ)
  config_read_u16_array s field count array = read_array s field 2 count array

  unfoldable pub config_read_u32_array :
      State Flash → ConfigField → ℕ → List ℕ → Option (ℤ × List ℕ)
  config_read_u32_array s field count array = read_array s field 4 count array

  unfoldable pub config_read_u64_array :
      State Flash → ConfigField → ℕ → List ℕ → Option (ℤ × List ℕ)
  config_read_u64_array s field count array = read_array s field 8 count array

  unfoldable pub config_read_float_array :
      State Flash → ConfigField → ℕ → List ℕ → Option (ℤ × List ℕ)
  config_read_float_array s field count array = read_array s field 4 count array

  unfoldable pub config_read_double_array :
      State Flash → ConfigField → ℕ → List ℕ → Option (ℤ × List ℕ)
  config_read_double_array s field count array = read_array s field 8 count array

  unfoldable pub config_write_u8_array :
      State Flash → ConfigField → ℕ → List ℕ → Option (ℤ × State Flash)
  config_write_u8_array s field count array = write_array s field 1 count array

  unfoldable pub config_write_u16_array :
      State Flash → ConfigField → ℕ → List ℕ → Option (ℤ × State Flash)
  config_write_u16_array s field count array = write_array s field 2 count array

  unfoldable pub config_write_u32_array :
      State Flash → ConfigField → ℕ → List ℕ → Option (ℤ × State Flash)
  config_write_u32_array s field count array = write_array s field 4 count array

  unfoldable pub config_write_u64_array :
      State Flash → ConfigField → ℕ → List ℕ → Option (ℤ × State Flash)
  config_write_u64_array s field count array = write_array s field 8 count array

  unfoldable pub config_write_float_array :
      State Flash → ConfigField → ℕ → List ℕ → Option (ℤ × State Flash)
  config_write_float_array s field count array = write_array s field 4 count array

  unfoldable pub config_write_double_array :
      State Flash → ConfigField → ℕ → List ℕ → Option (ℤ × State Flash)
  config_write_double_array s field count array = write_array s field 8 count array
