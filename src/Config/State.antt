-- ===== src/Config/State.antt =====
-- The static data of src/config.c, its constants, and the accesses to it. `none` is an access
-- outside `_buffer`, or through `tlv.data` before `config_init` has set it.
use tdoa.Base.{
  ℕ, ◌+◌, ◌-◌, Option, none, some, List, ◌>>=◌, get_elem?, read_at, write_at, le_bytes, from_le,
  replicate,
}
use tdoa.Config.Platform.{NvsFs}

-- CONFIG_SIZE_BUFFER, which is SIZE_READ
abbrev pub size_read : ℕ
size_read = 128

abbrev pub size_header : ℕ
size_header = 6

abbrev pub size_tail : ℕ
size_tail = 4

abbrev pub size_tlv_max : ℕ
size_tlv_max = size_read - size_header - size_tail

abbrev pub config_nvs_id : ℕ
config_nvs_id = 0

abbrev pub magic : ℕ
magic = 0xBEEF

abbrev pub version_major : ℕ
version_major = 1

abbrev pub version_minor : ℕ
version_minor = 0

abbrev pub offset_magic : ℕ
offset_magic = 0

abbrev pub offset_major_version : ℕ
offset_major_version = 2

abbrev pub offset_minor_version : ℕ
offset_minor_version = 3

-- The place of `tlv_length` in the packed `config_header_t`.
abbrev pub offset_tlv_length : ℕ
offset_tlv_length = 4

pub data ConfigField : Type 0 where
  mode address anchor_x_pos_mm anchor_y_pos_mm max : ConfigField

unfoldable pub field_code : ConfigField → ℕ
field_code mode = 0
field_code address = 1
field_code anchor_x_pos_mm = 2
field_code anchor_y_pos_mm = 3
field_code max = 4

-- `tlv` is the offset in `_buffer` that `tlv.data` points to, none while it is null.
pub record State (Flash : Type 0) : Type 0 where
  pub buffer : List ℕ
  pub tlv : Option ℕ
  pub fs : NvsFs
  pub flash : Flash

module _ {Flash : Type 0} where
  -- The static data as the program starts, over a device.
  unfoldable pub boot : Flash → State Flash
  boot flash = record {
    buffer = replicate size_read 0;
    tlv = none;
    fs = record { offset = 0; sector_size = 0; sector_count = 0 };
    flash = flash;
  }

  -- `header->tlv_length`, a uint16_t
  unfoldable pub tlv_length : State Flash → Option ℕ
  tlv_length s = do bytes ← read_at s.buffer offset_tlv_length 2; some (from_le bytes)

  unfoldable pub set_tlv_length : State Flash → ℕ → Option (State Flash)
  set_tlv_length s n = do
    buffer ← write_at s.buffer offset_tlv_length (le_bytes 2 n)
    some (record s { buffer = buffer })

  -- `tlv.data[i]`
  unfoldable pub tlv_byte : State Flash → ℕ → Option ℕ
  tlv_byte s i = do base ← s.tlv; get_elem? s.buffer (base + i)

  -- The `n` bytes at `&tlv.data[i]`
  unfoldable pub tlv_read : State Flash → ℕ → ℕ → Option (List ℕ)
  tlv_read s i n = do base ← s.tlv; read_at s.buffer (base + i) n

  unfoldable pub tlv_write : State Flash → ℕ → List ℕ → Option (State Flash)
  tlv_write s i bytes = do
    base ← s.tlv
    buffer ← write_at s.buffer (base + i) bytes
    some (record s { buffer = buffer })
