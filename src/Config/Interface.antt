-- ===== src/Config/Interface.antt =====
-- include/config.h: what the configuration store offers to the other parts of the program, as a
-- record of its operations, and src/config.c as one.
pub mod View
use tdoa.Base.{ℕ, Option, List, ℤ}
use tdoa.Config.Platform.{Platform}
use tdoa.Config.State.{ConfigField, State}
use tdoa.Config.Tlv.{config_field_size}
use tdoa.Config.Save.{config_refresh, config_erase, config_buffer}
use tdoa.Config.Init.{config_init}
use tdoa.Config.Api.{
  config_read_u8, config_read_u16, config_read_u32, config_read_u64, config_read_float,
  config_read_double, config_write_u8, config_write_u16, config_write_u32, config_write_u64,
  config_write_float, config_write_double, config_read_u8_array, config_read_u16_array,
  config_read_u32_array, config_read_u64_array, config_read_float_array, config_read_double_array,
  config_write_u8_array, config_write_u16_array, config_write_u32_array, config_write_u64_array,
  config_write_float_array, config_write_double_array,
}

-- The types that have accessors.
pub data NumberType : Type 0 where
  u8 u16 u32 u64 float double : NumberType

-- `sizeof`
unfoldable pub width : NumberType → ℕ
width u8 = 1
width u16 = 2
width u32 = 4
width u64 = 8
width float = 4
width double = 8

-- The prototypes, over a state of the store. An object of the caller stands before and after.
pub record ConfigApi (Store : Type 0) : Type 0 where
  pub init : List ℕ → Store → Option (ℤ × Store)
  pub erase : Store → ℤ × Store
  pub refresh : Store → Option (ℤ × Store)
  pub buffer : Store → List ℕ → ℕ → Option (List ℕ)
  pub field_size : Store → ConfigField → ℕ → Option (ℤ × ℕ)
  pub read : NumberType → Store → ConfigField → ℕ → Option (ℤ × ℕ)
  pub write : NumberType → Store → ConfigField → ℕ → Option (ℤ × Store)
  pub read_array : NumberType → Store → ConfigField → ℕ → List ℕ → Option (ℤ × List ℕ)
  pub write_array : NumberType → Store → ConfigField → ℕ → List ℕ → Option (ℤ × Store)

module _ (p : Platform) where
  unfoldable pub read_of : NumberType → State p.Flash → ConfigField → ℕ → Option (ℤ × ℕ)
  read_of u8 = config_read_u8 p
  read_of u16 = config_read_u16 p
  read_of u32 = config_read_u32 p
  read_of u64 = config_read_u64 p
  read_of float = config_read_float p
  read_of double = config_read_double p

  unfoldable pub write_of :
      NumberType → State p.Flash → ConfigField → ℕ → Option (ℤ × State p.Flash)
  write_of u8 = config_write_u8 p
  write_of u16 = config_write_u16 p
  write_of u32 = config_write_u32 p
  write_of u64 = config_write_u64 p
  write_of float = config_write_float p
  write_of double = config_write_double p

  unfoldable pub read_array_of :
      NumberType → State p.Flash → ConfigField → ℕ → List ℕ → Option (ℤ × List ℕ)
  read_array_of u8 = config_read_u8_array p
  read_array_of u16 = config_read_u16_array p
  read_array_of u32 = config_read_u32_array p
  read_array_of u64 = config_read_u64_array p
  read_array_of float = config_read_float_array p
  read_array_of double = config_read_double_array p

  unfoldable pub write_array_of :
      NumberType → State p.Flash → ConfigField → ℕ → List ℕ → Option (ℤ × State p.Flash)
  write_array_of u8 = config_write_u8_array p
  write_array_of u16 = config_write_u16_array p
  write_array_of u32 = config_write_u32_array p
  write_array_of u64 = config_write_u64_array p
  write_array_of float = config_write_float_array p
  write_array_of double = config_write_double_array p

  -- The operations of src/config.c
  abbrev pub config_api : ConfigApi (State p.Flash)
  config_api = record {
    init = config_init p;
    erase = config_erase p;
    refresh = config_refresh p;
    buffer = config_buffer p;
    field_size = λ s. config_field_size s;
    read = read_of;
    write = write_of;
    read_array = read_array_of;
    write_array = write_array_of;
  }
