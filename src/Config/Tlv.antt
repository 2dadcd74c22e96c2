-- ===== src/Config/Tlv.antt =====
-- The tagged values in the buffer: `find_field`, `config_field_size`, `read_value`,
-- `insert_value` and `append_value` of src/config.c. A value's object is a list of bytes.
pub mod Store
pub mod Encoded
pub mod Find
pub mod Located
pub mod Read
pub mod Entry
pub mod Append
pub mod Steps
pub mod Ready
pub mod Shift
pub mod Insert
pub mod Total
use tdoa.Base.{
  ℕ, zero, suc, ◌+◌, ◌-◌, ◌%◌, ◌^◌, Bool, true, false, ◌&&◌, Option, none, some, List, [], ◌∷◌, ltb,
  leb, ◌==◌, if◌then◌else◌, ◌>>=◌, ℤ, pos, negsuc, neg, read_at, write_at, same_bytes,
}
use tdoa.Config.State.{
  size_tlv_max, ConfigField, field_code, State, tlv_length, set_tlv_length, tlv_byte, tlv_read,
  tlv_write,
}

module _ {Flash : Type 0} (s : State Flash) where
  -- The loop of `find_field` over an area of `len` bytes, from `at` on, for `fuel` rounds.
  unfoldable pub find_from : ℕ → ℕ → ℕ → ℕ → Option ℤ
  find_from len tag zero at = none
  find_from len tag (suc fuel) at = elim (ltb at len) [
    | false ↦ some (neg 1)
    | true ↦ do
      byte ← tlv_byte s at
      elim (byte == tag) [
        | true ↦ some (pos at)
        | false ↦ do size ← tlv_byte s (at + 1); find_from len tag fuel (at + (size + 2))
      ]
  ]

  -- Every round moves on by two bytes or more, so the length of the area is fuel enough.
  unfoldable pub find_field : ConfigField → Option ℤ
  find_field field = do len ← tlv_length s; find_from len (field_code field) (suc len) 0

  -- `*size` before and after
  unfoldable pub config_field_size : ConfigField → ℕ → Option (ℤ × ℕ)
  config_field_size field size = do
    found ← find_field field
    elim found [
      | negsuc _ ↦ some (neg 1, size)
      | pos at ↦ do byte ← tlv_byte s (at + 1); some (pos 0, byte)
    ]

  -- The object `*value` before and after
  unfoldable pub read_value : ConfigField → ℕ → List ℕ → Option (ℤ × List ℕ)
  read_value field size value = do
    found ← find_field field
    elim found [
      | negsuc _ ↦ some (neg 1, value)
      | pos at ↦ elim (leb size_tlv_max (at + 2 + size)) [
        | true ↦ some (neg 2, value)
        | false ↦ do
          stored ← tlv_byte s (at + 1)
          elim (size == stored) [
            | false ↦ some (neg 3, value)
            | true ↦ do
              bytes ← tlv_read s (at + 2) size
              out ← write_at value 0 bytes
              some (pos 0, out)
          ]
      ]
    ]

-- `bytes_to_insert > bytes_avaliable`, with the subtraction of an `int` moved across
unfoldable pub no_room : ℕ → ℕ → Bool
no_room size len = ltb size_tlv_max (2 + size + len)

module _ {Flash : Type 0} (s : State Flash) where
  -- The `memmove` of what follows the value at `at`, if its size changes from `old` to `size`
  unfoldable pub shift_data : ℕ → ℕ → ℕ → ℕ → Option (State Flash)
  shift_data len at old size = elim (size == old) [
    | true ↦ some s
    | false ↦ do
      let move_size = (2 ^ 32 + len - (at + 2 + old)) % 2 ^ 32
      moved ← tlv_read s (at + 2 + old) move_size
      tlv_write s (at + 2 + size) moved
  ]

  unfoldable pub insert_value : ℕ → ConfigField → ℕ → List ℕ → Option (ℤ × State Flash)
  insert_value at field size value = do
    len ← tlv_length s
    elim (no_room size len) [
      | true ↦ some (neg 1, s)
      | false ↦ do
        old ← tlv_byte s (at + 1)
        present ← tlv_read s (at + 2) size
        wanted ← read_at value 0 size
        elim (same_bytes present wanted && (size == old)) [
          | true ↦ some (pos size, s)
          | false ↦ do
            s1 ← shift_data len at old size
            s2 ← tlv_write s1 at (field_code field ∷ [])
            s3 ← tlv_write s2 (at + 1) (size ∷ [])
            s4 ← tlv_write s3 (at + 2) wanted
            s5 ← set_tlv_length s4 ((2 ^ 16 + len + size - old) % 2 ^ 16)
            some (pos size, s5)
        ]
    ]

  unfoldable pub append_value : ConfigField → ℕ → List ℕ → Option (ℤ × State Flash)
  append_value field size value = do
    len ← tlv_length s
    elim (no_room size len) [
      | true ↦ some (neg 1, s)
      | false ↦ do
        wanted ← read_at value 0 size
        s1 ← tlv_write s len (field_code field ∷ [])
        s2 ← tlv_write s1 (len + 1) (size ∷ [])
        s3 ← tlv_write s2 (len + 2) wanted
        s4 ← set_tlv_length s3 ((len + (2 + size)) % 2 ^ 16)
        some (pos size, s4)
    ]
