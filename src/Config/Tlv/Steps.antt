-- ===== src/Config/Tlv/Steps.antt =====
-- `insert_value` and `shift_data`, run on what their parts return.
use tdoa.Base.{
  ℕ, ◌+◌, ◌-◌, ◌%◌, ◌^◌, ◌≡◌, true, false, some, List, [], ◌∷◌, arith, ◌==◌, ◌&&◌, same_bytes,
  read_at, pos,
}
use tdoa.Config.State.{
  ConfigField, field_code, State, tlv_length, tlv_byte, tlv_read, tlv_write, set_tlv_length,
}
use tdoa.Config.Tlv.{no_room, shift_data, insert_value}

module _ {Flash : Type 0} (s : State Flash) (field : ConfigField) (size at : ℕ)
    (value : List ℕ) where
  pub insert_same :
      {len : ℕ} {w : List ℕ}
      → tlv_length s ≡ some len
      → no_room size len ≡ false
      → tlv_byte s (at + 1) ≡ some size
      → tlv_read s (at + 2) size ≡ some w
      → read_at value 0 size ≡ some w
      → same_bytes w w ≡ true
      → insert_value s at field size value ≡ some (pos size, s)
  unfolding insert_value
  insert_same a b c d e f = ground arith

  pub insert_changed :
      {len old : ℕ} {present w : List ℕ} {s1 s2 s3 s4 s5 : State Flash}
      → tlv_length s ≡ some len
      → no_room size len ≡ false
      → tlv_byte s (at + 1) ≡ some old
      → tlv_read s (at + 2) size ≡ some present
      → read_at value 0 size ≡ some w
      → (same_bytes present w && (size == old)) ≡ false
      → shift_data s len at old size ≡ some s1
      → tlv_write s1 at (field_code field ∷ []) ≡ some s2
      → tlv_write s2 (at + 1) (size ∷ []) ≡ some s3
      → tlv_write s3 (at + 2) w ≡ some s4
      → set_tlv_length s4 ((2 ^ 16 + len + size - old) % 2 ^ 16) ≡ some s5
      → insert_value s at field size value ≡ some (pos size, s5)
  unfolding insert_value
  insert_changed a b c d e f g h i j k = ground arith

pub shift_data_same :
    {Flash : Type 0} (s : State Flash) (len at old size : ℕ)
    → (size == old) ≡ true
    → shift_data s len at old size ≡ some s
unfolding shift_data
shift_data_same s len at old size e = ground arith
